-- ===== src/DnsCache/Added.antt =====
-- A result is added to the cache.
use poplar.Prelude.{
  ℕ, ◌+◌, ◌^◌, ◌%◌, ◌<◌, ◌≡◌, refl, ap, ap₂, sym, ◌∙◌, subst, Bool, List, [], ◌∷◌, ◌++◌, map,
  Option, none, some, arith, length, if◌then◌else◌,
}
use poplar.Prelude.Lists.{length-append}
use poplar.Prelude.Distinct.{Absent}
use poplar.Run.{ok, Returns-ok, ◌>>=◌}
use poplar.Hash.{Hash, hash_get}
use poplar.Hash.Lookup.{inserted, get_new, inserted-IsValid, held-inserted}
use poplar.LinkedList.{State, listnode_add}
use poplar.LinkedList.Added.{Stores, add-Stores}
use poplar.DnsCache.{
  DnsQueryResult, DnsCache, is_same_name, name_at, dns_cache_map_cmp, dns_cache_map_add,
  dns_cache_add,
}
use poplar.DnsCache.Keyed.{AllKeyed-set, AllKeyed-get_or}
use poplar.DnsCache.Agreement.{first_named, Agrees, laws_of, first_named-last, Unlike-last}

module _ (results : ℕ → DnsQueryResult) where
  pub cmp_names :
      (p q : ℕ)
      → dns_cache_map_cmp results p q ≡ is_same_name (name_at results p) (name_at results q)
  unfolding dns_cache_map_cmp
  cmp_names p q = refl

  add_runs :
      (cache : DnsCache) (node p : ℕ) (name : List ℕ) (r : Option ℕ) (m : Hash ℕ) (q : State)
      → (results p).host_name ≡ some name
      → hash_get cache.map p (some (λ d. some d)) ≡ ok (r, m)
      → listnode_add cache.queue node (some p) ≡ ok q
      → dns_cache_add results cache node p ≡ ok (record cache { map = m; queue = q })
  unfolding dns_cache_add dns_cache_map_add
  add_runs cache node p name r m q e c1 c2 =
      rw (dns_cache_add, e, ◌>>=◌, hash_get, c1, listnode_add, c2) refl

  pub map_some : (rs : List ℕ) (p : ℕ) → map some rs ++ some p ∷ [] ≡ map some (rs ++ p ∷ [])
  map_some [] p = refl
  map_some (r ∷ rs) p = ap (λ m. some r ∷ m) (map_some rs p)

  -- A result with a name that the cache does not hold yet, and a new node: DnsCacheAdd returns, and
  -- table and queue agree on the results as before with the new one as the freshest. There are fewer
  -- than 2 ^ 32 - 1 results before.
  pub add-Agrees :
      (cache : DnsCache) (nodes rs : List ℕ) (node p : ℕ) (name : List ℕ)
      → Agrees results nodes rs cache
      → (results p).host_name ≡ some name
      → first_named results (name_at results p) rs ≡ none
      → Absent node nodes
      → length nodes + 1 < 2 ^ 32
      → length rs + 1 < 2 ^ 64
      → (c : DnsCache) × (dns_cache_add results cache node p ≡ ok c)
        × Agrees results (nodes ++ node ∷ []) (rs ++ p ∷ []) c
        × (c.released ≡ cache.released)
  add-Agrees cache nodes rs node p name v named' fresh absent small room =
      let h = cache.map in
      let laws = laws_of results h v.keys v.tests in
      let empty = v.found p ∙ fresh in
      let same = laws.reflexive p in
      let (q, runs, st) =
        Returns-ok _ (add-Stores cache.queue nodes node p v.queued.held absent small).0 in
      let test = λ (b : ℕ). ap (λ (f : ℕ → ℕ → Bool). f p b) v.tests ∙ cmp_names p b in
      (
        record cache { map = inserted h p p; queue = q },
        add_runs cache node p name (some p) (inserted h p p) q named'
            (get_new h p p (λ d. some d) v.valid empty refl) runs,
        record {
          valid =
              inserted-IsValid h laws p p v.valid empty same
                (omega (arith, room, v.counts, v.valid.count));
          keys = v.keys;
          tests = v.tests;
          queued =
              subst (λ vs. Stores (nodes ++ node ∷ []) vs q)
                (ap (λ vs. vs ++ some p ∷ []) v.queued.values ∙ map_some rs p) st;
          found = λ b.
              held-inserted h laws p p b v.valid same
              ∙ ap₂ (λ (t : Bool) (o : Option ℕ). if t then some p else o) (test b) (v.found b)
              ∙ sym (first_named-last results (name_at results b) rs p fresh);
          keyed = AllKeyed-set results h.index (h.hash_key p % h.size) _ v.keyed (
            ap (λ (f : ℕ → ℕ). f p) v.keys,
            AllKeyed-get_or results h.index (h.hash_key p % h.size) v.keyed,
          );
          unlike = Unlike-last results rs p v.unlike fresh;
          counts = omega (arith, v.counts, room, length-append rs (p ∷ []));
        },
        refl,
      )

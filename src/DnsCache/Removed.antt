-- ===== src/DnsCache/Removed.antt =====
-- A result is taken out of the cache.
use poplar.Prelude.{
  ℕ, suc, ◌^◌, ◌%◌, ◌<◌, ◌≤◌, ◌≡◌, refl, ap, ap₂, ◌∙◌, subst, Bool, List, [], ◌∷◌, ◌++◌, map,
  Option, none, some, arith, length, if◌then◌else◌,
}
use poplar.Run.{ok, Completes-some, ◌>>=◌}
use poplar.Hash.{Hash, hash_release}
use poplar.Hash.Valid.{AllUnique-get_or}
use poplar.Hash.Lookup.{chain}
use poplar.Hash.Release.{
  unlink_found, without, release_found, without-IsValid, count-without, held-without,
}
use poplar.LinkedList.{State, listnode_delete}
use poplar.LinkedList.Added.{Stores}
use poplar.LinkedList.Removed.{remove_first, delete-Stores}
use poplar.DnsCache.{
  DnsQueryResult, DnsCache, name_at, dns_cache_map_del, del_from_queue, dns_cache_del,
}
use poplar.DnsCache.Keyed.{Keyed, AllKeyed-set, AllKeyed-get_or, left_of, unlink-Keyed}
use poplar.DnsCache.Agreement.{
  Agrees, among, laws_of, first_named-there, first_named-without, remove_first-there,
}
use poplar.DnsCache.Added.{cmp_names}

module _ (results : ℕ → DnsQueryResult) where
  del_runs :
      (fuel : ℕ) (cache : DnsCache) (p : ℕ) (name : List ℕ) (r : Option ℕ) (m : Hash ℕ) (q : State)
      → (results p).host_name ≡ some name
      → hash_release cache.map p ≡ ok (r, m)
      → listnode_delete fuel cache.queue (some p) ≡ some q
      → dns_cache_del results fuel cache p
        ≡ some (ok (record { map = m; queue = q; released = cache.released ++ p ∷ [] }))
  unfolding dns_cache_del dns_cache_map_del del_from_queue
  del_runs fuel cache p name r m q e c1 c2 =
      rw (dns_cache_del, e, ◌>>=◌, hash_release, c1, del_from_queue, c2) refl

  length-without :
      (as' : List ℕ) (p : ℕ) (bs : List ℕ) → length (as' ++ p ∷ bs) ≡ suc (length (as' ++ bs))
  length-without [] p bs = refl
  length-without (a ∷ as') p bs = ap suc (length-without as' p bs)

  -- With what the deletion from the queue leaves.
  pub del-Agrees_with :
      (fuel : ℕ) (cache : DnsCache) (nodes nodes' as' : List ℕ) (p : ℕ) (bs : List ℕ)
      (name : List ℕ) (q : State)
      → Agrees results nodes (as' ++ p ∷ bs) cache
      → (results p).host_name ≡ some name
      → cache.map.count < 2 ^ 64
      → listnode_delete fuel cache.queue (some p) ≡ some q
      → Stores nodes' (map some (as' ++ bs)) q
      → (c : DnsCache) × (dns_cache_del results fuel cache p ≡ some (ok c))
        × Agrees results nodes' (as' ++ bs) c
        × (c.released ≡ cache.released ++ p ∷ [])
        × (c.queue ≡ q)
  unfolding without
  del-Agrees_with fuel cache nodes nodes' as' p bs name q v named' small runs st =
      let h = cache.map in
      let laws = laws_of results h v.keys v.tests in
      let k = among results as' p bs v.unlike in
      let there = v.found p ∙ first_named-there results as' p bs k.before in
      let uniq = AllUnique-get_or h.hash_cmp h.index (h.hash_key p % h.size) v.valid.unique in
      let (rest, r) =
        unlink_found h.hash_key h.hash_cmp laws (h.hash_key p) p p (chain h p) uniq there in
      let m = without h laws p rest in
      let test = λ (b : ℕ). ap (λ (f : ℕ → ℕ → Bool). f p b) v.tests ∙ cmp_names results p b in
      (
        record { map = m; queue = q; released = cache.released ++ p ∷ [] },
        del_runs fuel cache p name (some p) m q named'
            (release_found h laws p p rest v.valid r.runs) runs,
        record {
          valid = without-IsValid h laws p p rest v.valid small r;
          keys = v.keys;
          tests = v.tests;
          queued = st;
          found = λ b.
              held-without h laws p p b rest v.valid r
              ∙ ap₂ (λ (t : Bool) (o : Option ℕ). if t then none else o) (test b) (v.found b)
              ∙ first_named-without results (name_at results b) as' p bs k.before k.behind;
          keyed = AllKeyed-set results h.index (h.hash_key p % h.size) rest v.keyed (
              subst (λ o. Keyed results (left_of results o)) r.runs
                (unlink-Keyed results h.hash_cmp (h.hash_key p) p (chain h p)
                  (AllKeyed-get_or results h.index (h.hash_key p % h.size) v.keyed)));
          unlike = k.others;
          counts = omega (
            arith,
            count-without h laws p p rest v.valid small r,
            v.counts,
            length-without as' p bs,
          );
        },
        refl,
        refl,
      )

  -- A result that the cache holds, with its name: with fuel for every node DnsCacheDel ends and returns,
  -- the result is released, and table and queue agree on the others in their order.
  pub del-Agrees :
      (fuel : ℕ) (cache : DnsCache) (nodes as' : List ℕ) (p : ℕ) (bs : List ℕ) (name : List ℕ)
      → Agrees results nodes (as' ++ p ∷ bs) cache
      → (results p).host_name ≡ some name
      → cache.map.count < 2 ^ 64
      → length nodes < 2 ^ 32
      → length nodes ≤ fuel
      → (c : DnsCache) × (nodes' : List ℕ) × (dns_cache_del results fuel cache p ≡ some (ok c))
        × Agrees results nodes' (as' ++ bs) c
        × (c.released ≡ cache.released ++ p ∷ [])
  del-Agrees fuel cache nodes as' p bs name v named' small room enough =
      let k = among results as' p bs v.unlike in
      let (q, runs, (nodes', st)) =
        Completes-some
          {P = λ t.
            (ys : List ℕ) × Stores ys (remove_first (some p) (map cache.queue.value nodes)) t}
          (listnode_delete fuel cache.queue (some p))
          (delete-Stores cache.queue nodes fuel (some p) v.queued.held room enough) in
      let values =
        ap (remove_first (some p)) v.queued.values ∙ remove_first-there results as' p bs k.before in
      let (c, ran, agrees, freed, same) =
        del-Agrees_with fuel cache nodes nodes' as' p bs name q v named' small runs
          (subst (λ vs. Stores nodes' vs q) values st) in
      (c, nodes', ran, agrees, freed)

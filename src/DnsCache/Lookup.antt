-- ===== src/DnsCache/Lookup.antt =====
-- A look at the cache by the name of a host, and a result made the freshest.
use poplar.Prelude.{
  ℕ, ◌%◌, ◌<◌, ◌≡◌, inl, inr, refl, ap, ap₂, sym, ◌∙◌, subst, Bool, List, [], ◌∷◌, Option, none,
  some, arith, length, get_or, if◌then◌else◌, Option-cases, Bool-cases,
}
use poplar.Run.{ok, ◌>>=◌}
use poplar.HashKey.{bkdr_hash}
use poplar.Hash.{Hash, find}
use poplar.Hash.Lookup.{modulo_lem}
use poplar.DnsCache.{
  DnsQueryResult, DnsCache, is_same_name, name_at, dns_cache_map_get_key, find_host,
  dns_cache_map_lookup_by_hostname, dns_cache_lookup_by_hostname,
}
use poplar.DnsCache.Names.{same_name-eq}
use poplar.DnsCache.Keyed.{AllKeyed-get_or, find-find_host, find_host-name}
use poplar.DnsCache.Agreement.{first_named, Agrees}
use poplar.Prelude.Lists.{get_elem?-eq-get_or}
use native.Mathlib.Nat.{mod-lt}

module _ (results : ℕ → DnsQueryResult) where
  lookup_runs :
      (m : Hash ℕ) (name : List ℕ)
      → length m.index ≡ m.size
      → 0 < m.size
      → dns_cache_map_lookup_by_hostname results m name
        ≡ ok (find_host results name (get_or m.index (bkdr_hash name % m.size) []))
  unfolding dns_cache_map_lookup_by_hostname
  lookup_runs m name e h =
      let place : bkdr_hash name % m.size < length m.index =
        omega (arith, mod-lt (bkdr_hash name) h) in
      rw
        (
          dns_cache_map_lookup_by_hostname,
          modulo_lem m (bkdr_hash name) h,
          ◌>>=◌,
          get_elem?-eq-get_or m.index (bkdr_hash name % m.size) [] place,
        )
        refl

  first_named-name :
      (name : List ℕ) (rs : List ℕ) (r : ℕ)
      → first_named results name rs ≡ some r
      → name_at results r ≡ name
  first_named-name name [] r h = cc
  first_named-name name (q ∷ rs) r h = elim (Bool-cases (is_same_name (name_at results q) name)) [
    | inl y ↦
        let found : some q ≡ some r =
          sym (ap (λ (t : Bool). if t then some q else first_named results name rs) y) ∙ h in
        subst (λ (k : ℕ). name_at results k ≡ name) (ap value_of found)
          (same_name-eq (name_at results q) name y)
    | inr n ↦
        first_named-name name rs r
          (sym (ap (λ (t : Bool). if t then some q else first_named results name rs) n) ∙ h)
  ]
    where
      value_of : Option ℕ → ℕ
      value_of none = 0
      value_of (some v) = v

  -- The table at a result, by what the chain of its name holds.
  held-find_host :
      (cache : DnsCache) (nodes rs : List ℕ) (p : ℕ)
      → Agrees results nodes rs cache
      → first_named results (name_at results p) rs
        ≡ find_host results
            (name_at results p)
            (get_or cache.map.index (bkdr_hash (name_at results p) % cache.map.size) [])
  unfolding dns_cache_map_get_key
  held-find_host cache nodes rs p v =
      let h = cache.map in
      sym (v.found p)
      ∙ ap₂
          (λ (cmp : ℕ → ℕ → Bool) (key : ℕ → ℕ).
            find cmp (key p) p (get_or h.index (key p % h.size) []))
          v.tests v.keys
      ∙ find-find_host results p (get_or h.index (bkdr_hash (name_at results p) % h.size) [])
          (AllKeyed-get_or results h.index (bkdr_hash (name_at results p) % h.size) v.keyed)

  -- On a cache whose table and queue agree on the results `rs`, DnsCacheLookupByHostname returns the
  -- result among them that has the name, and NULL where none has it.
  pub lookup-first_named :
      (cache : DnsCache) (nodes rs : List ℕ) (hostname : List ℕ)
      → Agrees results nodes rs cache
      → dns_cache_lookup_by_hostname results cache hostname ≡ ok (first_named results hostname rs)
  unfolding dns_cache_lookup_by_hostname
  lookup-first_named cache nodes rs hostname v =
      let h = cache.map in
      let bs = get_or h.index (bkdr_hash hostname % h.size) [] in
      lookup_runs h hostname v.valid.sized v.valid.positive
      ∙ ap ok (elim (Option-cases (find_host results hostname bs)) [
        | inr (r, e) ↦ sym (by_result r (find_host-name results hostname bs r e))
        | inl e ↦ elim (Option-cases (first_named results hostname rs)) [
          | inl f ↦ e ∙ sym f
          | inr (r, f) ↦ sym (by_result r (first_named-name hostname rs r f))
        ]
      ])
    where
      by_result :
          (r : ℕ)
          → name_at results r ≡ hostname
          → first_named results hostname rs
            ≡ find_host results hostname
                (get_or cache.map.index (bkdr_hash hostname % cache.map.size) [])
      by_result r e =
          subst
            (λ (name : List ℕ).
              first_named results name rs
              ≡ find_host results name
                  (get_or cache.map.index (bkdr_hash name % cache.map.size) []))
            e (held-find_host cache nodes rs r v)

-- ===== src/DnsCache/Oldest.antt =====
-- The oldest results are taken out of a cache that is full.
use poplar.Prelude.{
  ℕ, suc, ◌≡◌, refl, ap, sym, ◌∙◌, List, [], ◌∷◌, map, some, length, ltb, take, drop, if◌then◌else◌,
}
use poplar.DnsCache.{DnsQueryResult, DnsCache, dns_cache_record_counts_max, limit}
use poplar.DnsCache.Agreement.{Agrees}

module _ (results : ℕ → DnsQueryResult) where
  abbrev pub AllNamed : List ℕ → Type 0
  AllNamed [] = Unit
  AllNamed (r ∷ rs) = ((name : List ℕ) × ((results r).host_name ≡ some name)) × AllNamed rs

  -- What DnsCacheCheckAndDelete leaves of the results, and what it releases.
  abbrev pub kept_of : List ℕ → List ℕ
  kept_of rs = if ltb dns_cache_record_counts_max (length rs) then drop limit rs else rs

  abbrev pub released_of : List ℕ → List ℕ
  released_of rs = if ltb dns_cache_record_counts_max (length rs) then take limit rs else []

  pub length-map : {A B : Type 0} (f : A → B) (xs : List A) → length (map f xs) ≡ length xs
  length-map f [] = refl
  length-map f (x ∷ xs) = ap suc (length-map f xs)

  pub length-Agrees :
      (cache : DnsCache) (nodes rs : List ℕ)
      → Agrees results nodes rs cache
      → length nodes ≡ length rs
  length-Agrees cache nodes rs v =
      sym (length-map cache.queue.value nodes) ∙ ap length v.queued.values ∙ length-map some rs

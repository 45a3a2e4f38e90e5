-- ===== src/Dns/Cached.antt =====
-- What a reply leaves in the cache.
use poplar.Prelude.{ℕ, ◌≤◌, ◌≡◌, ◌⊎◌, List, [], ◌∷◌, ◌++◌, none, some, length}
use poplar.Run.{ok}
use poplar.DnsCache.{DnsQueryResult, DnsCache, name_at, dns_cache_lookup_by_hostname}
use poplar.DnsCache.Agreement.{first_named, Agrees}
use poplar.DnsCache.Oldest.{kept_of}
use poplar.Dns.Reply.{extend, remember}

module _ (results : ℕ → DnsQueryResult) where
  -- The cache holds a result of the name; or it holds none, and afterwards it holds the new one.
  abbrev pub Outcome : ℕ → DnsCache → List ℕ → List ℕ → ℕ → ℕ → Type 0
  Outcome fuel cache nodes rs node p =
      ((q : ℕ) × (first_named results (name_at results p) rs ≡ some q)
        × (remember results fuel cache node p
            ≡ some (
                ok (
                  record cache { released = cache.released ++ p ∷ [] },
                  extend results q (results p).validity_end_time,
                ))))
      ⊎ ((first_named results (name_at results p) rs ≡ none)
          × ((c : DnsCache) × (remember results fuel cache node p ≡ some (ok (c, results)))
              × Agrees results (kept_of results nodes ++ node ∷ []) (kept_of results rs ++ p ∷ []) c
              × (dns_cache_lookup_by_hostname results c (name_at results p) ≡ ok (some p))
              × (length (kept_of results rs ++ p ∷ []) ≤ 1001)))

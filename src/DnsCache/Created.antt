-- ===== src/DnsCache/Created.antt =====
-- A new cache.
use poplar.Prelude.{
  ℕ, zero, suc, ◌%◌, ◌<◌, ◌≡◌, Bool, refl, sym, List, [], none, arith, replicate, get_or,
}
use poplar.Prelude.Lists.{length-replicate}
use poplar.Hash.{Backet, find, hash_create_size}
use poplar.Hash.Valid.{total, AllUnique}
use poplar.LinkedList.{State, list_new}
use poplar.DnsCache.{
  DnsQueryResult, dns_cache_create_size, dns_cache_map_cmp, dns_cache_map_get_key,
}
use poplar.DnsCache.Keyed.{AllKeyed}
use poplar.DnsCache.Agreement.{Agrees}

module _ (results : ℕ → DnsQueryResult) where
  abbrev empty_chains : ℕ → List (List (Backet ℕ))
  empty_chains n = replicate n []

  total_empty : (n : ℕ) → total (empty_chains n) ≡ 0
  total_empty zero = refl
  total_empty (suc n) = omega (arith, total_empty n)

  unique_empty : (n : ℕ) (cmp : ℕ → ℕ → Bool) → AllUnique cmp (empty_chains n)
  unique_empty zero cmp = tt
  unique_empty (suc n) cmp = (tt, unique_empty n cmp)

  keyed_empty : (n : ℕ) → AllKeyed results (empty_chains n)
  keyed_empty zero = tt
  keyed_empty (suc n) = (tt, keyed_empty n)

  empty_at : (n i : ℕ) → get_or (empty_chains n) i [] ≡ []
  empty_at zero i = refl
  empty_at (suc n) zero = refl
  empty_at (suc n) (suc i) = empty_at n i

  find_empty :
      (cmp : ℕ → ℕ → Bool) (k p n i : ℕ) → find cmp k p (get_or (empty_chains n) i []) ≡ none
  unfolding find
  find_empty cmp k p n i = rw (empty_at n i) refl

  -- A new cache with a table of any size but 0: table and queue agree on no results.
  pub create_size-Agrees :
      (s : State) (size : ℕ)
      → 0 < size
      → Agrees results [] [] (dns_cache_create_size results s size)
  unfolding dns_cache_create_size hash_create_size list_new
  create_size-Agrees s size h = record {
    valid = record {
      sized = length-replicate size [];
      positive = h;
      count = sym (total_empty size);
      unique = unique_empty size (dns_cache_map_cmp results);
    };
    keys = refl;
    tests = refl;
    queued = record {
      held = record { linked = (refl, refl); distinct = tt; count = refl };
      values = refl;
    };
    found = λ p.
        find_empty (dns_cache_map_cmp results) (dns_cache_map_get_key results p) p size
          (dns_cache_map_get_key results p % size);
    unlike = tt;
    keyed = keyed_empty size;
    counts = refl;
  }

-- ===== src/DnsCache/Tests.antt =====
-- Runs of the operations, and the properties at concrete inputs.
use poplar.Prelude.{
  ℕ, ◌<◌, ◌≡◌, refl, false, List, [], ◌∷◌, ◌++◌, Option, none, some, arith, ◌==◌, if◌then◌else◌,
}
use poplar.Run.{Run, ok, ◌>>=◌, fault, null_pointer}
use poplar.Hash.{hash_create_size}
use poplar.Links.Walk.{find_from}
use poplar.LinkedList.{State}
use poplar.DnsCache.{
  DnsQueryResult, DnsCache, dns_cache_map_get_key, dns_cache_map_cmp, dns_cache_create_size,
  dns_cache_add, dns_cache_del, dns_cache_freshness_update, dns_cache_lookup_by_hostname,
  dns_cache_validity_check_timeout,
}
use poplar.DnsCache.Agreement.{first_named, Agrees}
use poplar.DnsCache.Created.{create_size-Agrees}
use poplar.DnsCache.Added.{add-Agrees}
use poplar.DnsCache.Removed.{del-Agrees}
use poplar.DnsCache.Lookup.{lookup-first_named}
use poplar.DnsCache.Freshness.{freshness-Agrees}

-- Results 1 and 2 have names of their own, 3 the name of 1.
abbrev host : ℕ → List ℕ
host p = if p == 3 then 1 ∷ [] else p ∷ []

abbrev results : ℕ → DnsQueryResult
results p = record {
  transaction_id = 0;
  host_name = some (host p);
  address = p;
  time_live = 60;
  validity_end_time = 60;
}

abbrev nodes : State
nodes = record {
  next = λ p. none;
  prev = λ p. none;
  value = λ p. none;
  head = none;
  tail = none;
  count = 0;
  cmp = none;
  del = false;
  freed = [];
  deleted = [];
}

abbrev start : DnsCache
start = dns_cache_create_size results nodes 4

start-Agrees : Agrees results [] [] start
start-Agrees = create_size-Agrees results nodes 4 (omega arith)

abbrev Shown : Type 0
Shown = Option (Run (Option ℕ × List ℕ))

-- The answer for a name, and what was released.
abbrev asked : List ℕ → Option (Run DnsCache) → Shown
asked name none = none
asked name (some m) =
    some (m >>= λ c. dns_cache_lookup_by_hostname results c name >>= λ r. ok (r, c.released))

abbrev then_del : ℕ → Run DnsCache → Option (Run DnsCache)
then_del p (fault e) = some (fault e)
then_del p (ok c) = dns_cache_del results 9 c p

looked_up :
    asked (host 2) (some (dns_cache_add results start 10 1 >>= λ c. dns_cache_add results c 11 2))
    ≡ some (ok (some 2, []))
unfolding dns_cache_add dns_cache_lookup_by_hostname dns_cache_create_size hash_create_size
    dns_cache_map_get_key dns_cache_map_cmp find_from
looked_up = refl

-- A second result of a name is in the queue, not in the table; with it, the first leaves the table.
second_of_a_name :
    asked
      (host 1)
      (then_del 3 (dns_cache_add results start 10 1 >>= λ c. dns_cache_add results c 11 3))
    ≡ some (ok (none, 3 ∷ []))
unfolding dns_cache_add dns_cache_lookup_by_hostname dns_cache_create_size dns_cache_del
    hash_create_size dns_cache_map_get_key dns_cache_map_cmp find_from
second_of_a_name = refl

abbrev expire : ℕ → Run DnsCache → Option (Run DnsCache)
expire now (fault e) = some (fault e)
expire now (ok c) = dns_cache_validity_check_timeout results 9 now c

expired :
    asked
      (host 1)
      (expire 60 (dns_cache_add results start 10 1 >>= λ c. dns_cache_add results c 11 2))
    ≡ some (ok (none, 1 ∷ 2 ∷ []))
unfolding dns_cache_add dns_cache_lookup_by_hostname dns_cache_create_size
    dns_cache_validity_check_timeout hash_create_size dns_cache_map_get_key dns_cache_map_cmp
    find_from
expired = refl

not_expired :
    asked
      (host 1)
      (expire 59 (dns_cache_add results start 10 1 >>= λ c. dns_cache_add results c 11 2))
    ≡ some (ok (some 1, []))
unfolding dns_cache_add dns_cache_lookup_by_hostname dns_cache_create_size
    dns_cache_validity_check_timeout hash_create_size dns_cache_map_get_key dns_cache_map_cmp
    find_from
not_expired = refl

-- The tail of an empty queue is NULL.
freshness_of_empty : dns_cache_freshness_update results 9 start 10 1 ≡ some (fault null_pointer)
unfolding dns_cache_freshness_update dns_cache_create_size
freshness_of_empty = refl

add-Agrees_example :
    (c : DnsCache) × (dns_cache_add results start 10 1 ≡ ok c)
    × Agrees results ([] ++ 10 ∷ []) ([] ++ 1 ∷ []) c
    × (c.released ≡ start.released)
add-Agrees_example =
    add-Agrees results start [] [] 10 1 (host 1) start-Agrees refl refl tt (omega arith)
      (omega arith)

-- The cache with result 1, and with 1 and 2.
abbrev one : DnsCache
one =
    (add-Agrees results start [] [] 10 1 (host 1) start-Agrees refl refl tt (omega arith)
      (omega arith)).0

one-Agrees : Agrees results (10 ∷ []) (1 ∷ []) one
one-Agrees =
    (add-Agrees results start [] [] 10 1 (host 1) start-Agrees refl refl tt (omega arith)
      (omega arith)).2

lookup-first_named_example :
    dns_cache_lookup_by_hostname results one (host 2) ≡ ok (first_named results (host 2) (1 ∷ []))
lookup-first_named_example = lookup-first_named results one (10 ∷ []) (1 ∷ []) (host 2) one-Agrees

freshness-Agrees_example :
    (c : DnsCache) × (nodes' : List ℕ) × (dns_cache_freshness_update results 9 one 11 1
      ≡ some (ok c))
    × Agrees results nodes' (([] ++ []) ++ 1 ∷ []) c
    × (c.released ≡ one.released)
freshness-Agrees_example =
    freshness-Agrees results 9 one (10 ∷ []) [] 11 1 [] one-Agrees (omega arith, tt) (omega arith)
      (omega arith)

del-Agrees_example :
    (c : DnsCache) × (nodes' : List ℕ) × (dns_cache_del results 9 one 1 ≡ some (ok c))
    × Agrees results nodes' ([] ++ []) c
    × (c.released ≡ one.released ++ 1 ∷ [])
del-Agrees_example =
    del-Agrees results 9 one (10 ∷ []) [] 1 [] (host 1) one-Agrees refl (small one-Agrees.counts)
      (omega arith) (omega arith)
  where
    small : one.map.count ≡ 1 → one.map.count < 18446744073709551616
    small e = omega (arith, e)

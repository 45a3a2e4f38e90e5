-- ===== src/DnsCache.antt =====
-- apps/pop_domain_cache.c: answers of the DNS, in a table that finds them by the name of the host and
-- in a queue from the stalest to the freshest. A DnsQueryResult is an address; its name does not change
-- while it is in the cache, and is its chars up to the NUL.
pub mod Names
pub mod Keyed
pub mod Agreement
pub mod Added
pub mod Removed
pub mod Oldest
pub mod Created
pub mod Lookup
pub mod Freshness
mod Tests
use poplar.Prelude.{
  ℕ, zero, suc, ◌/◌, ◌%◌, Bool, true, false, ◌&&◌, List, [], ◌∷◌, ◌++◌, Option, none, some, length,
  ltb, leb, ◌==◌,
}
use poplar.Run.{Run, ok, fault, assert_failed, null_pointer, assert, ◌>>=◌, ◌>>◌}
use poplar.HashKey.{bkdr_hash}
use poplar.Hash.{
  Hash, Backet, modulo, chain_at, hash_create, hash_create_size, hash_clean, hash_get, hash_release,
}
use poplar.LinkedList.{
  State, is_set, same, list_new, list_delete, list_delete_all_node, listnode_add, listnode_delete,
}

pub record DnsQueryResult : Type 0 where
  pub transaction_id : ℕ
  pub host_name : Option (List ℕ)
  pub address : ℕ
  pub time_live : ℕ
  pub validity_end_time : ℕ

abbrev pub dns_cache_record_counts_max : ℕ
dns_cache_record_counts_max = 1000

-- The local variable of DnsCacheCheckAndDelete.
abbrev pub limit : ℕ
limit = dns_cache_record_counts_max / 3

-- The table, the queue, and the results that were released.
pub record DnsCache : Type 0 where
  pub map : Hash ℕ
  pub queue : State
  pub released : List ℕ

-- `memcmp(p, q, n) == 0` on names of the same length
abbrev pub same_chars : List ℕ → List ℕ → Bool
same_chars [] [] = true
same_chars (c ∷ cs) (d ∷ ds) = (c == d) && same_chars cs ds
same_chars _ _ = false

-- The test of DnsCacheMapCmp on two names.
unfoldable pub is_same_name : List ℕ → List ℕ → Bool
is_same_name xs ys = (length xs == length ys) && same_chars xs ys

-- What stands at the addresses.
module _ (results : ℕ → DnsQueryResult) where
  -- `R->HostName`, for a name that is there.
  abbrev pub name_at : ℕ → List ℕ
  name_at p = elim (results p).host_name [ none ↦ [] | some name ↦ name ]

  unfoldable pub dns_cache_map_get_key : ℕ → ℕ
  unfolding bkdr_hash
  dns_cache_map_get_key p = bkdr_hash (name_at p)

  unfoldable pub dns_cache_map_cmp : ℕ → ℕ → Bool
  unfolding is_same_name
  dns_cache_map_cmp p q = is_same_name (name_at p) (name_at q)

  -- `assert(R->HostName)`, where the table asks for the key of a result.
  abbrev pub has_name : ℕ → Run (Unit {0})
  has_name p = elim (results p).host_name [ none ↦ fault assert_failed | some name ↦ ok tt ]

  abbrev pub dns_cache_map_create : Hash ℕ
  dns_cache_map_create = hash_create dns_cache_map_get_key dns_cache_map_cmp

  abbrev pub dns_cache_map_create_size : ℕ → Hash ℕ
  dns_cache_map_create_size size = hash_create_size size dns_cache_map_get_key dns_cache_map_cmp

  unfoldable pub dns_cache_map_add : Hash ℕ → ℕ → Run (Option ℕ × Hash ℕ)
  unfolding hash_get
  dns_cache_map_add m p = has_name p >>= λ _. hash_get m p (some (λ d. some d))

  unfoldable pub dns_cache_map_del : Hash ℕ → ℕ → Run (Option ℕ × Hash ℕ)
  unfolding hash_release
  dns_cache_map_del m p = has_name p >>= λ _. hash_release m p

  -- The loop of DnsCacheMapLookupByHostname.
  unfoldable pub find_host : List ℕ → List (Backet ℕ) → Option ℕ
  unfolding is_same_name
  find_host hostname [] = none
  find_host hostname (b ∷ bs) = elim (is_same_name (name_at b.value) hostname) [
    | true ↦ some b.value
    | false ↦ find_host hostname bs
  ]

  unfoldable pub dns_cache_map_lookup_by_hostname : Hash ℕ → List ℕ → Run (Option ℕ)
  unfolding find_host bkdr_hash
  dns_cache_map_lookup_by_hostname m hostname = modulo (bkdr_hash hostname) m.size >>= λ i.
      chain_at m.index i >>= λ chain. ok (find_host hostname chain)

  unfoldable pub dns_cache_create : State → DnsCache
  unfolding list_new
  dns_cache_create nodes = record {
    map = dns_cache_map_create;
    queue = list_new nodes;
    released = [];
  }

  unfoldable pub dns_cache_create_size : State → ℕ → DnsCache
  unfolding list_new
  dns_cache_create_size nodes size = record {
    map = dns_cache_map_create_size size;
    queue = list_new nodes;
    released = [];
  }

  -- The node comes from calloc().
  unfoldable pub dns_cache_add : DnsCache → ℕ → ℕ → Run DnsCache
  unfolding dns_cache_map_add listnode_add
  dns_cache_add cache node p = dns_cache_map_add cache.map p >>= λ r.
      listnode_add cache.queue node (some p) >>= λ q. ok (record cache { map = r.1; queue = q })

  -- The queue and the release of DnsCacheDel, behind the table.
  unfoldable pub del_from_queue : ℕ → DnsCache → Hash ℕ → ℕ → Option (Run DnsCache)
  unfolding listnode_delete
  del_from_queue fuel cache m p = elim (listnode_delete fuel cache.queue (some p)) [
    | none ↦ none
    | some q ↦ some (ok (record { map = m; queue = q; released = cache.released ++ p ∷ [] }))
  ]

  unfoldable pub dns_cache_del : ℕ → DnsCache → ℕ → Option (Run DnsCache)
  unfolding dns_cache_map_del del_from_queue
  dns_cache_del fuel cache p = elim (dns_cache_map_del cache.map p) [
    | fault e ↦ some (fault e)
    | ok r ↦ del_from_queue fuel cache r.1 p
  ]

  -- `listgetdata(node)`
  abbrev pub data_of : State → Option ℕ → Run ℕ
  data_of s none = fault null_pointer
  data_of s (some n) = elim (s.value n) [ none ↦ fault assert_failed | some v ↦ ok v ]

  -- Behind the test of DnsCacheFreshnessUpdate.
  unfoldable pub move_to_end : ℕ → DnsCache → ℕ → ℕ → Option (Run DnsCache)
  unfolding listnode_delete listnode_add
  move_to_end fuel cache node p = elim (listnode_delete fuel cache.queue (some p)) [
    | none ↦ none
    | some q ↦ some (listnode_add q node (some p) >>= λ t. ok (record cache { queue = t }))
  ]

  unfoldable pub dns_cache_freshness_update : ℕ → DnsCache → ℕ → ℕ → Option (Run DnsCache)
  unfolding move_to_end
  dns_cache_freshness_update fuel cache node p = elim (data_of cache.queue cache.queue.tail) [
    | fault e ↦ some (fault e)
    | ok v ↦ elim (v == p) [ true ↦ some (ok cache) | false ↦ move_to_end fuel cache node p ]
  ]

  -- The deletion of a node by del is the release of what it carries.
  abbrev pub released_by : List (Option ℕ) → List ℕ
  released_by [] = []
  released_by (none ∷ vs) = released_by vs
  released_by (some v ∷ vs) = v ∷ released_by vs

  -- `Queue->del = DnsQueryResultFree`, the list emptied by either function, and the releases.
  unfoldable pub emptied_queue : ℕ → DnsCache → Option DnsCache
  unfolding list_delete_all_node hash_clean
  emptied_queue fuel cache =
      let freeing = record cache.queue { del = true; deleted = [] } in
      elim (list_delete_all_node fuel freeing) [
        | none ↦ none
        | some q ↦ some (record {
          map = (hash_clean cache.map).1;
          queue = q;
          released = cache.released ++ released_by q.deleted;
        })
      ]

  unfoldable pub dns_cache_clean : ℕ → DnsCache → Option DnsCache
  unfolding emptied_queue
  dns_cache_clean fuel cache = elim (emptied_queue fuel cache) [
    | none ↦ none
    | some c ↦ some (record c { queue = record c.queue { del = false } })
  ]

  -- hash_free, list_free and the release of the cache follow, and nothing of it is used again.
  unfoldable pub dns_cache_destroy : ℕ → DnsCache → Option DnsCache
  unfolding emptied_queue
  dns_cache_destroy fuel cache = emptied_queue fuel cache

  unfoldable pub dns_cache_lookup_by_hostname : DnsCache → List ℕ → Run (Option ℕ)
  unfolding dns_cache_map_lookup_by_hostname
  dns_cache_lookup_by_hostname cache hostname = dns_cache_map_lookup_by_hostname cache.map hostname

  abbrev pub dns_cache_record_counts : DnsCache → ℕ
  dns_cache_record_counts cache = cache.queue.count

  abbrev pub dns_cache_record_counts_check : DnsCache → Bool
  dns_cache_record_counts_check cache =
      ltb dns_cache_record_counts_max (dns_cache_record_counts cache)

  -- The loop of DnsCacheCheckAndDelete, with `limit - count` results left to delete.
  unfoldable pub delete_oldest : ℕ → ℕ → DnsCache → Option ℕ → Option (Run DnsCache)
  unfolding dns_cache_del
  delete_oldest left fuel cache none = some (ok cache)
  delete_oldest zero fuel cache (some n) = elim (data_of cache.queue (some n)) [
    | fault e ↦ some (fault e)
    | ok v ↦ some (ok cache)
  ]
  delete_oldest (suc left) fuel cache (some n) = elim (data_of cache.queue (some n)) [
    | fault e ↦ some (fault e)
    | ok v ↦ elim (dns_cache_del fuel cache v) [
      | none ↦ none
      | some (fault e) ↦ some (fault e)
      | some (ok c) ↦ delete_oldest left fuel c (cache.queue.next n)
    ]
  ]

  unfoldable pub dns_cache_check_and_delete : ℕ → DnsCache → Option (Run DnsCache)
  unfolding delete_oldest
  dns_cache_check_and_delete fuel cache = elim (dns_cache_record_counts_check cache) [
    | false ↦ some (ok cache)
    | true ↦ delete_oldest limit fuel cache cache.queue.head
  ]

  -- The loop of DnsCacheValidityCheckTimeout, with `left` as its own fuel.
  unfoldable pub delete_expired : ℕ → ℕ → ℕ → DnsCache → Option ℕ → Option (Run DnsCache)
  unfolding dns_cache_del
  delete_expired left fuel now cache none = some (ok cache)
  delete_expired zero fuel now cache (some n) = none
  delete_expired (suc left) fuel now cache (some n) = elim (data_of cache.queue (some n)) [
    | fault e ↦ some (fault e)
    | ok v ↦ elim (leb (results v).validity_end_time now) [
      | false ↦ delete_expired left fuel now cache (cache.queue.next n)
      | true ↦ elim (dns_cache_del fuel cache v) [
        | none ↦ none
        | some (fault e) ↦ some (fault e)
        | some (ok c) ↦ delete_expired left fuel now c (cache.queue.next n)
      ]
    ]
  ]

  -- `now` is what time() says, cut to an unsigned int; the timer is then set again.
  unfoldable pub dns_cache_validity_check_timeout : ℕ → ℕ → DnsCache → Option (Run DnsCache)
  unfolding delete_expired
  dns_cache_validity_check_timeout fuel now cache =
      delete_expired fuel fuel now cache cache.queue.head

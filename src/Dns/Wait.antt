-- ===== src/Dns/Wait.antt =====
-- apps/pop_domain_parse.c: the queue of the peers that wait for a reply, a table by the number of
-- their query.
use poplar.Prelude.{ℕ, Bool, true, false, List, [], ◌∷◌, Option, none, some, ◌==◌}
use poplar.Run.{Run, ok, ◌>>=◌}
use poplar.Hash.{Hash, Backet, modulo, chain_at, hash_create, hash_clean, hash_get, hash_release}

-- The loop of DnsWaitAckQueueLookupByID.
unfoldable pub find_by_id : ℕ → List (Backet ℕ) → Option ℕ
find_by_id key [] = none
find_by_id key (b ∷ bs) = elim (b.key == key) [ true ↦ some b.value | false ↦ find_by_id key bs ]

unfoldable pub dns_wait_ack_queue_lookup_by_id : Hash ℕ → ℕ → Run (Option ℕ)
unfolding find_by_id
dns_wait_ack_queue_lookup_by_id q transaction_id = modulo transaction_id q.size >>= λ i.
    chain_at q.index i >>= λ chain. ok (find_by_id transaction_id chain)

-- `transaction_id` is the field DnsTransactionID of the peer at an address.
module _ (transaction_id : ℕ → ℕ) where
  abbrev pub dns_wait_ack_queue_key : ℕ → ℕ
  dns_wait_ack_queue_key p = transaction_id p

  abbrev pub dns_wait_ack_queue_cmp : ℕ → ℕ → Bool
  dns_wait_ack_queue_cmp p q = transaction_id p == transaction_id q

  abbrev pub dns_wait_ack_queue_create : Hash ℕ
  dns_wait_ack_queue_create = hash_create dns_wait_ack_queue_key dns_wait_ack_queue_cmp

unfoldable pub dns_wait_ack_queue_clean : Hash ℕ → Hash ℕ
unfolding hash_clean
dns_wait_ack_queue_clean q = (hash_clean q).1

unfoldable pub dns_wait_ack_queue_add : Hash ℕ → ℕ → Run (Hash ℕ)
unfolding hash_get
dns_wait_ack_queue_add q p = hash_get q p (some (λ d. some d)) >>= λ r. ok r.1

unfoldable pub dns_wait_ack_queue_del : Hash ℕ → ℕ → Run (Option ℕ × Hash ℕ)
unfolding hash_release
dns_wait_ack_queue_del q p = hash_release q p

-- ===== src/Dns/Query.antt =====
-- apps/pop_domain_parse.c: the query for a name.
use poplar.Prelude.{
  ℕ, ◌+◌, ◌%◌, ◌^◌, Bool, ◌||◌, ltb, List, [], ◌∷◌, Option, none, some, length, take, if◌then◌else◌,
}
use poplar.Prelude.Int.{ℤ, pos, negsuc}
use poplar.Run.{Run, ok, ◌>>=◌}
use poplar.Stream.Buffer.{Stream, stream_new}
use poplar.Stream.Put.{byte_at, stream_put, stream_putw}
use poplar.Dns.{trans_dns_name_into_pkt_format, strlen}
use poplar.Dns.Packets.{query_type_a, query_class_internet_addr}
use poplar.Dns.Reply.{header_size}

-- `header` in memory: its shorts in network order, with the number of the query, the flags
-- POP_DOMAIN_STANDARD_QUERY and one question.
abbrev pub query_header : ℕ → List ℕ
query_header id = byte_at id 8 ∷ byte_at id 0 ∷ 1 ∷ 0 ∷ 0 ∷ 1 ∷ 0 ∷ 0 ∷ 0 ∷ 0 ∷ 0 ∷ 0 ∷ []

-- The stream that is sent; `block` is what XMALLOC hands out for a size.
unfoldable pub query_packet : (ℕ → Option (List ℕ)) → ℕ → List ℕ → Run Stream
unfolding stream_new stream_put stream_putw
query_packet block id query =
    stream_new (header_size + length query + 4) (block (header_size + length query + 4)) >>= λ s.
    stream_put s (some (query_header id)) header_size >>= λ a.
    stream_put a (some query) (length query) >>= λ b.
    stream_putw b query_type_a >>= λ c. stream_putw c.1 query_class_internet_addr >>= λ d. ok d.1

-- What is returned, the DomainTransID that is left, and the packet that sendto was called with.
pub record Queried : Type 0 where
  pub result : ℤ
  pub next_id : ℕ
  pub sent : Option (List ℕ)

-- `sends` says of a packet whether sendto takes it, `id` is DomainTransID.
unfoldable pub get_host_by_name_unblock :
    (ℕ → Option (List ℕ)) → (List ℕ → Bool) → ℕ → Option (List ℕ) → Run Queried
unfolding trans_dns_name_into_pkt_format query_packet
get_host_by_name_unblock block sends id name = trans_dns_name_into_pkt_format name >>= λ query.
    elim query [
      | none ↦ ok (record { result = negsuc 0; next_id = id; sent = none })
      | some q ↦ query_packet block id q >>= λ s. ok (record {
        result = if sends (take s.endp s.bytes) then pos 0 else negsuc 0;
        next_id = (id + 1) % 2 ^ 16;
        sent = some (take s.endp s.bytes);
      })
    ]

-- Whether a text is an address; `inet_pton` is what inet_pton returns for it.
unfoldable pub if_ipv4address : (List ℕ → ℤ) → List ℕ → Run ℤ
unfolding strlen
if_ipv4address inet_pton name =
    strlen name >>= λ n. ok (if ltb n 7 || ltb 15 n then negsuc 0 else inet_pton name)

-- ===== src/Dns/Reply.antt =====
-- apps/pop_domain_parse.c: a reply of the server of names, from the packet to the cache.
use poplar.Prelude.{
  ℕ, ◌+◌, ◌%◌, ◌^◌, Bool, true, false, not, ◌||◌, List, [], ◌∷◌, ◌++◌, Option, none, some, take,
  bit_and, ltb, ◌==◌, if◌then◌else◌,
}
use poplar.Prelude.Int.{ℤ}
use poplar.Run.{Run, ok, ◌>>=◌}
use poplar.Stream.Buffer.{Stream, readable}
use poplar.Hash.{Hash}
use poplar.DnsCache.{
  DnsQueryResult, DnsCache, name_at, dns_cache_add, dns_cache_lookup_by_hostname,
  dns_cache_check_and_delete,
}
use poplar.Peer.{World, modify}
use poplar.Peer.Machine.{ConnectAnswer, pop_tcp_client_event}
use poplar.Dns.{strlen}
use poplar.Dns.Wait.{dns_wait_ack_queue_lookup_by_id, dns_wait_ack_queue_del}
use poplar.Dns.Packets.{
  ◌>>?◌, DomainNameHeader, DomainNameQuestion, DomainNameAnswer, header_parse,
  domain_name_question_parse, answer_loop, query_type_a, query_class_internet_addr,
}

-- `header.Flags & DOMAIN_HEADER_RESPONSE_FLAG`, where the flag is the text `1<<7`.
abbrev pub is_response : ℕ → Bool
is_response flags = not (bit_and flags 128 == 0)

-- `sizeof(DomainNameHeader)`
abbrev pub header_size : ℕ
header_size = 12

-- XSTRDUP
unfoldable pub duplicate : List ℕ → Run (List ℕ)
unfolding strlen
duplicate s = strlen s >>= λ n. ok (take n s)

abbrev pub no_answer : ℕ → List ℕ → DnsQueryResult
no_answer id name = record {
  transaction_id = id;
  host_name = some name;
  address = 0;
  time_live = 0;
  validity_end_time = 0;
}

-- The result with what the answer says; `now` is what time() says.
abbrev pub with_answer : ℕ → ℕ → List ℕ → Option DomainNameAnswer → DnsQueryResult
with_answer now id name none = no_answer id name
with_answer now id name (some a) = record {
  transaction_id = id;
  host_name = some name;
  address = a.addr;
  time_live = a.time_live;
  validity_end_time = (now + a.time_live) % 2 ^ 32;
}

-- DomainNameIpv4Addr behind the question.
unfoldable pub result_of :
    ℕ → ℕ → DomainNameHeader → DomainNameQuestion → Stream → Option (Run (Option DnsQueryResult))
unfolding duplicate answer_loop
result_of fuel now header question s = some (duplicate question.query_name) >>? λ name.
    elim (header.answer_rrs == 0) [
      | true ↦ some (ok (some (no_answer header.transaction_id name)))
      | false ↦ answer_loop header.answer_rrs fuel s >>? λ a.
          some (ok (some (with_answer now header.transaction_id name a)))
    ]

-- NULL is `none`.
unfoldable pub domain_name_ipv4_addr : ℕ → ℕ → Stream → Option (Run (Option DnsQueryResult))
unfolding header_parse domain_name_question_parse result_of
domain_name_ipv4_addr fuel now s = elim (ltb (readable s) header_size) [
  | true ↦ some (ok none)
  | false ↦ some (header_parse s) >>? λ h.
      elim (not (is_response h.0.flags) || not (h.0.questions == 1)) [
        | true ↦ some (ok none)
        | false ↦ domain_name_question_parse fuel h.1 >>? λ q. elim q.0 [
          | none ↦ some (ok none)
          | some question ↦
              elim (not (question.query_type == query_type_a)
                || not (question.query_class == query_class_internet_addr)) [
                  | true ↦ some (ok none)
                  | false ↦ result_of fuel now h.0 question q.1
                ]
        ]
      ]
]

-- `dns_result_tmp->ValidityEndTime = end`, on the result at `q`
abbrev pub extend : (ℕ → DnsQueryResult) → ℕ → ℕ → ℕ → DnsQueryResult
extend results q end p = record (results p) {
  validity_end_time = if p == q then end else (results p).validity_end_time;
}

-- `DnsQueryResultFree(dns_result)`
abbrev pub drop_result : DnsCache → ℕ → DnsCache
drop_result cache p = record cache { released = cache.released ++ p ∷ [] }

-- The end of pop_udp_recv_dns_query_ack, from the look at the cache on, for a result that stands at
-- `p`: the cache and the results as they are afterwards.
unfoldable pub remember :
    (ℕ → DnsQueryResult) → ℕ → DnsCache → ℕ → ℕ → Option (Run (DnsCache × (ℕ → DnsQueryResult)))
unfolding dns_cache_lookup_by_hostname dns_cache_check_and_delete dns_cache_add
remember results fuel cache node p =
    some (dns_cache_lookup_by_hostname results cache (name_at results p)) >>? λ found. elim found [
      | some q ↦ some (ok (drop_result cache p, extend results q (results p).validity_end_time))
      | none ↦ dns_cache_check_and_delete results fuel cache >>? λ c.
          some (dns_cache_add results c node p >>= λ d. ok (d, results))
    ]

-- The proxy: the peers that wait for a reply, the cache, the results of queries and all peers.
pub record Proxy : Type 0 where
  pub waiting : Hash ℕ
  pub cache : DnsCache
  pub results : ℕ → DnsQueryResult
  pub world : World

-- What pop_tcp_socket, connect() and EVENT_SET get where a connection is started.
pub record ConnectCalls : Type 0 where
  pub sock : ℤ
  pub answer : ConnectAnswer
  pub epoll : Option ℕ

-- DnsWaitAckTimerCancel
abbrev pub dns_wait_ack_timer_cancel : World → ℕ → World
dns_wait_ack_timer_cancel w peer = modify w peer (λ s. record s { t_dns_wait_ack = false })

-- The address of the server, which remoteAddr gets as well, in the order of the network.
abbrev pub addressed : World → ℕ → ℕ → World
addressed w peer address = modify w peer (λ s. record s { remote_hostip = address })

-- pop_udp_recv_dns_query_ack from the look for the peer on.
unfoldable pub answer_peer : ℕ → ConnectCalls → Proxy → ℕ → ℕ → Option (Run Proxy)
unfolding dns_wait_ack_queue_lookup_by_id dns_wait_ack_queue_del pop_tcp_client_event remember
answer_peer fuel calls proxy node p =
    let result : DnsQueryResult = proxy.results p in
    some (dns_wait_ack_queue_lookup_by_id proxy.waiting result.transaction_id) >>? λ found.
    elim found [
      | none ↦ some (ok (record proxy { cache = drop_result proxy.cache p }))
      | some peer ↦ some (dns_wait_ack_queue_del proxy.waiting peer) >>? λ w.
          let off : World = dns_wait_ack_timer_cancel proxy.world peer in
          elim (result.address == 0) [
            | true ↦ some (
                ok (record proxy { waiting = w.1; cache = drop_result proxy.cache p; world = off }))
            | false ↦
                some (
                  pop_tcp_client_event (addressed off peer result.address) peer 1 calls.sock
                    calls.answer calls.epoll)
                >>? λ u. remember proxy.results fuel proxy.cache node p >>? λ r.
                    some (ok (record { waiting = w.1; cache = r.0; results = r.1; world = u }))
          ]
    ]

-- ===== src/Dns/Receive.antt =====
-- apps/pop_domain_parse.c: a datagram that is read from the socket of the server of names.
use poplar.Prelude.{ℕ, Bool, true, false, Option, none, some, replicate, if◌then◌else◌, ◌==◌}
use poplar.Prelude.Int.{ℤ, pos, negsuc}
use poplar.Run.{Run, ok, ◌>>=◌}
use poplar.Stream.Buffer.{Stream, stream_reset}
use poplar.Stream.Io.{Answer, stream_recvfrom}
use poplar.DnsCache.{DnsQueryResult}
use poplar.Dns.Packets.{◌>>?◌}
use poplar.Dns.Reply.{Proxy, ConnectCalls, domain_name_ipv4_addr, answer_peer}

-- The results, where `r` stands at `p`.
abbrev pub with_result : (ℕ → DnsQueryResult) → ℕ → DnsQueryResult → ℕ → DnsQueryResult
with_result results p r q = if q == p then r else results q

module _ (fuel now node p : ℕ) (calls : ConnectCalls) where
  -- Behind DomainNameIpv4Addr, which takes the result from `p` on.
  unfoldable pub result_received : Proxy → Option DnsQueryResult → Option (Run Proxy)
  unfolding answer_peer
  result_received proxy none = some (ok proxy)
  result_received proxy (some r) =
      answer_peer fuel calls (record proxy { results = with_result proxy.results p r }) node p

  -- `from_server` is the test of the address and the port that the datagram comes from.
  unfoldable pub pop_udp_recv_dns_query_ack : Bool → Proxy → Stream → Option (Run Proxy)
  unfolding domain_name_ipv4_addr result_received
  pop_udp_recv_dns_query_ack false proxy s = some (ok proxy)
  pop_udp_recv_dns_query_ack true proxy s =
      domain_name_ipv4_addr fuel now s >>? λ r. result_received proxy r

  -- The number that stream_recvfrom returns; below 0 nothing is done.
  unfoldable pub datagram_read : Bool → Bool → Proxy → ℤ × Stream → Option (Run Proxy)
  unfolding pop_udp_recv_dns_query_ack
  datagram_read is_dns_client from_server proxy (negsuc n, s) = some (ok proxy)
  datagram_read is_dns_client from_server proxy (pos n, s) = elim is_dns_client [
    | true ↦ pop_udp_recv_dns_query_ack from_server proxy s
    | false ↦ some (ok proxy)
  ]

  -- The buffer is zeroed and empty before each datagram; that the event is set again is left out.
  unfoldable pub pop_udp_read : Bool → Bool → Answer → Proxy → Stream → Option (Run Proxy)
  unfolding stream_reset stream_recvfrom datagram_read
  pop_udp_read is_dns_client from_server answer proxy s =
      some (
        stream_reset (record s { bytes = replicate s.size 0 }) >>= λ empty.
        stream_recvfrom empty s.size answer)
      >>? λ r. datagram_read is_dns_client from_server proxy r

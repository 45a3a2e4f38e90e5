-- ===== src/Dns/ReceiveTests.antt =====
-- A reply read from the socket, and the peer that waits for it.
use poplar.Prelude.{ℕ, ◌≡◌, refl, true, false, List, [], ◌∷◌, none, some, replicate}
use poplar.Prelude.Int.{pos, negsuc}
use poplar.Prelude.Lists.{splice, slice}
use poplar.Run.{ok, memcpy}
use poplar.Hash.{Hash, hash_create_size}
use poplar.LinkedList.{State}
use poplar.Peer.{World, tcp_peer_type_server, client_idle, client_connect}
use poplar.Peer.Machine.{in_progress}
use poplar.Stream.Buffer.{Stream, get_byte}
use poplar.Stream.Io.{got}
use poplar.DnsCache.{DnsQueryResult, dns_cache_create_size, dns_cache_map_get_key}
use poplar.Dns.Packets.{◌>>?◌}
use poplar.Dns.Wait.{dns_wait_ack_queue_key, dns_wait_ack_queue_cmp}
use poplar.Dns.Reply.{Proxy, ConnectCalls}
use poplar.Dns.Receive.{pop_udp_read}

abbrev results : ℕ → DnsQueryResult
results p = record {
  transaction_id = p;
  host_name = some (p ∷ []);
  address = p;
  time_live = 60;
  validity_end_time = 60;
}

abbrev nodes : State
nodes = record {
  next = λ p. none;
  prev = λ p. none;
  value = λ p. none;
  head = none;
  tail = none;
  count = 0;
  cmp = none;
  del = false;
  freed = [];
  deleted = [];
}

-- Peer 9, with the number 9 of its query, in a table of four chains.
abbrev peers : Hash ℕ
peers = record {
  index = [] ∷ (record { key = 9; value = 9 } ∷ []) ∷ [] ∷ [] ∷ [];
  size = 4;
  hash_key = dns_wait_ack_queue_key (λ p. p);
  hash_cmp = dns_wait_ack_queue_cmp (λ p. p);
  count = 1;
}

-- Every peer is idle, and waits with its timer.
abbrev world : World
world = record {
  peers = λ n. record {
    sockfd = negsuc 0;
    tcp_peer_type = tcp_peer_type_server;
    tcp_client_status = client_idle;
    tcp_server_status = 1;
    tcp_client_info_list = [];
    tcp_server_info_list = [];
    paired_peer = none;
    t_info_deal = false;
    t_event = none;
    t_connecting_timer = false;
    t_holdtime = false;
    t_dns_wait_ack = true;
    remote_hostip = 0;
    recv_buffer = record { getp = 0; endp = 0; size = 4; bytes = 0 ∷ 0 ∷ 0 ∷ 0 ∷ [] };
    addr_res = none;
    addr_ptr = none;
  };
  closed = [];
  paired_peer_tcp_list = [];
}

abbrev proxy : Proxy
proxy = record {
  waiting = peers;
  cache = dns_cache_create_size results nodes 4;
  results = results;
  world = world;
}

abbrev calls : ConnectCalls
calls = record { sock = pos 5; answer = in_progress; epoll = some 30 }

-- The reply with the number 9, the name "a" and the address 1.2.3.4.
abbrev packet : List ℕ
packet =
    0 ∷ 9 ∷ 129 ∷ 128 ∷ 0 ∷ 1 ∷ 0 ∷ 1 ∷ 0 ∷ 0 ∷ 0 ∷ 0 ∷ 1 ∷ 97 ∷ 0 ∷ 0 ∷ 1 ∷ 0 ∷ 1 ∷ 192 ∷ 12 ∷ 0
    ∷ 1 ∷ 0 ∷ 1 ∷ 0 ∷ 0 ∷ 0 ∷ 60 ∷ 0 ∷ 4 ∷ 1 ∷ 2 ∷ 3 ∷ 4 ∷ []

abbrev buffer : Stream
buffer = record { getp = 3; endp = 5; size = 64; bytes = replicate 64 7 }

-- It starts a connection where it comes from the server, and nothing where it does not.
connecting :
    (pop_udp_read 5 100 10 20 calls true true (got packet) proxy buffer >>? λ p.
    some (ok ((p.world.peers 9).tcp_client_status ∷ (p.world.peers 9).remote_hostip ∷ [])))
    ≡ some (ok (client_connect ∷ 16909060 ∷ []))
unfolding pop_udp_read memcpy get_byte splice slice dns_cache_create_size hash_create_size
    dns_cache_map_get_key
connecting = refl

stranger : pop_udp_read 5 100 10 20 calls true false (got packet) proxy buffer ≡ some (ok proxy)
unfolding pop_udp_read memcpy splice
stranger = refl

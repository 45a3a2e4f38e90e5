-- ===== src/Peer/Tests.antt =====
-- Peers 1 and 2 are paired, both connected on either side.
use poplar.Prelude.{◌+◌, ◌≡◌, refl, true, false, [], ◌∷◌, none, some, arith, ◌==◌, if◌then◌else◌}
use poplar.Prelude.Int.{pos}
use poplar.Run.{ok, fault, aborted, ◌>>=◌}
use poplar.Stream.Buffer.{Stream, stream_reset}
use poplar.Peer.{
  World, pop_peers_paired, tcp_peer_type_client, server_error, client_idle, server_established,
  client_establish,
}
use poplar.Peer.Machine.{in_progress, pop_tcp_client_event, pop_tcp_server_event}
use poplar.Peer.Teardown.{Mutual, paired-Mutual}
use poplar.Peer.WellFormed.{WellFormed}
use poplar.Peer.Events.{Ends, client_event-WellFormed, server_event-WellFormed}

abbrev four : Stream
four = record { getp = 1; endp = 3; size = 4; bytes = 1 ∷ 2 ∷ 3 ∷ 4 ∷ [] }

abbrev pair : World
pair = record {
  peers = λ n. record {
    sockfd = pos 5;
    tcp_peer_type = tcp_peer_type_client;
    tcp_client_status = client_establish;
    tcp_server_status = server_established;
    tcp_client_info_list = [];
    tcp_server_info_list = [];
    paired_peer = if n == 1 then some 2 else if n == 2 then some 1 else none;
    t_info_deal = false;
    t_event = some (n + 10);
    t_connecting_timer = false;
    t_holdtime = true;
    t_dns_wait_ack = false;
    remote_hostip = 0;
    recv_buffer = four;
    addr_res = none;
    addr_ptr = none;
  };
  closed = [];
  paired_peer_tcp_list = 1 ∷ 2 ∷ [];
}

pair-WellFormed : WellFormed pair
pair-WellFormed = record {
  paired = λ p q e. ground (arith, e);
  sound = λ p. record {
    client = (omega arith, omega arith);
    server = (omega arith, omega arith);
    buffer = omega arith;
  };
}

client_event-WellFormed_example :
    Ends (some 11) (some 11) (pop_tcp_client_event pair 1 5 (pos 6) in_progress (some 11))
client_event-WellFormed_example =
    client_event-WellFormed pair 1 5 (pos 6) in_progress (some 11) pair-WellFormed (omega arith)
      (omega arith)

server_event-WellFormed_example :
    Ends (some 11) (some 11) (pop_tcp_server_event pair 1 4 (pos 6) in_progress (some 11))
server_event-WellFormed_example =
    server_event-WellFormed pair 1 4 (pos 6) in_progress (some 11) pair-WellFormed (omega arith)
      (omega arith)

-- pop_tcp_server_event_stop is 2, the number of pop_tcp_server_event_connection_error: the peer that
-- is stopped is told of an error.
stop_as_error :
    (pop_tcp_server_event pair 1 2 (pos 6) in_progress none >>= λ u.
    ok (u.peers 1).tcp_server_info_list)
    ≡ ok (server_error ∷ [])
unfolding pop_tcp_server_event stream_reset
stop_as_error = refl

-- A hold timer that expires while a peer connects leaves its event set: the next start opens another
-- descriptor, which the event loop does not know, and EVENT_SET aborts.
abbrev idle : World
idle = record pair {
  peers = λ n. record (pair.peers n) { tcp_client_status = client_idle; t_event = none };
}

start_again :
    (pop_tcp_client_event idle 1 1 (pos 6) in_progress (some 20) >>= λ u.
    pop_tcp_client_event u 1 5 (pos 6) in_progress none >>= λ v.
    pop_tcp_client_event v 1 1 (pos 7) in_progress none)
    ≡ fault aborted
unfolding pop_tcp_client_event
start_again = refl

abbrev strangers : World
strangers = record pair { peers = λ n. record (pair.peers n) { paired_peer = none } }

strangers-Mutual : Mutual strangers
strangers-Mutual = λ p q e. cc

paired-Mutual_example :
    (((pop_peers_paired strangers 3 4).peers 3).paired_peer ≡ some 4)
    × (((pop_peers_paired strangers 3 4).peers 4).paired_peer ≡ some 3)
    × Mutual (pop_peers_paired strangers 3 4)
paired-Mutual_example = paired-Mutual strangers 3 4 strangers-Mutual refl refl

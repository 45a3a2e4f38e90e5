-- ===== src/Peer.antt =====
-- apps/pop_paired_peer.c and apps/pop_tcp_fsm.c: the peers of the proxy, their pairing and their
-- TCP state machines. A peer is an address in a heap of peers; its timers are whether they are set,
-- its event is NULL or the address of a node of the event loop, and what event_cancel does to that
-- loop is left to Event.Loop; pop_peer_new makes its two queues and its buffer, so they are never
-- NULL.
pub mod Machine
pub mod Teardown
pub mod WellFormed
pub mod Handlers
pub mod Setting
pub mod Tables
pub mod Events
pub mod Ends
pub mod Starting
mod Tests
use poplar.Prelude.{
  ℕ, zero, suc, Bool, true, false, List, [], ◌∷◌, ◌++◌, Option, none, some, ◌==◌, if◌then◌else◌,
}
use poplar.Prelude.Int.{ℤ, pos, negsuc}
use poplar.Run.{Run, ok, ◌>>=◌}
use poplar.Stream.Buffer.{Stream, stream_reset}

pub data TcpPeerType : Type 0 where
  tcp_peer_type_unknown tcp_peer_type_server tcp_peer_type_client : TcpPeerType

-- enum tcp_client_info and enum tcp_server_info of apps/pop_transaction.h
pub data ClientInfo : Type 0 where
  client_connection_success client_connection_error client_connection_break : ClientInfo

pub data ServerInfo : Type 0 where
  server_accept server_break server_error : ServerInfo

-- The fields of struct peer that the functions below read or write.
pub record Peer : Type 0 where
  pub sockfd : ℤ
  pub tcp_peer_type : TcpPeerType
  pub tcp_client_status : ℕ
  pub tcp_server_status : ℕ
  pub tcp_client_info_list : List ClientInfo
  pub tcp_server_info_list : List ServerInfo
  pub paired_peer : Option ℕ
  pub t_info_deal : Bool
  pub t_event : Option ℕ
  pub t_connecting_timer : Bool
  pub t_holdtime : Bool
  pub t_dns_wait_ack : Bool
  pub remote_hostip : ℕ
  pub recv_buffer : Stream
  pub addr_res : Option ℕ
  pub addr_ptr : Option ℕ

-- The peers, the descriptors that close() was called on, in order, and paired_peer_tcp_list.
pub record World : Type 0 where
  pub peers : ℕ → Peer
  pub closed : List ℤ
  pub paired_peer_tcp_list : List ℕ

abbrev pub client_idle : ℕ
client_idle = 1

abbrev pub client_connect : ℕ
client_connect = 2

abbrev pub client_establish : ℕ
client_establish = 3

abbrev pub server_idle : ℕ
server_idle = 1

abbrev pub server_established : ℕ
server_established = 2

-- A write to the fields of one peer.
abbrev pub modify : World → ℕ → (Peer → Peer) → World
modify w p f = record w { peers = λ q. if q == p then f (w.peers q) else w.peers q }

unfoldable pub pop_peers_paired : World → ℕ → ℕ → World
pop_peers_paired w p1 p2 =
    let w1 : World = modify w p1 (λ s. record s { paired_peer = some p2 }) in
    modify w1 p2 (λ s. record s { paired_peer = some p1 })

unfoldable pub pop_tcp_cancle_paired : World → ℕ → World
pop_tcp_cancle_paired w p =
    let w1 : World = elim (w.peers p).paired_peer [
      | none ↦ w
      | some q ↦ modify w q (λ s. record s { paired_peer = none })
    ] in
    modify w1 p (λ s. record s { paired_peer = none })

unfoldable pub pop_check_whether_msg_forward : World → ℕ → Bool
pop_check_whether_msg_forward w p = elim (w.peers p).paired_peer [
  | none ↦ false
  | some q ↦ elim (w.peers p).tcp_peer_type [
    | tcp_peer_type_unknown ↦ false
    | tcp_peer_type_client ↦ elim (w.peers q).tcp_peer_type [
      | tcp_peer_type_server ↦ (w.peers q).tcp_client_status == client_establish
      | _ ↦ false
    ]
    | tcp_peer_type_server ↦ elim (w.peers q).tcp_peer_type [
      | tcp_peer_type_client ↦ (w.peers q).tcp_server_status == server_established
      | _ ↦ false
    ]
  ]
]

-- pop_tcp_client_event_add and pop_tcp_server_event_add of apps/pop_transaction.c, on the peer
abbrev pub client_note : ClientInfo → Peer → Peer
client_note info s = record s {
  tcp_client_info_list = s.tcp_client_info_list ++ (info ∷ []);
  t_info_deal = true;
}

abbrev pub server_note : ServerInfo → Peer → Peer
server_note info s = record s {
  tcp_server_info_list = s.tcp_server_info_list ++ (info ∷ []);
  t_info_deal = true;
}

abbrev pub pop_tcp_client_event_add : World → ℕ → ClientInfo → World
pop_tcp_client_event_add w p info = modify w p (client_note info)

abbrev pub pop_tcp_server_event_add : World → ℕ → ServerInfo → World
pop_tcp_server_event_add w p info = modify w p (server_note info)

-- `sockfd` as a condition, and `sockfd > 0`.
abbrev pub nonzero : ℤ → Bool
nonzero (pos zero) = false
nonzero _ = true

abbrev pub positive : ℤ → Bool
positive (pos (suc n)) = true
positive _ = false

-- `if (test) { close (peer->sockfd); peer->sockfd = -1; }`
abbrev pub close_if : (ℤ → Bool) → World → ℕ → World
close_if test w p =
    if test (w.peers p).sockfd
    then record (modify w p (λ s. record s { sockfd = negsuc 0 })) {
      closed = w.closed ++ ((w.peers p).sockfd ∷ []);
    }
    else w

-- What the stop and error handlers of both machines do before they queue their information; they
-- differ in the test before close().
unfoldable pub teardown : (ℤ → Bool) → World → ℕ → Run World
unfolding pop_tcp_cancle_paired
teardown test w p = do
  let off : World =
      modify w p (λ s. record s { t_holdtime = false; t_connecting_timer = false; t_event = none })
  let shut : World = close_if test (pop_tcp_cancle_paired off p) p
  buffer ← stream_reset (shut.peers p).recv_buffer
  ok (
      modify shut p (λ s. record s {
        tcp_client_info_list = [];
        tcp_server_info_list = [];
        recv_buffer = buffer;
        addr_res = none;
        addr_ptr = elim s.addr_res [ none ↦ s.addr_ptr | some a ↦ none ];
      }))

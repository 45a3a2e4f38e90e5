-- ===== src/Peer/Machine.antt =====
-- apps/pop_tcp_fsm.c: the handlers, the two transition tables and the event functions. What the
-- system says to socket() and connect(), and what the event loop says to a descriptor, are arguments.
use poplar.Prelude.{
  ℕ, zero, suc, true, false, List, [], ◌∷◌, ◌++◌, Option, none, some, get_elem?, ◌==◌,
}
use poplar.Prelude.Int.{ℤ, pos, negsuc}
use poplar.Run.{Run, ok, fault, out_of_bounds, aborted, ◌>>=◌}
use poplar.Peer.{
  Peer, World, client_connection_success, client_connection_error, client_connection_break,
  server_accept, server_break, server_error, modify, pop_tcp_client_event_add,
  pop_tcp_server_event_add, nonzero, positive, close_if, teardown, client_idle, client_connect,
  client_establish, server_idle, server_established,
}

-- enum connect_result of apps/pop_socket.h
pub data ConnectResult : Type 0 where
  connect_error connect_success connect_in_progress : ConnectResult

-- What connect() does: 0, EINPROGRESS or another error.
pub data ConnectAnswer : Type 0 where
  connected in_progress refused : ConnectAnswer

-- pop_tcp_connect_unblock of apps/pop_socket.c
abbrev pub pop_tcp_connect_unblock : ConnectAnswer → ConnectResult
pop_tcp_connect_unblock connected = connect_success
pop_tcp_connect_unblock in_progress = connect_in_progress
pop_tcp_connect_unblock refused = connect_error

-- TIMER_ON and TIMER_OFF of the timer of connecting, the descriptor and the event stored, on the peer
abbrev pub awaited : Peer → Peer
awaited s = record s { t_connecting_timer = true }

abbrev pub watched : Option ℕ → Peer → Peer
watched node s = record s { t_event = node }

abbrev pub settled : Peer → Peer
settled s = record s { t_connecting_timer = false }

abbrev pub opened : ℤ → Peer → Peer
opened sock s = record s { sockfd = sock }

-- EVENT_SET on the event of a peer: `epoll` is what event_epoll_mod returns where the event is set, and
-- event_epoll_add where it is NULL. EPOLL_EVENT_MOD aborts where the node is not the one it knows.
unfoldable pub event_set : World → ℕ → Option ℕ → Run World
event_set w p epoll = elim (w.peers p).t_event [
  | none ↦ ok (modify w p (watched epoll))
  | some node ↦ elim epoll [
    | none ↦ fault aborted
    | some found ↦ elim (node == found) [
      | true ↦ ok (modify w p (watched (some found)))
      | false ↦ fault aborted
    ]
  ]
]

-- `sock` is what pop_tcp_socket returns: the descriptor, or a negative number.
unfoldable pub pop_tcp_client_connect : World → ℕ → ℤ → ConnectAnswer → ConnectResult × World
pop_tcp_client_connect w p sock answer =
    let w1 : World = modify (close_if positive w p) p (opened sock) in
    elim sock [ negsuc n ↦ (connect_error, w1) | pos n ↦ (pop_tcp_connect_unblock answer, w1) ]

-- Behind pop_tcp_client_connect.
abbrev pub started : ConnectResult × World → ℕ → Option ℕ → Run (ℤ × World)
started (connect_error, w) p epoll =
    ok (negsuc 0, pop_tcp_client_event_add (close_if positive w p) p client_connection_error)
started (_, w) p epoll = do w1 ← event_set w p epoll; ok (pos 0, modify w1 p awaited)

unfoldable pub pop_tcp_client_start : World → ℕ → ℤ → ConnectAnswer → Option ℕ → Run (ℤ × World)
unfolding pop_tcp_client_connect event_set
pop_tcp_client_start w p sock answer epoll =
    started (pop_tcp_client_connect w p sock answer) p epoll

unfoldable pub pop_tcp_client_establish : World → ℕ → Option ℕ → Run (ℤ × World)
unfolding event_set
pop_tcp_client_establish w p epoll = do
  let w1 : World = modify w p settled
  let w2 : World = record w1 { paired_peer_tcp_list = w1.paired_peer_tcp_list ++ (p ∷ []) }
  let w3 : World = pop_tcp_client_event_add w2 p client_connection_success
  w4 ← event_set w3 p epoll
  ok (pos 0, w4)

unfoldable pub pop_tcp_client_stop : World → ℕ → Run (ℤ × World)
unfolding teardown
pop_tcp_client_stop w p = do
  w1 ← teardown nonzero w p
  ok (pos 0, pop_tcp_client_event_add w1 p client_connection_break)

unfoldable pub pop_tcp_client_error : World → ℕ → Run (ℤ × World)
unfolding teardown
pop_tcp_client_error w p = do
  w1 ← teardown nonzero w p
  ok (pos 0, pop_tcp_client_event_add w1 p client_connection_error)

-- getsockname() fills in the local address, which no function here reads.
unfoldable pub pop_tcp_server_established : World → ℕ → Option ℕ → Run (ℤ × World)
unfolding event_set
pop_tcp_server_established w p epoll = do
  w1 ← event_set w p epoll
  let w2 : World = record w1 { paired_peer_tcp_list = w1.paired_peer_tcp_list ++ (p ∷ []) }
  ok (pos 0, pop_tcp_server_event_add w2 p server_accept)

unfoldable pub pop_tcp_server_error : World → ℕ → Run (ℤ × World)
unfolding teardown
pop_tcp_server_error w p = do
  w1 ← teardown positive w p
  ok (pos 0, pop_tcp_server_event_add w1 p server_error)

unfoldable pub pop_tcp_server_stop : World → ℕ → Run (ℤ × World)
unfolding teardown
pop_tcp_server_stop w p = do
  w1 ← teardown positive w p
  ok (pos 0, pop_tcp_server_event_add w1 p server_break)

pub data Handler : Type 0 where
  client_start client_stop client_ignore client_error client_established : Handler
  server_establish server_ignore server_fail server_stop : Handler

-- The function of a cell of a table, called.
unfoldable pub call : Handler → World → ℕ → ℤ → ConnectAnswer → Option ℕ → Run (ℤ × World)
unfolding pop_tcp_client_start pop_tcp_client_stop pop_tcp_client_error pop_tcp_client_establish
    pop_tcp_server_established pop_tcp_server_error pop_tcp_server_stop
call client_start w p sock answer epoll = pop_tcp_client_start w p sock answer epoll
call client_stop w p sock answer epoll = pop_tcp_client_stop w p
call client_ignore w p sock answer epoll = ok (pos 0, w)
call client_error w p sock answer epoll = pop_tcp_client_error w p
call client_established w p sock answer epoll = pop_tcp_client_establish w p epoll
call server_establish w p sock answer epoll = pop_tcp_server_established w p epoll
call server_ignore w p sock answer epoll = ok (pos 0, w)
call server_fail w p sock answer epoll = pop_tcp_server_error w p
call server_stop w p sock answer epoll = pop_tcp_server_stop w p

-- POP_TCP_CLIENT_FSM, a row for each status from 1 on and a cell for each event from 1 on
abbrev pub client_fsm : List (List (Handler × ℕ))
client_fsm =
    ((client_start, client_connect)
      ∷ (client_stop, client_idle)
      ∷ (client_ignore, client_idle)
      ∷ (client_error, client_idle)
      ∷ (client_ignore, client_idle)
      ∷ [])
    ∷ ((client_ignore, client_connect)
        ∷ (client_stop, client_idle)
        ∷ (client_established, client_establish)
        ∷ (client_error, client_idle)
        ∷ (client_ignore, client_idle)
        ∷ [])
    ∷ ((client_ignore, client_establish)
        ∷ (client_stop, client_idle)
        ∷ (client_ignore, client_establish)
        ∷ (client_error, client_idle)
        ∷ (client_stop, client_idle)
        ∷ [])
    ∷ []

-- POP_TCP_SERVER_FSM
abbrev pub server_fsm : List (List (Handler × ℕ))
server_fsm =
    ((server_establish, server_established)
      ∷ (server_ignore, server_idle)
      ∷ (server_ignore, server_idle)
      ∷ (server_ignore, server_idle)
      ∷ [])
    ∷ ((server_ignore, server_established)
        ∷ (server_fail, server_idle)
        ∷ (server_stop, server_idle)
        ∷ (server_stop, server_idle)
        ∷ [])
    ∷ []

-- `FSM[status - 1][event - 1]`
abbrev pub cell_at : List (List (Handler × ℕ)) → ℕ → ℕ → Run (Handler × ℕ)
cell_at fsm zero event = fault out_of_bounds
cell_at fsm (suc status) zero = fault out_of_bounds
cell_at fsm (suc status) (suc event) = elim (get_elem? fsm status) [
  | none ↦ fault out_of_bounds
  | some row ↦ elim (get_elem? row event) [ none ↦ fault out_of_bounds | some c ↦ ok c ]
]

-- The status is written where it differs from the next one, which comes to writing it.
unfoldable pub pop_tcp_client_event : World → ℕ → ℕ → ℤ → ConnectAnswer → Option ℕ → Run World
unfolding call
pop_tcp_client_event w p event sock answer epoll = do
  (func, next) ← cell_at client_fsm (w.peers p).tcp_client_status event
  (ret, w1) ← call func w p sock answer epoll
  elim ret [
    | negsuc n ↦ ok w1
    | pos n ↦ ok (modify w1 p (λ s. record s { tcp_client_status = next }))
  ]

unfoldable pub pop_tcp_server_event : World → ℕ → ℕ → ℤ → ConnectAnswer → Option ℕ → Run World
unfolding call
pop_tcp_server_event w p event sock answer epoll = do
  (func, next) ← cell_at server_fsm (w.peers p).tcp_server_status event
  (ret, w1) ← call func w p sock answer epoll
  elim ret [
    | negsuc n ↦ ok w1
    | pos n ↦ ok (modify w1 p (λ s. record s { tcp_server_status = next }))
  ]

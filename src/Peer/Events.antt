-- ===== src/Peer/Events.antt =====
-- The event functions of the two machines: they return and keep the invariant, and the events that
-- end a connection leave a peer that nothing points to.
use poplar.Prelude.{ℕ, ◌≤◌, ◌≡◌, ◌⊎◌, inl, inr, refl, ◌∙◌, Option, [], ◌∷◌, ◌++◌, arith}
use poplar.Prelude.Int.{ℤ, pos, negsuc}
use poplar.Run.{Run, ok, fault, aborted, ◌>>=◌}
use poplar.Peer.{
  Peer, World, ClientInfo, ServerInfo, client_connection_error, client_connection_break,
  server_error, server_break, modify, close_if, positive, nonzero, client_note, server_note,
  client_connection_success, server_accept,
}
use poplar.Peer.Machine.{
  ConnectAnswer, connect_success, started, event_set, connected, in_progress, refused, Handler,
  client_start, client_stop, client_ignore, client_error, client_established, server_establish,
  server_ignore, server_fail, server_stop, call, client_fsm, server_fsm, cell_at,
  pop_tcp_client_start, pop_tcp_client_event, pop_tcp_server_event, pop_tcp_client_stop,
  pop_tcp_client_error, pop_tcp_server_stop, pop_tcp_server_error, pop_tcp_client_establish,
  pop_tcp_server_established, pop_tcp_client_connect, watched, awaited, settled, opened,
}
use poplar.Peer.WellFormed.{
  WellFormed, modify-WellFormed, modify_kept, plain-WellFormed, close-WellFormed,
}
use poplar.Peer.Setting.{Mismatch, set_outcome, opened_event}
use poplar.Peer.Tables.{Table, cell_lem}
use poplar.Peer.Handlers.{teardown_lem}

-- A call that returns and leaves well-formed peers, or aborts because the event loop does not answer
-- the event that the peer has.
abbrev pub Keeps : Option ℕ → Option ℕ → Run (ℤ × World) → Type 0
Keeps event epoll r =
    ((ret : ℤ) × (u : World) × (r ≡ ok (ret, u)) × WellFormed u)
    ⊎ ((r ≡ fault aborted) × Mismatch event epoll)

client_note-WellFormed :
    (w : World) (p : ℕ) (info : ClientInfo)
    → WellFormed w
    → WellFormed (modify w p (client_note info))
client_note-WellFormed w p info v =
    plain-WellFormed w p (client_note info) v (λ s. refl) (λ s. refl) (λ s. refl) (λ s. refl)

server_note-WellFormed :
    (w : World) (p : ℕ) (info : ServerInfo)
    → WellFormed w
    → WellFormed (modify w p (server_note info))
server_note-WellFormed w p info v =
    plain-WellFormed w p (server_note info) v (λ s. refl) (λ s. refl) (λ s. refl) (λ s. refl)

module _ (w : World) (p : ℕ) (v : WellFormed w) (sock : ℤ) where
  tried : World
  tried = modify (close_if positive w p) p (opened sock)

  tried-WellFormed : WellFormed tried
  unfolding tried
  tried-WellFormed =
      plain-WellFormed (close_if positive w p) p (opened sock) (close-WellFormed positive w p v)
        (λ s. refl) (λ s. refl) (λ s. refl) (λ s. refl)

  failed-WellFormed :
      WellFormed (modify (close_if positive tried p) p (client_note client_connection_error))
  failed-WellFormed =
      client_note-WellFormed (close_if positive tried p) p client_connection_error
        (close-WellFormed positive tried p tried-WellFormed)

-- Behind a connect() that does not fail.
tried_ends :
    (w : World) (p n : ℕ) (epoll : Option ℕ)
    → WellFormed w
    → Keeps
        (w.peers p).t_event
        epoll
        (started (connect_success, modify (close_if positive w p) p (opened (pos n))) p epoll)
unfolding tried
tried_ends w p n epoll v =
    let t : World = modify (close_if positive w p) p (opened (pos n)) in
    elim (set_outcome w t p epoll (tried-WellFormed w p v (pos n)) (opened_event w p n)) [
      | inl (runs, v1) ↦ inl (
        pos 0,
        modify (modify t p (watched epoll)) p awaited,
        rw runs refl,
        plain-WellFormed (modify t p (watched epoll)) p awaited v1 (λ s. refl) (λ s. refl)
            (λ s. refl) (λ s. refl),
      )
      | inr (stops, m) ↦ inr (rw stops refl, m)
    ]

client_start-Keeps :
    (w : World) (p : ℕ) (sock : ℤ) (answer : ConnectAnswer) (epoll : Option ℕ)
    → WellFormed w
    → Keeps (w.peers p).t_event epoll (pop_tcp_client_start w p sock answer epoll)
unfolding pop_tcp_client_start pop_tcp_client_connect tried
client_start-Keeps w p (negsuc n) answer epoll v =
    inl (negsuc 0, _, refl, failed-WellFormed w p v (negsuc n))
client_start-Keeps w p (pos n) refused epoll v =
    inl (negsuc 0, _, refl, failed-WellFormed w p v (pos n))
client_start-Keeps w p (pos n) connected epoll v = tried_ends w p n epoll v
client_start-Keeps w p (pos n) in_progress epoll v = tried_ends w p n epoll v

client_establish-Keeps :
    (w : World) (p : ℕ) (epoll : Option ℕ)
    → WellFormed w
    → Keeps (w.peers p).t_event epoll (pop_tcp_client_establish w p epoll)
unfolding pop_tcp_client_establish
client_establish-Keeps w p epoll v =
    let w1 : World = modify w p settled in
    let v1 = plain-WellFormed w p settled v (λ s. refl) (λ s. refl) (λ s. refl) (λ s. refl) in
    let w2 : World = record w1 { paired_peer_tcp_list = w1.paired_peer_tcp_list ++ (p ∷ []) } in
    let v2 : WellFormed w2 = record { paired = v1.paired; sound = v1.sound } in
    let w3 : World = modify w2 p (client_note client_connection_success) in
    let v3 = client_note-WellFormed w2 p client_connection_success v2 in
    let same : (w3.peers p).t_event ≡ (w.peers p).t_event =
      modify_kept (λ s. s.t_event) w2 p (client_note client_connection_success) refl p
      ∙ modify_kept (λ s. s.t_event) w p settled refl p in
    elim (set_outcome w w3 p epoll v3 same) [
      | inl (runs, v4) ↦ inl (pos 0, modify w3 p (watched epoll), rw (event_set, runs) refl, v4)
      | inr (stops, m) ↦ inr (rw (event_set, stops) refl, m)
    ]

server_established-Keeps :
    (w : World) (p : ℕ) (epoll : Option ℕ)
    → WellFormed w
    → Keeps (w.peers p).t_event epoll (pop_tcp_server_established w p epoll)
unfolding pop_tcp_server_established
server_established-Keeps w p epoll v = elim (set_outcome w w p epoll v refl) [
  | inl (runs, v1) ↦
      let w1 : World = modify w p (watched epoll) in
      let w2 : World = record w1 { paired_peer_tcp_list = w1.paired_peer_tcp_list ++ (p ∷ []) } in
      let v2 : WellFormed w2 = record { paired = v1.paired; sound = v1.sound } in
      inl (
        pos 0,
        modify w2 p (server_note server_accept),
        rw (event_set, runs) refl,
        server_note-WellFormed w2 p server_accept v2,
      )
  | inr (stops, m) ↦ inr (rw (event_set, stops) refl, m)
]

call-Keeps :
    (func : Handler) (w : World) (p : ℕ) (sock : ℤ) (answer : ConnectAnswer) (epoll : Option ℕ)
    → WellFormed w
    → Keeps (w.peers p).t_event epoll (call func w p sock answer epoll)
unfolding call pop_tcp_client_stop pop_tcp_client_error pop_tcp_server_stop pop_tcp_server_error
call-Keeps client_start w p sock answer epoll v = client_start-Keeps w p sock answer epoll v
call-Keeps client_stop w p sock answer epoll v =
    let (u, runs, vu, alone, down) = teardown_lem nonzero w p v in
    inl (pos 0, _, rw runs, client_note-WellFormed u p client_connection_break vu)
call-Keeps client_ignore w p sock answer epoll v = inl (pos 0, w, refl, v)
call-Keeps client_error w p sock answer epoll v =
    let (u, runs, vu, alone, down) = teardown_lem nonzero w p v in
    inl (pos 0, _, rw runs, client_note-WellFormed u p client_connection_error vu)
call-Keeps client_established w p sock answer epoll v = client_establish-Keeps w p epoll v
call-Keeps server_establish w p sock answer epoll v = server_established-Keeps w p epoll v
call-Keeps server_ignore w p sock answer epoll v = inl (pos 0, w, refl, v)
call-Keeps server_fail w p sock answer epoll v =
    let (u, runs, vu, alone, down) = teardown_lem positive w p v in
    inl (pos 0, _, rw runs, server_note-WellFormed u p server_error vu)
call-Keeps server_stop w p sock answer epoll v =
    let (u, runs, vu, alone, down) = teardown_lem positive w p v in
    inl (pos 0, _, rw runs, server_note-WellFormed u p server_break vu)

client_fsm-Table : Table 3 5 client_fsm
client_fsm-Table = omega arith

-- A run that ends with well-formed peers, or in abort() because the peer has an event and the event
-- loop does not answer it.
abbrev pub Ends : Option ℕ → Option ℕ → Run World → Type 0
Ends event epoll r =
    ((u : World) × (r ≡ ok u) × WellFormed u) ⊎ ((r ≡ fault aborted) × Mismatch event epoll)

-- From well-formed peers, with mutual pairings, statuses of the tables and valid buffers, an event
-- of the client machine, one of 1 to 5, at any peer ends, whatever socket() and connect() answer: no
-- access falls outside the table, no assertion on the buffer fails, and the peers are well formed
-- again; or EVENT_SET aborts, and then the peer had an event and event_epoll_mod answers NULL or
-- another node.
pub client_event-WellFormed :
    (w : World) (p event : ℕ) (sock : ℤ) (answer : ConnectAnswer) (epoll : Option ℕ)
    → WellFormed w
    → 1 ≤ event
    → event ≤ 5
    → Ends (w.peers p).t_event epoll (pop_tcp_client_event w p event sock answer epoll)
unfolding pop_tcp_client_event
client_event-WellFormed w p event sock answer epoll v low high =
    let s = (v.sound p).client in
    let (c, cell, next_low, next_high) =
      cell_lem 3 5 client_fsm (w.peers p).tcp_client_status event client_fsm-Table s.0 s.1 low
        high in
    elim (call-Keeps c.0 w p sock answer epoll v) [
      | inl (ret, u, runs, vu) ↦ inl (finish c ret u cell runs vu next_low next_high)
      | inr (stops, m) ↦ inr (rw (cell, ◌>>=◌, call, stops) refl, m)
    ]
  where
    finish :
        (c : Handler × ℕ) (ret : ℤ) (u : World)
        → cell_at client_fsm (w.peers p).tcp_client_status event ≡ ok c
        → call c.0 w p sock answer epoll ≡ ok (ret, u)
        → WellFormed u
        → 1 ≤ c.1
        → c.1 ≤ 3
        → (u : World) × (pop_tcp_client_event w p event sock answer epoll ≡ ok u) × WellFormed u
    finish c (negsuc n) u cell runs vu lo hi = (u, rw (cell, ◌>>=◌, runs), vu)
    finish c (pos n) u cell runs vu lo hi =
        let f = λ (s : Peer). record s { tcp_client_status = c.1 } in
        let k = vu.sound p in
        (
          modify u p f,
          rw (cell, ◌>>=◌, runs),
          modify-WellFormed u p f vu refl
              (record { client = (lo, hi); server = k.server; buffer = k.buffer }),
        )

server_fsm-Table : Table 2 4 server_fsm
server_fsm-Table = omega arith

-- From well-formed peers an event of the server machine, one of 1 to 4, at any peer returns and the
-- peers are well formed again; or EVENT_SET aborts, and then the peer had an event and
-- event_epoll_mod answers NULL or another node.
pub server_event-WellFormed :
    (w : World) (p event : ℕ) (sock : ℤ) (answer : ConnectAnswer) (epoll : Option ℕ)
    → WellFormed w
    → 1 ≤ event
    → event ≤ 4
    → Ends (w.peers p).t_event epoll (pop_tcp_server_event w p event sock answer epoll)
unfolding pop_tcp_server_event
server_event-WellFormed w p event sock answer epoll v low high =
    let s = (v.sound p).server in
    let (c, cell, next_low, next_high) =
      cell_lem 2 4 server_fsm (w.peers p).tcp_server_status event server_fsm-Table s.0 s.1 low
        high in
    elim (call-Keeps c.0 w p sock answer epoll v) [
      | inl (ret, u, runs, vu) ↦ inl (finish c ret u cell runs vu next_low next_high)
      | inr (stops, m) ↦ inr (rw (cell, ◌>>=◌, call, stops) refl, m)
    ]
  where
    finish :
        (c : Handler × ℕ) (ret : ℤ) (u : World)
        → cell_at server_fsm (w.peers p).tcp_server_status event ≡ ok c
        → call c.0 w p sock answer epoll ≡ ok (ret, u)
        → WellFormed u
        → 1 ≤ c.1
        → c.1 ≤ 2
        → (u : World) × (pop_tcp_server_event w p event sock answer epoll ≡ ok u) × WellFormed u
    finish c (negsuc n) u cell runs vu lo hi = (u, rw (cell, ◌>>=◌, runs), vu)
    finish c (pos n) u cell runs vu lo hi =
        let f = λ (s : Peer). record s { tcp_server_status = c.1 } in
        let k = vu.sound p in
        (
          modify u p f,
          rw (cell, ◌>>=◌, runs),
          modify-WellFormed u p f vu refl
              (record { client = k.client; server = (lo, hi); buffer = k.buffer }),
        )

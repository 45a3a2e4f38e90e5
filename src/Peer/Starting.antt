-- ===== src/Peer/Starting.antt =====
-- The start of a connection to a server, for a peer of the client machine.
use poplar.Prelude.{ℕ, ◌≡◌, ◌≢◌, refl, ap, sym, subst, ◌∙◌, Option, true}
use poplar.Prelude.Int.{ℤ, pos}
use poplar.Run.{ok, ◌>>=◌}
use poplar.Peer.{Peer, World, modify, close_if, positive, client_idle, client_connect}
use poplar.Peer.Machine.{
  ConnectAnswer, connected, in_progress, refused, event_set, watched, awaited, opened, call,
  client_fsm, client_start, cell_at, pop_tcp_client_connect, pop_tcp_client_start,
  pop_tcp_client_event,
}
use poplar.Peer.Setting.{Settable, event_set_ok, opened_event}
use poplar.Peer.WellFormed.{modify_self, close_kept}

-- The peers behind a connect() that does not fail, on the descriptor `n`.
tried : World → ℕ → ℕ → World
tried w p n = modify (close_if positive w p) p (opened (pos n))

begun : World → ℕ → ℕ → Option ℕ → World
begun w p n epoll = modify (modify (tried w p n) p (watched epoll)) p awaited

next_status : Peer → Peer
next_status s = record s { tcp_client_status = client_connect }

idle_cell :
    (w : World) (p : ℕ)
    → (w.peers p).tcp_client_status ≡ client_idle
    → cell_at client_fsm (w.peers p).tcp_client_status 1 ≡ ok (client_start, client_connect)
idle_cell w p e = ap (λ (k : ℕ). cell_at client_fsm k 1) e

event_runs :
    (w : World) (p n : ℕ) (epoll : Option ℕ)
    → Settable (w.peers p).t_event epoll
    → event_set (tried w p n) p epoll ≡ ok (modify (tried w p n) p (watched epoll))
unfolding tried
event_runs w p n epoll h =
    event_set_ok (tried w p n) p epoll (subst (λ o. Settable o epoll) (sym (opened_event w p n)) h)

start_runs :
    (w : World) (p n : ℕ) (answer : ConnectAnswer) (epoll : Option ℕ)
    → answer ≢ refused
    → Settable (w.peers p).t_event epoll
    → pop_tcp_client_start w p (pos n) answer epoll ≡ ok (pos 0, begun w p n epoll)
unfolding pop_tcp_client_start pop_tcp_client_connect tried begun
start_runs w p n refused epoll ne h = absurd (ne refl)
start_runs w p n connected epoll ne h = rw (event_set, event_runs w p n epoll h) refl
start_runs w p n in_progress epoll ne h = rw (event_set, event_runs w p n epoll h) refl

-- The peer that a connection is started for: it waits for the connection on the descriptor, with its
-- event, and with the timer of connecting.
pub record IsConnecting (s : Peer) (sock : ℤ) (node : Option ℕ) : Type 0 where
  pub status : s.tcp_client_status ≡ client_connect
  pub descriptor : s.sockfd ≡ sock
  pub event : s.t_event ≡ node
  pub timer : s.t_connecting_timer ≡ true

-- The start of an idle peer, where socket() and connect() do not fail and EVENT_SET does not abort.
pub start-IsConnecting :
    (w : World) (p n : ℕ) (answer : ConnectAnswer) (epoll : Option ℕ)
    → (w.peers p).tcp_client_status ≡ client_idle
    → answer ≢ refused
    → Settable (w.peers p).t_event epoll
    → (u : World) × (pop_tcp_client_event w p 1 (pos n) answer epoll ≡ ok u)
      × IsConnecting (u.peers p) (pos n) epoll
      × ((u.peers p).remote_hostip ≡ (w.peers p).remote_hostip)
      × ((u.peers p).t_dns_wait_ack ≡ (w.peers p).t_dns_wait_ack)
unfolding pop_tcp_client_event call begun tried next_status
start-IsConnecting w p n answer epoll idle ne h =
    let r = begun w p n epoll in
    let set : World = modify (tried w p n) p (watched epoll) in
    let at : (modify r p next_status).peers p
        ≡ next_status (awaited (watched epoll (opened (pos n) ((close_if positive w p).peers p)))) =
      modify_self r p next_status
      ∙ ap next_status (
          modify_self set p awaited
          ∙ ap awaited (
              modify_self (tried w p n) p (watched epoll)
              ∙ ap (watched epoll) (modify_self (close_if positive w p) p (opened (pos n))))) in
    (
      modify r p next_status,
      rw (idle_cell w p idle, ◌>>=◌, pop_tcp_client_start, start_runs w p n answer epoll ne h) refl,
      record {
        status = ap (λ s. s.tcp_client_status) at;
        descriptor = ap (λ s. s.sockfd) at;
        event = ap (λ s. s.t_event) at;
        timer = ap (λ s. s.t_connecting_timer) at;
      },
      ap (λ s. s.remote_hostip) at ∙ close_kept (λ s. s.remote_hostip) positive w p p (λ s. refl),
      ap (λ s. s.t_dns_wait_ack) at ∙ close_kept (λ s. s.t_dns_wait_ack) positive w p p (λ s. refl),
    )

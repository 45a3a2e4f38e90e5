-- ===== src/Peer/Setting.antt =====
-- EVENT_SET of apps/popd.h on the event of a peer: it stores the node, or it aborts.
use poplar.Prelude.{
  ℕ, ◌≡◌, ◌≢◌, ◌⊎◌, inl, inr, refl, ap, sym, subst, ◌∙◌, true, false, Option, none, some, arith,
  ◌==◌, ==-refl, eq_cases,
}
use poplar.Prelude.Int.{pos}
use poplar.Run.{Run, ok, fault, aborted}
use poplar.Peer.{World, modify, close_if, positive}
use poplar.Peer.Machine.{event_set, watched, opened}
use poplar.Peer.WellFormed.{WellFormed, modify_kept, plain-WellFormed, close_kept}

-- The event loop knows the event of a peer, where it has one, by the node that it answers.
abbrev pub Settable : Option ℕ → Option ℕ → Type 0
Settable none epoll = Unit
Settable (some node) epoll = epoll ≡ some node

-- The peer has an event, and the event loop answers NULL or another node.
abbrev pub Mismatch : Option ℕ → Option ℕ → Type 0
Mismatch event epoll = (node : ℕ) × (event ≡ some node) × (epoll ≢ some node)

some_inj : {a b : ℕ} → some a ≡ some b → a ≡ b
some_inj {a} e = ap (λ o. elim o [ none ↦ a | some x ↦ x ]) e

pub set_cases : (event epoll : Option ℕ) → Settable event epoll ⊎ Mismatch event epoll
set_cases none epoll = inl tt
set_cases (some a) none = inr (a, refl, λ e. cc)
set_cases (some a) (some b) = elim (eq_cases b a) [
  | inl e ↦ inl (ap some e)
  | inr ne ↦ inr (a, refl, λ e. ne (some_inj e))
]

set_at : World → ℕ → Option ℕ → Option ℕ → Run World
set_at w p epoll event = elim event [
  | none ↦ ok (modify w p (watched epoll))
  | some node ↦ elim epoll [
    | none ↦ fault aborted
    | some found ↦ elim (node == found) [
      | true ↦ ok (modify w p (watched (some found)))
      | false ↦ fault aborted
    ]
  ]
]

set_at_ok :
    (w : World) (p : ℕ) (epoll event : Option ℕ)
    → Settable event epoll
    → set_at w p epoll event ≡ ok (modify w p (watched epoll))
unfolding set_at
set_at_ok w p epoll none h = refl
set_at_ok w p none (some a) h = cc
set_at_ok w p (some b) (some a) h =
    let e : (a == b) ≡ true = ap (λ (k : ℕ). a == k) (some_inj h) ∙ ==-refl a in rw (e, set_at) refl

set_at_aborts :
    (w : World) (p : ℕ) (epoll event : Option ℕ)
    → Mismatch event epoll
    → set_at w p epoll event ≡ fault aborted
unfolding set_at
set_at_aborts w p epoll none (a, e, ne) = cc
set_at_aborts w p none (some c) (a, e, ne) = refl
set_at_aborts w p (some b) (some c) (a, e, ne) =
    let other : (c == b) ≡ false = ground (arith, λ (s : b ≡ c). ne (ap some s ∙ e)) in
    rw (other, set_at) refl

pub event_set_ok :
    (w : World) (p : ℕ) (epoll : Option ℕ)
    → Settable (w.peers p).t_event epoll
    → event_set w p epoll ≡ ok (modify w p (watched epoll))
unfolding event_set set_at
event_set_ok w p epoll h = set_at_ok w p epoll (w.peers p).t_event h

pub event_set_aborts :
    (w : World) (p : ℕ) (epoll : Option ℕ)
    → Mismatch (w.peers p).t_event epoll
    → event_set w p epoll ≡ fault aborted
unfolding event_set set_at
event_set_aborts w p epoll h = set_at_aborts w p epoll (w.peers p).t_event h

-- A world in which the peer has the event that it has in `w`: EVENT_SET returns well-formed peers, or
-- it aborts because of the event of the peer in `w`.
pub set_outcome :
    (w u : World) (p : ℕ) (epoll : Option ℕ)
    → WellFormed u
    → (u.peers p).t_event ≡ (w.peers p).t_event
    → ((event_set u p epoll ≡ ok (modify u p (watched epoll)))
        × WellFormed (modify u p (watched epoll)))
      ⊎ ((event_set u p epoll ≡ fault aborted) × Mismatch (w.peers p).t_event epoll)
set_outcome w u p epoll v e = elim (set_cases (w.peers p).t_event epoll) [
  | inl h ↦ inl (
    event_set_ok u p epoll (subst (λ o. Settable o epoll) (sym e) h),
    plain-WellFormed u p (watched epoll) v (λ s. refl) (λ s. refl) (λ s. refl) (λ s. refl),
  )
  | inr h ↦ inr (event_set_aborts u p epoll (subst (λ o. Mismatch o epoll) (sym e) h), h)
]

-- The peer behind the call of connect() has the event that it had.
pub opened_event :
    (w : World) (p n : ℕ)
    → ((modify (close_if positive w p) p (opened (pos n))).peers p).t_event ≡ (w.peers p).t_event
opened_event w p n =
    modify_kept (λ s. s.t_event) (close_if positive w p) p (opened (pos n)) refl p
    ∙ close_kept (λ s. s.t_event) positive w p p (λ s. refl)

-- ===== src/Event/Cancel.antt =====
-- event_cancel puts a node of any list with the unused ones.
use poplar.Prelude.{
  ℕ, ◌+◌, ◌^◌, ◌<◌, ◌≡◌, refl, sym, ap, subst, ◌∙◌, Bool, true, false, List, [], ◌∷◌, ◌++◌, arith,
  length, ◌==◌, if◌then◌else◌,
}
use poplar.Run.{Run, ok, Returns}
use poplar.Event.Lists.{event_list_delete}
use poplar.Event.Master.{
  Master, assign, event_type_unused, event_type_timer, event_type_rear, event_type_event,
  event_type_ready,
}
use poplar.Event.Loop.{
  event_cancel, retire, cancel_timer, cancel_rear, cancel_ready, cancel_event, reset_if, is_node,
}
use poplar.Event.WellFormed.{
  WellFormed, Detached, armed-Detached, assign-Detached, reset_keeps, unuse-WellFormed,
}
use poplar.Event.Detached.{Kind_at, timer-Detached, rear-Detached, ready-Detached}

reset_if-Detached :
    (ts rs us ys : List ℕ) (v : ℕ) (set test : Bool) (m : Master)
    → Detached ts rs us ys v m
    → Detached ts rs us ys v (reset_if set test m)
reset_if-Detached ts rs us ys v set true m d =
    reset_keeps (Detached ts rs us ys v) m d (λ a. armed-Detached ts rs us ys v m a d) set
reset_if-Detached ts rs us ys v set false m d = d

retire-WellFormed :
    (ts rs us ys : List ℕ) (v : ℕ) (m : Master)
    → Detached ts rs us ys v m
    → length us + 1 < 2 ^ 32
    → Returns (retire m v) (WellFormed ts rs (us ++ v ∷ []) ys)
retire-WellFormed ts rs us ys v m d small =
    unuse-WellFormed ts rs us ys v (record m { kind = assign m.kind v event_type_unused })
      (assign-Detached ts rs us ys v event_type_unused m d) (ground arith) small

-- The branch that event_cancel takes, on the type of the node.
abbrev branch : Bool → Master → ℕ → ℕ → Run Master
branch set m v k =
    if k == event_type_timer
    then retire (cancel_timer set m v) v
    else if k == event_type_rear
    then retire (cancel_rear set m v) v
    else if k == event_type_event
    then cancel_event m v
    else if k == event_type_ready
    then retire (cancel_ready set m v) v
    else ok m

on_branch : (set : Bool) (m : Master) (v : ℕ) → event_cancel set m v ≡ branch set m v (m.kind v)
unfolding event_cancel
on_branch set m v = refl

-- The list that a node is cancelled on.
pub data Place : Type 0 where
  on_timer on_rear on_ready : Place

-- `xs` where the node is, `os` elsewhere.
abbrev pub timers_of : Place → List ℕ → List ℕ → List ℕ
timers_of on_timer xs os = xs
timers_of on_rear xs os = os
timers_of on_ready xs os = os

abbrev pub rears_of : Place → List ℕ → List ℕ → List ℕ
rears_of on_timer xs os = os
rears_of on_rear xs os = xs
rears_of on_ready xs os = os

abbrev pub readies_of : Place → List ℕ → List ℕ → List ℕ
readies_of on_timer xs os = os
readies_of on_rear xs os = os
readies_of on_ready xs os = xs

-- In a well-formed master, a node on the list of timers, of rear timers or of ready nodes, which is
-- shorter than 2 ^ 32, and fewer than 2 ^ 32 - 1 unused nodes: event_cancel returns, none of its assertions fails, the node is last among the
-- unused ones, the others of its list keep their order, the other lists are as they were, and the
-- master is well-formed. This holds whether or not timerfd_settime succeeds.
pub cancel-WellFormed :
    (place : Place) (set : Bool) (xs zs ts rs us ys : List ℕ) (v : ℕ) (m : Master)
    → WellFormed
        (timers_of place (xs ++ v ∷ zs) ts)
        (rears_of place (xs ++ v ∷ zs) rs)
        us
        (readies_of place (xs ++ v ∷ zs) ys)
        m
    → length (xs ++ v ∷ zs) < 2 ^ 32
    → length us + 1 < 2 ^ 32
    → Returns (event_cancel set m v) (
        WellFormed
          (timers_of place (xs ++ zs) ts)
          (rears_of place (xs ++ zs) rs)
          (us ++ v ∷ [])
          (readies_of place (xs ++ zs) ys))
cancel-WellFormed on_timer set xs zs ts rs us ys v m w small room =
    let k = Kind_at m.kind event_type_timer v xs zs w.timers in
    let d = timer-Detached xs zs rs us ys v m w small in
    let r =
      reset_if-Detached (xs ++ zs) rs us ys v set (is_node m.armed v)
        (record m {
          links = (event_list_delete m.links m.timer v).0;
          timer = (event_list_delete m.links m.timer v).1;
        })
        d in
    subst (λ c. Returns c (WellFormed (xs ++ zs) rs (us ++ v ∷ []) ys))
      (sym (on_branch set m v ∙ ap (branch set m v) k))
      (retire-WellFormed (xs ++ zs) rs us ys v (cancel_timer set m v) r room)
cancel-WellFormed on_rear set xs zs ts rs us ys v m w small room =
    let k = Kind_at m.kind event_type_rear v xs zs w.rears in
    let d = rear-Detached xs zs ts us ys v m w small in
    let r =
      reset_if-Detached ts (xs ++ zs) us ys v set (is_node m.armed v)
        (record m {
          links = (event_list_delete m.links m.rear v).0;
          rear = (event_list_delete m.links m.rear v).1;
        })
        d in
    subst (λ c. Returns c (WellFormed ts (xs ++ zs) (us ++ v ∷ []) ys))
      (sym (on_branch set m v ∙ ap (branch set m v) k))
      (retire-WellFormed ts (xs ++ zs) us ys v (cancel_rear set m v) r room)
cancel-WellFormed on_ready set xs zs ts rs us ys v m w small room =
    let k = Kind_at m.kind event_type_ready v xs zs w.readies in
    let d = ready-Detached xs zs ts rs us v m w small in
    let r =
      reset_if-Detached ts rs us (xs ++ zs) v set (is_node m.armed v)
        (record m {
          links = (event_list_delete m.links m.ready v).0;
          ready = (event_list_delete m.links m.ready v).1;
        })
        d in
    subst (λ c. Returns c (WellFormed ts rs (us ++ v ∷ []) (xs ++ zs)))
      (sym (on_branch set m v ∙ ap (branch set m v) k))
      (retire-WellFormed ts rs us (xs ++ zs) v (cancel_ready set m v) r room)

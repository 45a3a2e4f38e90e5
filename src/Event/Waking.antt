-- ===== src/Event/Waking.antt =====
-- An expired timer is what event_waiting_process returns.
use poplar.Prelude.{
  ℕ, suc, ◌+◌, ◌^◌, ◌<◌, ◌≡◌, refl, sym, ap, subst, ◌∙◌, Bool, true, false, List, [], ◌∷◌, ◌++◌,
  Option, none, some, arith, length, if◌then◌else◌,
}
use poplar.Run.{Run, ok, fault, Returns, Returns-map, Completes, ◌>>=◌}
use poplar.Links.Relink.{Holds-ends}
use poplar.Event.Timespec.{Timespec, earlier}
use poplar.Event.Lists.{event_list_delete}
use poplar.Event.Master.{
  Master, assign, event_timer_reset, event_type_unused, event_type_timer, event_type_rear,
}
use poplar.Event.Loop.{
  Wait, woken, Fetched, copy_of, event_timer_process, process_from, take_event, take_events,
  is_timer, run_branch, woken_up, waiting, run_ready, run_or, event_run, event_waiting_process,
  expire,
}
use poplar.Event.WellFormed.{
  WellFormed, assign-Detached, armed-WellFormed, reset_keeps, unuse-WellFormed,
}
use poplar.Event.Detached.{ready-Detached}
use poplar.Event.Expiry.{one_step, expire-WellFormed}

woken_lem :
    (fuel : ℕ) (set : Bool) (m timed taken done : Master) (es : List (ℕ × ℕ)) (now : Timespec)
    (n k : ℕ)
    → event_timer_process fuel event_type_timer now m ≡ some (n, timed)
    → take_events timed es ≡ ok taken
    → event_timer_process fuel event_type_rear now taken ≡ some (k, done)
    → woken_up fuel set m es now ≡ some (ok (event_timer_reset set done))
unfolding woken_up
woken_lem fuel set m timed taken done es now n k e f g = rw (woken_up, e, f, g) refl

-- The node of the timer's own descriptor is passed over.
passed_over :
    (m : Master) (e happened : ℕ) → m.fd e ≡ m.timerfd → take_events m ((e, happened) ∷ []) ≡ ok m
unfolding take_events
passed_over m e happened h =
    let skip : is_timer m e ≡ true = ground (arith, h) in
    ap (λ b. if b then ok m else take_event m e happened >>= λ r. ok r) skip

no_rear :
    (fuel : ℕ) (now : Timespec) (m : Master)
    → m.rear.head ≡ none
    → event_timer_process fuel event_type_rear now m ≡ some (0, m)
unfolding event_timer_process process_from
no_rear fuel now m h = ap (λ p. process_from fuel event_type_rear now m p 0) h

-- What is returned of a node, and the lists then.
pub record Ran (t : ℕ) (ts rs us ys : List ℕ) (m : Master) (r : Option Fetched × Master)
    : Type 0 where
  pub fetch : Fetched
  pub fetched : r.0 ≡ some fetch
  pub func : fetch.func ≡ m.func t
  pub arg : fetch.arg ≡ m.arg t
  pub lists : WellFormed ts rs us ys r.1

returned :
    (c : Run Master) (P : Master → Type 0) (Q : Option Fetched × Master → Type 0) (f : Fetched)
    → Returns c P
    → ((r : Master) → P r → Q (some f, r))
    → Returns {A = Option Fetched × Master}
        (◌>>=◌ {A = Fetched × Master} (c >>= λ r. ok (f, r)) (λ x. ok (some x.0, x.1)))
        Q
returned (ok r) P Q f p g = g r p
returned (fault e) P Q f p g = elim p [ ]

-- A ready timer, run.
ran :
    (y : ℕ) (ts rs us ys : List ℕ) (m : Master)
    → WellFormed ts rs us (y ∷ ys) m
    → m.add_type y ≡ event_type_timer
    → length (y ∷ ys) < 2 ^ 32
    → length us + 1 < 2 ^ 32
    → Returns (run_ready m y) (Ran y ts rs (us ++ y ∷ []) ys m)
unfolding event_run
ran y ts rs us ys m w k small room =
    let gone = record m {
      links = (event_list_delete m.links m.ready y).0;
      ready = (event_list_delete m.links m.ready y).1;
    } in
    let d = ready-Detached [] ys ts rs us y m w small in
    let put_back =
      unuse-WellFormed ts rs us ys y (record gone { kind = assign m.kind y event_type_unused })
        (assign-Detached ts rs us ys y event_type_unused gone d) (ground arith) room in
    returned (run_branch gone y (m.add_type y)) (WellFormed ts rs (us ++ y ∷ []) ys)
      (Ran y ts rs (us ++ y ∷ []) ys m) (copy_of gone y)
      (subst (λ c. Returns (run_branch gone y c) (WellFormed ts rs (us ++ y ∷ []) ys)) (sym k)
        put_back)
      (λ r lists. record {
        fetch = copy_of gone y;
        fetched = refl;
        func = refl;
        arg = refl;
        lists = lists;
      })

-- What is known of the master that the loop goes on with.
record Going (t : ℕ) (ts us : List ℕ) (m r : Master) : Type 0 where
  lists : WellFormed ts [] us (t ∷ []) r
  func : r.func t ≡ m.func t
  arg : r.arg t ≡ m.arg t
  add_type : r.add_type t ≡ m.add_type t

waited :
    (fuel : ℕ) (set : Bool) (e happened : ℕ) (now : Timespec) (answers : List (Wait × Bool))
    (m r : Master) (t : ℕ)
    → woken_up fuel set m ((e, happened) ∷ []) now ≡ some (ok r)
    → r.ready.head ≡ some t
    → m.ready.head ≡ none
    → event_waiting_process fuel ((woken ((e, happened) ∷ []) (some now), set) ∷ answers) m
      ≡ some (run_ready r t)
unfolding event_waiting_process waiting
waited fuel set e happened now answers m r t up first none_ready =
    let es = (e, happened) ∷ [] in
    let all = (woken es (some now), set) ∷ answers in
    let rest = waiting fuel answers r in
    let turn : waiting fuel all m ≡ run_or r r.ready.head rest = rw (waiting, up) refl in
    ap (λ o. run_or m o (waiting fuel all m)) none_ready ∙ turn ∙ ap (λ o. run_or r o rest) first

-- A well-formed master with no rear timer and no ready node, whose first timer `t` was added as one,
-- with fewer than 2 ^ 32 timers and 2 ^ 32 - 1 unused nodes: when epoll_wait reports the descriptor of the timer
-- at an instant that is not before the time of `t`, event_waiting_process returns `t`, with its
-- handler and its argument, and `t` is last among the unused nodes. It does so in that iteration,
-- whatever comes later, and whether or not timerfd_settime succeeds.
pub waiting_returns :
    (fuel t e happened : ℕ) (set : Bool) (ts us : List ℕ) (now : Timespec)
    (answers : List (Wait × Bool)) (m : Master)
    → WellFormed (t ∷ ts) [] us [] m
    → m.add_type t ≡ event_type_timer
    → m.fd e ≡ m.timerfd
    → earlier now (m.time t) ≡ false
    → length (t ∷ ts) < 2 ^ 32
    → length us + 1 < 2 ^ 32
    → Completes
        (event_waiting_process
          (suc fuel)
          ((woken ((e, happened) ∷ []) (some now), set) ∷ answers)
          m)
        (λ c. Returns c (Ran t ts [] (us ++ t ∷ []) [] m))
waiting_returns fuel t e happened set ts us now answers m w k h late small room =
    let moved = expire event_type_timer m t in
    let es = (e, happened) ∷ [] in
    let w' = expire-WellFormed t ts [] us [] m w small (omega arith) in
    let step =
      one_step fuel t ts [] us [] now m w small
      ∙ ap (λ b. if b then some (0, m) else some (1, moved)) late in
    let up =
      woken_lem (suc fuel) set m moved moved moved es now 1 0 step (passed_over moved e happened h)
        (no_rear (suc fuel) now moved (Holds-ends moved.links moved.rear [] w'.rear).0) in
    let g =
      reset_keeps (Going t ts us m) moved
        (record { lists = w'; func = refl; arg = refl; add_type = refl })
        (λ a. record {
          lists = armed-WellFormed ts [] us (t ∷ []) moved a w';
          func = refl;
          arg = refl;
          add_type = refl;
        })
        set in
    let r = event_timer_reset set moved in
    let turned =
      waited (suc fuel) set e happened now answers m r t up
        (Holds-ends r.links r.ready (t ∷ []) g.lists.ready).0
        (Holds-ends m.links m.ready [] w.ready).0 in
    let it = ran t ts [] us [] r g.lists (g.add_type ∙ k) (omega arith) room in
    subst (λ o. Completes o (λ c. Returns c (Ran t ts [] (us ++ t ∷ []) [] m))) (sym turned)
      (Returns-map (run_ready r t) it (λ x y. record {
        fetch = y.fetch;
        fetched = y.fetched;
        func = y.func ∙ g.func;
        arg = y.arg ∙ g.arg;
        lists = y.lists;
      }))

-- ===== src/Event/Loop.antt =====
-- eventsCtl/event_ctl.c: cancellation, expired timers, epoll events and the loop that waits. What
-- epoll_ctl and epoll_wait answer is an argument.
use poplar.Prelude.{
  ℕ, zero, suc, ◌+◌, ◌%◌, ◌^◌, Bool, false, ◌||◌, List, [], ◌∷◌, Option, none, some, ◌==◌,
  if◌then◌else◌,
}
use poplar.Run.{Run, ok, fault, ◌>>=◌}
use poplar.Hash.{hash_get, hash_release}
use poplar.Event.Timespec.{Timespec, earlier}
use poplar.Event.Lists.{event_list_add, event_list_delete, event_list_trim_head}
use poplar.Event.Master.{
  Master, assign, event_hash, event_timer_reset, event_list_add_unuse, list_of, with_list,
  event_type_unused, event_type_timer, event_type_rear, event_type_event, event_type_ready,
}

-- `p == q`, of a pointer that may be NULL and one that is not
abbrev pub is_node : Option ℕ → ℕ → Bool
is_node none n = false
is_node (some p) n = p == n

abbrev pub reset_if : Bool → Bool → Master → Master
reset_if set test m = if test then event_timer_reset set m else m

-- The cases of event_cancel that take the node out of a list.
abbrev pub cancel_timer : Bool → Master → ℕ → Master
cancel_timer set m event =
    let (h, l) = event_list_delete m.links m.timer event in
    reset_if set (is_node m.armed event) (record m { links = h; timer = l })

abbrev pub cancel_rear : Bool → Master → ℕ → Master
cancel_rear set m event =
    let (h, l) = event_list_delete m.links m.rear event in
    reset_if set (is_node m.armed event) (record m { links = h; rear = l })

abbrev pub cancel_ready : Bool → Master → ℕ → Master
cancel_ready set m event =
    let (h, l) = event_list_delete m.links m.ready event in
    reset_if set (is_node m.armed event) (record m { links = h; ready = l })

-- The end of event_cancel.
abbrev pub retire : Master → ℕ → Run Master
retire m event =
    event_list_add_unuse (record m { kind = assign m.kind event event_type_unused }) event

abbrev pub cancel_event : Master → ℕ → Run Master
cancel_event m event = do
  (ret, table) ← hash_release (event_hash m) event
  retire (record m { hash = table }) event

-- What epoll_ctl answers when a descriptor is deleted does not matter to the master.
unfoldable pub event_cancel : Bool → Master → ℕ → Run Master
unfolding event_list_delete event_timer_reset event_list_add_unuse
event_cancel set m event =
    if m.kind event == event_type_timer
    then retire (cancel_timer set m event) event
    else if m.kind event == event_type_rear
    then retire (cancel_rear set m event) event
    else if m.kind event == event_type_event
    then cancel_event m event
    else if m.kind event == event_type_ready
    then retire (cancel_ready set m event) event
    else ok m

-- What an iteration of event_timer_process does with an expired timer.
abbrev pub expire : ℕ → Master → ℕ → Master
expire kind m timer =
    let (h, l) = event_list_delete m.links (list_of m kind) timer in
    let typed = with_list (record m { kind = assign m.kind timer event_type_ready }) kind (h, l) in
    let (g, r) = event_list_add h m.ready timer in record typed { links = g; ready = r }

-- The loop of event_timer_process, which goes on from the field `next` that the timer has by then.
unfoldable pub process_from : ℕ → ℕ → Timespec → Master → Option ℕ → ℕ → Option (ℕ × Master)
unfolding event_list_delete event_list_add
process_from fuel kind timenow m none ready = some (ready, m)
process_from zero kind timenow m (some timer) ready = none
process_from (suc fuel) kind timenow m (some timer) ready =
    let moved = expire kind m timer in
    let rest =
      process_from fuel kind timenow moved (moved.links.next timer) ((ready + 1) % 2 ^ 32) in
    if earlier timenow (m.time timer) then some (ready, m) else rest

-- With the type of the list's nodes in place of the list.
unfoldable pub event_timer_process : ℕ → ℕ → Timespec → Master → Option (ℕ × Master)
unfolding process_from
event_timer_process fuel kind timenow m = process_from fuel kind timenow m (list_of m kind).head 0

-- `*fetch = *ev`
pub record Fetched : Type 0 where
  pub kind : ℕ
  pub add_type : ℕ
  pub func : ℕ
  pub events : ℕ
  pub arg : ℕ
  pub fd : ℕ
  pub listen_event : ℕ
  pub time : Timespec

abbrev pub copy_of : Master → ℕ → Fetched
copy_of m ev = record {
  kind = m.kind ev;
  add_type = m.add_type ev;
  func = m.func ev;
  events = m.events ev;
  arg = m.arg ev;
  fd = m.fd ev;
  listen_event = m.listen_event ev;
  time = m.time ev;
}

unfoldable pub event_ref : ℕ → Option ℕ
event_ref node = some node

-- The two branches of event_run.
abbrev pub rerun : Master → ℕ → Run Master
rerun m ev = do
  (found, table) ← hash_get (event_hash m) ev (some event_ref)
  ok (record m { hash = table })

abbrev pub run_branch : Master → ℕ → ℕ → Run Master
run_branch m ev add_type =
    if add_type == event_type_event
    then rerun (record m { kind = assign m.kind ev event_type_event }) ev
    else event_list_add_unuse (record m { kind = assign m.kind ev event_type_unused }) ev

unfoldable pub event_run : Master → ℕ → Run (Fetched × Master)
unfolding event_list_add_unuse event_ref
event_run m ev = do r ← run_branch m ev (m.add_type ev); ok (copy_of m ev, r)

-- What epoll_wait answers: an error, or the nodes and their events; and what the clock says then.
pub data Wait : Type 0 where
  failed : Wait
  woken : List (ℕ × ℕ) → Option Timespec → Wait

-- What that loop does with a node that is not a timer.
abbrev pub take_event : Master → ℕ → ℕ → Run Master
take_event m ev happened = do
  let noted = record m { events = assign m.events ev happened }
  (ret, table) ← hash_release (event_hash noted) ev
  let (h, l) = event_list_add m.links m.ready ev
  ok (record noted { hash = table; kind = assign m.kind ev event_type_ready; links = h; ready = l })

-- The nodes that the loop passes over.
abbrev pub is_timer : Master → ℕ → Bool
is_timer m ev =
    (m.kind ev == event_type_timer) || (m.kind ev == event_type_rear) || (m.fd ev == m.timerfd)

-- The loop of event_waiting_process over what epoll_wait returned.
unfoldable pub take_events : Master → List (ℕ × ℕ) → Run Master
unfolding event_list_add
take_events m [] = ok m
take_events m ((ev, happened) ∷ rest) =
    if is_timer m ev
    then take_events m rest
    else take_event m ev happened >>= λ r. take_events r rest

-- An iteration of event_waiting_process, its test for ready nodes aside: with whether
-- timerfd_settime succeeds; `none` in the result is the return of NULL.
unfoldable pub woken_up : ℕ → Bool → Master → List (ℕ × ℕ) → Timespec → Option (Run Master)
unfolding event_timer_process take_events event_timer_reset
woken_up fuel set m happened now = elim (event_timer_process fuel event_type_timer now m) [
  | none ↦ none
  | some (n, timed) ↦ elim (take_events timed happened) [
    | fault e ↦ some (fault e)
    | ok taken ↦ elim (event_timer_process fuel event_type_rear now taken) [
      | none ↦ none
      | some (k, done) ↦ some (ok (event_timer_reset set done))
    ]
  ]
]

-- `return event_run (m, ev, fetch)` for the first of the ready nodes
abbrev pub run_ready : Master → ℕ → Run (Option Fetched × Master)
run_ready m ev = do
  let (h, l) = event_list_delete m.links m.ready ev
  (fetch, r) ← event_run (record m { links = h; ready = l }) ev
  ok (some fetch, r)

-- The first ready node is run, or the loop goes on.
abbrev pub run_or :
    Master
    → Option ℕ
    → Option (Run (Option Fetched × Master))
    → Option (Run (Option Fetched × Master))
run_or m (some ev) rest = some (run_ready m ev)
run_or m none rest = rest

-- From epoll_wait on, with no node ready.
unfoldable pub waiting : ℕ → List (Wait × Bool) → Master → Option (Run (Option Fetched × Master))
unfolding event_run woken_up event_timer_reset event_list_delete
waiting fuel [] m = none
waiting fuel ((failed, set) ∷ answers) m = waiting fuel answers m
waiting fuel ((woken [] now, set) ∷ answers) m =
    let reset = event_timer_reset set m in
    let rest = waiting fuel answers reset in run_or reset reset.ready.head rest
waiting fuel ((woken (e ∷ es) none, set) ∷ answers) m = some (ok (none, m))
waiting fuel ((woken (e ∷ es) (some now), set) ∷ answers) m =
    elim (woken_up fuel set m (e ∷ es) now) [
      | none ↦ none
      | some (fault f) ↦ some (fault f)
      | some (ok r) ↦ run_or r r.ready.head (waiting fuel answers r)
    ]

-- The loop of event_waiting_process over what epoll_wait and timerfd_settime answer, one answer an
-- iteration. `none` is no answer left, or no fuel; NULL is returned where there is no time.
unfoldable pub event_waiting_process :
    ℕ → List (Wait × Bool) → Master → Option (Run (Option Fetched × Master))
unfolding event_list_trim_head event_run woken_up event_timer_reset
event_waiting_process fuel answers m = run_or m m.ready.head (waiting fuel answers m)

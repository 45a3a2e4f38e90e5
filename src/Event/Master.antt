-- ===== src/Event/Master.antt =====
-- eventsCtl/event_ctl.c and eventsCtl/event_ctl.h: the master, its nodes and its timers. Nodes are
-- addresses, and each field of all of them is a function; a handler and its argument are numbers.
-- What clock_gettime and timerfd_settime answer is an argument, and so is the node that calloc
-- returns. Loops are on fuel, and `none` as a result is no fuel left.
use poplar.Prelude.{
  ℕ, zero, suc, ◌+◌, ◌%◌, ◌^◌, Bool, true, false, ◌&&◌, ◌||◌, Option, none, some, ◌==◌,
  if◌then◌else◌,
}
use poplar.Prelude.Int.{ℤ, pos, negsuc, ◌+ℤ◌, quot, rem, times}
use poplar.Run.{Run, ok, fault, assert, assert_failed, ◌>>◌}
use poplar.Hash.{Hash}
use poplar.Links.{Links, Ends, put}
use poplar.Links.Walk.{find_from}
use poplar.Event.Timespec.{Timespec, timespec_cmp, timespec_adjust, earlier}
use poplar.Event.Lists.{event_list_add, event_list_add_before, event_list_delete}

abbrev pub event_type_unused : ℕ
event_type_unused = 1

abbrev pub event_type_timer : ℕ
event_type_timer = 2

abbrev pub event_type_rear : ℕ
event_type_rear = 3

abbrev pub event_type_event : ℕ
event_type_event = 4

abbrev pub event_type_immediate : ℕ
event_type_immediate = 5

abbrev pub event_type_ready : ℕ
event_type_ready = 6

-- `p->field = v`
abbrev pub assign {ℓ} : {A : Type ℓ} → (ℕ → A) → ℕ → A → ℕ → A
assign f p v q = if q == p then v else f q

-- struct event_master, with the fields of its nodes; `kind` is the field `type`, and `armed` the
-- field `event` of event_timer.
pub record Master : Type 0 where
  pub links : Links
  pub kind : ℕ → ℕ
  pub add_type : ℕ → ℕ
  pub func : ℕ → ℕ
  pub events : ℕ → ℕ
  pub arg : ℕ → ℕ
  pub fd : ℕ → ℕ
  pub listen_event : ℕ → ℕ
  pub time : ℕ → Timespec
  pub timer : Ends
  pub rear : Ends
  pub unuse : Ends
  pub ready : Ends
  pub armed : Option ℕ
  pub timerfd : ℕ
  pub events_alloc : ℕ
  pub hash : Hash ℕ

-- The table as its functions see it, which read the nodes when they are called.
abbrev pub event_hash : Master → Hash ℕ
event_hash m = record m.hash {
  hash_key = m.fd;
  hash_cmp = λ a b. (m.fd a == m.fd b) && (m.kind a == m.kind b);
}

-- `n > 0`
abbrev pub is_positive : ℤ → Bool
is_positive (pos zero) = false
is_positive (pos (suc n)) = true
is_positive (negsuc n) = false

unfoldable pub event_timer_get : Master → Option ℕ
event_timer_get m = elim m.rear.head [
  | none ↦ m.timer.head
  | some first_rear ↦ elim m.timer.head [
    | none ↦ some first_rear
    | some first_timer ↦
        if is_positive (timespec_cmp (m.time first_rear) (m.time first_timer))
        then some first_timer
        else some first_rear
  ]
]

-- The results of these two are used nowhere; `set` is whether timerfd_settime succeeds.
unfoldable pub event_timer_set : Bool → Master → ℕ → Master
event_timer_set set m node = if set then record m { armed = some node } else m

unfoldable pub event_timer_cancel : Bool → Master → Master
event_timer_cancel set m = elim m.armed [
  | none ↦ m
  | some a ↦ if set then record m { armed = none } else m
]

unfoldable pub event_timer_reset : Bool → Master → Master
unfolding event_timer_get event_timer_set event_timer_cancel
event_timer_reset set m = elim (event_timer_get m) [
  | some node ↦ event_timer_set set m node
  | none ↦ event_timer_cancel set m
]

-- The fields of a node that calloc returned.
abbrev pub cleared : Master → ℕ → Master
cleared m n = record m {
  links = record { next = put m.links.next n none; prev = put m.links.prev n none };
  fd = assign m.fd n 0;
  events = assign m.events n 0;
  listen_event = assign m.listen_event n 0;
  time = assign m.time n (record { tv_sec = pos 0; tv_nsec = pos 0 });
  events_alloc = (m.events_alloc + 1) % 2 ^ 64;
}

-- What event_node_get writes in the node.
abbrev pub described : Master → ℕ → ℕ → ℕ → ℕ → Master
described m event kind func arg = record m {
  kind = assign m.kind event kind;
  add_type = assign m.add_type event kind;
  func = assign m.func event func;
  arg = assign m.arg event arg;
}

-- The node that event_node_get takes or makes, by the head of the unused ones: the test for an empty
-- list is the one that event_list_trim_head makes.
abbrev pub got_node : Master → ℕ → ℕ → ℕ → ℕ → Option ℕ → ℕ × Master
got_node m kind func arg fresh none = (fresh, described (cleared m fresh) fresh kind func arg)
got_node m kind func arg fresh (some e) =
    let (h, l) = event_list_delete m.links m.unuse e in
    (e, described (record m { links = h; unuse = l }) e kind func arg)

unfoldable pub event_node_get : Master → ℕ → ℕ → ℕ → ℕ → ℕ × Master
unfolding event_list_delete
event_node_get m kind func arg fresh = got_node m kind func arg fresh m.unuse.head

-- `p == NULL`
abbrev pub is_null : Option ℕ → Bool
is_null none = true
is_null (some p) = false

unfoldable pub event_list_add_unuse : Master → ℕ → Run Master
unfolding event_list_add
event_list_add_unuse m event = do
  assert (is_null (m.links.prev event))
  assert (is_null (m.links.next event))
  assert (m.kind event == event_type_unused)
  let (h, l) = event_list_add m.links m.unuse event
  ok (record m { links = h; unuse = l })

-- `((type == EVENT_TYPE_TIMER) ? &m->timer : &m->rear)`, read and written.
abbrev pub list_of : Master → ℕ → Ends
list_of m kind = if kind == event_type_timer then m.timer else m.rear

abbrev pub with_list : Master → ℕ → Links × Ends → Master
with_list m kind (h, l) = record m {
  links = h;
  timer = if kind == event_type_timer then l else m.timer;
  rear = if kind == event_type_timer then m.rear else l;
}

-- The end of event_timer_add_itimerspec.
unfoldable pub arm : Bool → Master → ℕ → Master
unfolding event_timer_set
arm set m ev = elim m.armed [
  | none ↦ event_timer_set set m ev
  | some a ↦
      if is_positive (timespec_cmp (m.time a) (m.time ev)) then event_timer_set set m ev else m
]

-- What event_timer_add_itimerspec does after its loop, by where that stopped.
abbrev pub placed : Bool → Master → ℕ → ℕ → Option (Option ℕ) → Option Master
placed set m kind ev none = none
placed set m kind ev (some (some next)) =
    some (arm set (with_list m kind (event_list_add_before m.links (list_of m kind) next ev)) ev)
placed set m kind ev (some none) =
    some (arm set (with_list m kind (event_list_add m.links (list_of m kind) ev)) ev)

-- From the loop on.
unfoldable pub insert_timer : ℕ → Bool → Master → ℕ → ℕ → Option Master
unfolding event_list_add event_list_add_before arm
insert_timer fuel set m kind ev =
    placed set m kind ev
      (find_from fuel m.links.next (λ t. earlier (m.time ev) (m.time t)) (list_of m kind).head)

-- What event_timer_add_itimerspec does with the node that it got.
abbrev pub timer_got : ℕ → Bool → ℕ → Timespec → ℕ × Master → Option (Run (ℕ × Master))
timer_got fuel set kind ts (ev, got) =
    elim (insert_timer fuel set (record got { time = assign got.time ev ts }) kind ev) [
      | none ↦ none
      | some r ↦ some (ok (ev, r))
    ]

unfoldable pub event_timer_add_itimerspec :
    ℕ → Bool → Master → ℕ → ℕ → ℕ → Timespec → ℕ → Option (Run (ℕ × Master))
unfolding event_node_get insert_timer
event_timer_add_itimerspec fuel set m func kind arg ts fresh =
    if (kind == event_type_timer) || (kind == event_type_rear)
    then timer_got fuel set kind ts (event_node_get m kind func arg fresh)
    else some (fault assert_failed)

-- What event_timer_add and event_rear_add have in common, and those in milliseconds; NULL is
-- returned where there is no time.
abbrev add_at :
    ℕ → Bool → Master → ℕ → ℕ → ℕ → Option Timespec → ℕ → Option (Run (Option ℕ × Master))
add_at fuel set m func kind arg none fresh = some (ok (none, m))
add_at fuel set m func kind arg (some at) fresh = elim (timespec_adjust fuel at) [
  | none ↦ none
  | some ts ↦ elim (event_timer_add_itimerspec fuel set m func kind arg ts fresh) [
    | none ↦ none
    | some (fault e) ↦ some (fault e)
    | some (ok (ev, r)) ↦ some (ok (some ev, r))
  ]
]

abbrev in_seconds : Option Timespec → ℤ → Option Timespec
in_seconds none time = none
in_seconds (some now) time = some (record { tv_sec = now.tv_sec +ℤ time; tv_nsec = now.tv_nsec })

abbrev in_msec : Option Timespec → ℤ → Option Timespec
in_msec none time = none
in_msec (some now) time = some (record {
  tv_sec = now.tv_sec +ℤ quot time 1000;
  tv_nsec = now.tv_nsec +ℤ times (rem time 1000) 1000000;
})

module _ (fuel : ℕ) (set : Bool) (m : Master) (func arg : ℕ) (now : Option Timespec)
    (fresh : ℕ) where
  unfoldable pub event_timer_add : ℤ → Option (Run (Option ℕ × Master))
  event_timer_add time = add_at fuel set m func event_type_timer arg (in_seconds now time) fresh

  unfoldable pub event_timer_add_msec : ℤ → Option (Run (Option ℕ × Master))
  event_timer_add_msec time = add_at fuel set m func event_type_timer arg (in_msec now time) fresh

  unfoldable pub event_rear_add : ℤ → Option (Run (Option ℕ × Master))
  event_rear_add time = add_at fuel set m func event_type_rear arg (in_seconds now time) fresh

  unfoldable pub event_rear_add_msec : ℤ → Option (Run (Option ℕ × Master))
  event_rear_add_msec time = add_at fuel set m func event_type_rear arg (in_msec now time) fresh

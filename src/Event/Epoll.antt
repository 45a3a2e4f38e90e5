-- ===== src/Event/Epoll.antt =====
-- eventsCtl/event_ctl.c: descriptors that are watched, and the end of a master. `ctl` is whether
-- epoll_ctl succeeds.
use poplar.Prelude.{
  ℕ, zero, ◌+◌, ◌-◌, ◌%◌, ◌^◌, Bool, true, false, List, [], ◌∷◌, ◌++◌, Option, none, some,
  if◌then◌else◌,
}
use poplar.Prelude.Int.{pos}
use poplar.Run.{Run, ok, fault, ◌>>=◌}
use poplar.Hash.{hash_create_size, hash_get, hash_lookup, hash_clean}
use poplar.Links.{Ends}
use poplar.Event.Lists.{event_list_lookup, event_list_free}
use poplar.Event.Master.{
  Master, assign, event_hash, event_node_get, event_type_event, event_type_ready,
}
use poplar.Event.Loop.{event_ref}

abbrev empty : Ends
empty = record { head = none; tail = none; count = 0 }

-- What event_epoll_add and event_epoll_reset do after epoll_ctl.
abbrev put_in_table : Bool → Master → ℕ → Run (Option ℕ × Master)
put_in_table false m node = ok (none, m)
put_in_table true m node = do
  (found, table) ← hash_get (event_hash m) node (some event_ref)
  ok (some node, record m { hash = table })

unfoldable pub event_epoll_add : Bool → Master → ℕ → ℕ → ℕ → ℕ → ℕ → Run (Option ℕ × Master)
unfolding event_node_get event_ref
event_epoll_add ctl m func arg ep_events fd fresh =
    let (node, got) = event_node_get m event_type_event func arg fresh in
    put_in_table ctl
      (record got {
        listen_event = assign got.listen_event node ep_events;
        fd = assign got.fd node fd;
      })
      node

-- A master as calloc returns it, with its table of EVENT_HASH_TABLE_SIZE chains and its timer's
-- descriptor.
abbrev blank : ℕ → Master
blank timerfd =
    let none_at : ℕ → Option ℕ = λ p. none in
    let zero_at : ℕ → ℕ = λ p. zero in
    record {
      links = record { next = none_at; prev = none_at };
      kind = zero_at;
      add_type = zero_at;
      func = zero_at;
      events = zero_at;
      arg = zero_at;
      fd = zero_at;
      listen_event = zero_at;
      time = λ p. record { tv_sec = pos 0; tv_nsec = pos 0 };
      timer = empty;
      rear = empty;
      unuse = empty;
      ready = empty;
      armed = none;
      timerfd = timerfd;
      events_alloc = 0;
      hash = hash_create_size 2048 zero_at (λ a b. false);
    }

-- The functions of the table are put in when it is used. EPOLLIN|EPOLLET is 1 + 2 ^ 31.
unfoldable pub event_master_create : Bool → ℕ → ℕ → Run Master
unfolding event_epoll_add
event_master_create ctl timerfd fresh =
    event_epoll_add ctl (blank timerfd) 0 0 (1 + 2 ^ 31) timerfd fresh >>= λ r. ok r.1

unfoldable pub event_epoll_reset : Bool → Master → ℕ → Run (Option ℕ × Master)
unfolding event_ref
event_epoll_reset ctl m node =
    put_in_table ctl (record m { kind = assign m.kind node event_type_event }) node

-- The node on the stack that the lookups compare with is at an address of its own.
abbrev sought : Master → ℕ → ℕ → ℕ → Master
sought m tmp fd kind = record m { fd = assign m.fd tmp fd; kind = assign m.kind tmp kind }

unfoldable pub event_epoll_lookup_by_fd : ℕ → Master → ℕ → ℕ → Option (Run (Option ℕ))
unfolding event_list_lookup
event_epoll_lookup_by_fd fuel m fd tmp =
    elim (hash_lookup (event_hash (sought m tmp fd event_type_event)) tmp) [
      | fault e ↦ some (fault e)
      | ok (some node) ↦ some (ok (some node))
      | ok none ↦
          let t = sought m tmp fd event_type_ready in
          elim (event_list_lookup fuel t.links t.fd t.kind t.ready tmp) [
            | none ↦ none
            | some node ↦ some (ok node)
          ]
    ]

-- What event_epoll_mod does with what it found.
abbrev modified : Bool → Master → ℕ → ℕ → ℕ → Option ℕ → Option ℕ × Master
modified ctl m func arg ep_events none = (none, m)
modified ctl m func arg ep_events (some node) =
    let written = record m {
      listen_event = assign m.listen_event node ep_events;
      func = assign m.func node func;
      arg = assign m.arg node arg;
    } in
    (if ctl then some node else none, written)

unfoldable pub event_epoll_mod :
    ℕ → Bool → Master → ℕ → ℕ → ℕ → ℕ → ℕ → Option (Run (Option ℕ × Master))
unfolding event_epoll_lookup_by_fd
event_epoll_mod fuel ctl m func arg ep_events fd tmp =
    elim (event_epoll_lookup_by_fd fuel m fd tmp) [
      | none ↦ none
      | some (fault e) ↦ some (fault e)
      | some (ok found) ↦ some (ok (modified ctl m func arg ep_events found))
    ]

-- `m->events_alloc--` for each of the nodes
abbrev pub alloc_left : ℕ → List ℕ → ℕ
alloc_left alloc [] = alloc
alloc_left alloc (n ∷ ns) = alloc_left ((alloc + 2 ^ 64 - 1) % 2 ^ 64) ns

-- The nodes freed, in order, and the number of nodes that is left.
unfoldable pub event_master_destroy : ℕ → Master → Option (List ℕ × ℕ)
unfolding event_list_free
event_master_destroy fuel m =
    let (hashed, h) = hash_clean m.hash in
    elim (event_list_free fuel m.links m.rear.head m.rear.count) [
      | none ↦ none
      | some (rears, k) ↦ elim (event_list_free fuel m.links m.unuse.head m.unuse.count) [
        | none ↦ none
        | some (unused, l) ↦ elim (event_list_free fuel m.links m.timer.head m.timer.count) [
          | none ↦ none
          | some (timers, n) ↦
              let freed = hashed ++ (rears ++ (unused ++ timers)) in
              some (freed, alloc_left m.events_alloc freed)
        ]
      ]
    ]

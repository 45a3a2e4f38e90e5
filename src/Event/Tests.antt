-- ===== src/Event/Tests.antt =====
-- A master with timers at 10 and 20 seconds, the nodes 1 and 2, and the unused node 3. The number of
-- a node is its descriptor, and 9 is that of the timer.
use poplar.Prelude.{ℕ, ◌+◌, ◌≡◌, refl, true, [], ◌∷◌, none, some, arith, ◌==◌, if◌then◌else◌}
use poplar.Prelude.Int.{pos}
use poplar.Run.{Returns, Completes}
use poplar.Hash.{hash_create_size, hash_get}
use poplar.Prelude.Distinct.{Distinct}
use poplar.Links.Apart.{Apart}
use poplar.Event.Timespec.{Timespec, timespec_cmp}
use poplar.Event.Master.{Master, event_timer_add_itimerspec, event_type_timer}
use poplar.Event.Loop.{woken, event_cancel, event_timer_process, event_waiting_process}
use poplar.Event.WellFormed.{WellFormed}
use poplar.Event.Cancel.{on_timer, cancel-WellFormed}
use poplar.Event.Expiry.{process_one}
use poplar.Event.Insertion.{AddedTimer, add_itimerspec_lem}
use poplar.Event.Epoll.{event_master_create, event_master_destroy}
use poplar.Event.Destroy.{destroy_lem}
use poplar.Event.Waking.{Ran, waiting_returns}

abbrev at_second : ℕ → Timespec
at_second n = record { tv_sec = pos n; tv_nsec = pos 0 }

abbrev master : Master
master = record {
  links = record {
    next = λ p. if p == 1 then some 2 else none;
    prev = λ p. if p == 2 then some 1 else none;
  };
  kind = λ p. if p == 3 then 1 else 2;
  add_type = λ p. 2;
  func = λ p. p + 100;
  events = λ p. 0;
  arg = λ p. p + 200;
  fd = λ p. p;
  listen_event = λ p. 0;
  time = λ p. if p == 1 then at_second 10 else at_second 20;
  timer = record { head = some 1; tail = some 2; count = 2 };
  rear = record { head = none; tail = none; count = 0 };
  unuse = record { head = some 3; tail = some 3; count = 1 };
  ready = record { head = none; tail = none; count = 0 };
  armed = some 1;
  timerfd = 9;
  events_alloc = 3;
  hash = hash_create_size 4 (λ p. p) (λ p q. p == q);
}

master-WellFormed : WellFormed (1 ∷ 2 ∷ []) [] (3 ∷ []) [] master
master-WellFormed = record {
  timer = record {
    linked = (refl, refl, (refl, refl, (refl, refl)));
    distinct = ((omega arith, tt), (tt, tt));
    count = refl;
  };
  rear = record { linked = (refl, refl); distinct = tt; count = refl };
  unuse = record { linked = (refl, refl, (refl, refl)); distinct = (tt, tt); count = refl };
  ready = record { linked = (refl, refl); distinct = tt; count = refl };
  timers = (refl, (refl, tt));
  rears = tt;
  unused = (refl, tt);
  readies = tt;
}

cancel-WellFormed_example :
    Returns (event_cancel true master 1) (WellFormed (2 ∷ []) [] (3 ∷ 1 ∷ []) [])
cancel-WellFormed_example =
    cancel-WellFormed on_timer true [] (2 ∷ []) [] [] (3 ∷ []) [] 1 master master-WellFormed
      (omega arith) (omega arith)

process_one_example :
    Completes
      (event_timer_process 1 event_type_timer (at_second 30) master)
      (λ r. (r.0 ≡ 1) × WellFormed (2 ∷ []) [] (3 ∷ []) (1 ∷ []) r.1)
unfolding timespec_cmp
process_one_example =
    process_one 0 1 (2 ∷ []) [] (3 ∷ []) [] (at_second 30) master master-WellFormed (omega arith)
      (omega arith)

add_itimerspec_lem_example :
    Completes (event_timer_add_itimerspec 2 true master 7 event_type_timer 8 (at_second 15) 4) (λ c.
      Returns c
        (AddedTimer 3 (1 ∷ 2 ∷ []) [] [] [] (at_second 15) (at_second 10 ∷ at_second 20 ∷ [])))
unfolding timespec_cmp
add_itimerspec_lem_example =
    add_itimerspec_lem 2 true (1 ∷ 2 ∷ []) [] (3 ∷ []) [] 7 8 4 (at_second 15) master
      master-WellFormed (refl, tt) (omega arith, (omega arith, (omega arith, tt))) (omega arith)
      (omega arith) (omega arith)

waiting_returns_example :
    Completes
      (event_waiting_process 1 ((woken ((9, 1) ∷ []) (some (at_second 12)), true) ∷ []) master)
      (λ c. Returns c (Ran 1 (2 ∷ []) [] (3 ∷ 1 ∷ []) [] master))
unfolding timespec_cmp
waiting_returns_example =
    waiting_returns 0 1 9 1 true (2 ∷ []) (3 ∷ []) (at_second 12) [] master master-WellFormed refl
      refl refl (omega arith) (omega arith)

-- The same with the node 4 ready and the node 5 in the table.
abbrev busy : Master
busy = record master {
  kind = λ p. if p == 3 then 1 else if p == 4 then 6 else if p == 5 then 4 else 2;
  ready = record { head = some 4; tail = some 4; count = 1 };
  events_alloc = 5;
  hash = record {
    index = [] ∷ (record { key = 5; value = 5 } ∷ []) ∷ [] ∷ [] ∷ [];
    size = 4;
    hash_key = λ p. p;
    hash_cmp = λ p q. p == q;
    count = 1;
  };
}

busy-WellFormed : WellFormed (1 ∷ 2 ∷ []) [] (3 ∷ []) (4 ∷ []) busy
busy-WellFormed = record {
  timer = record {
    linked = (refl, refl, (refl, refl, (refl, refl)));
    distinct = ((omega arith, tt), (tt, tt));
    count = refl;
  };
  rear = record { linked = (refl, refl); distinct = tt; count = refl };
  unuse = record { linked = (refl, refl, (refl, refl)); distinct = (tt, tt); count = refl };
  ready = record { linked = (refl, refl, (refl, refl)); distinct = (tt, tt); count = refl };
  timers = (refl, (refl, tt));
  rears = tt;
  unused = (refl, tt);
  readies = (refl, tt);
}

destroy_lem_example :
    (event_master_destroy 2 busy ≡ some (5 ∷ 3 ∷ 1 ∷ 2 ∷ [], 1))
    × Distinct (5 ∷ 3 ∷ 1 ∷ 2 ∷ [])
    × Apart (4 ∷ []) (5 ∷ 3 ∷ 1 ∷ 2 ∷ [])
destroy_lem_example =
    destroy_lem 2 (1 ∷ 2 ∷ []) [] (3 ∷ []) (4 ∷ []) busy busy-WellFormed (refl, tt) (tt, tt)
      (omega arith) (omega arith) (omega arith) (omega arith) (omega arith)

-- The descriptor of the timer is in the table from the start.
created_watches :
    Returns
      (event_master_create true 5 77)
      (λ m. (m.events_alloc ≡ 1) × (m.fd 77 ≡ 5) × (m.hash.count ≡ 1))
unfolding event_master_create hash_get hash_create_size
created_watches = (refl, refl, refl)

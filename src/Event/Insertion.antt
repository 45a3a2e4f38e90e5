-- ===== src/Event/Insertion.antt =====
-- event_timer_add_itimerspec puts a timer at its place.
use poplar.Prelude.{
  ℕ, ◌+◌, ◌^◌, ◌<◌, ◌≤◌, ◌≡◌, refl, sym, ap, ap₂, subst, ◌∙◌, Bool, List, [], ◌∷◌, map, ◌++◌,
  Option, none, some, arith, length,
}
use poplar.Prelude.Int.{pos}
use poplar.Run.{Run, ok, Returns, Completes}
use poplar.Prelude.Distinct.{Absent, Absent-split}
use poplar.Links.{Ends, Holds}
use poplar.Links.Segment.{put-Same}
use poplar.Links.Relink.{Holds-ends}
use poplar.Links.Unlink.{Holds-frame}
use poplar.Links.Walk.{insert_by, Sorted, insert_by-Sorted}
use poplar.Event.Timespec.{Timespec, earlier, earlier_asym}
use poplar.Event.Lists.{event_list_delete}
use poplar.Event.Master.{
  Master, assign, event_node_get, insert_timer, event_timer_add_itimerspec, timer_got, described,
  cleared, got_node, event_type_timer,
}
use poplar.Event.WellFormed.{WellFormed, Detached, assign-Detached}
use poplar.Event.Detached.{unuse-Detached}
use poplar.Event.Placing.{Timed, same-map, insert_lem}

-- The node that event_node_get returns: the first unused one, or one from calloc.
abbrev timed : Master → ℕ → ℕ → ℕ → ℕ → Timespec → Master
timed m v kind func arg ts =
    let g = described m v kind func arg in record g { time = assign g.time v ts }

timed-Detached :
    (ts rs us ys : List ℕ) (v kind func arg : ℕ) (at : Timespec) (m : Master)
    → Detached ts rs us ys v m
    → Detached ts rs us ys v (timed m v kind func arg at)
timed-Detached ts rs us ys v kind func arg at m d =
    let a = assign-Detached ts rs us ys v kind m d in
    record {
      rest = record {
        timer = a.rest.timer;
        rear = a.rest.rear;
        unuse = a.rest.unuse;
        ready = a.rest.ready;
        timers = a.rest.timers;
        rears = a.rest.rears;
        unused = a.rest.unused;
        readies = a.rest.readies;
      };
      next = a.next;
      prev = a.prev;
      off_timer = a.off_timer;
      off_rear = a.off_rear;
      off_unuse = a.off_unuse;
      off_ready = a.off_ready;
    }

-- What is returned, and the lists, after a timer for `at` was added.
pub record AddedTimer (v : ℕ) (ts rs us ys : List ℕ) (at : Timespec) (old : List Timespec)
    (r : ℕ × Master) : Type 0 where
  pub node : r.0 ≡ v
  pub timers : List ℕ
  pub lists : WellFormed timers rs us ys r.1
  pub times : map r.1.time timers ≡ insert_by earlier at old
  pub sorted : Sorted earlier (map r.1.time timers)

through :
    (o : Option Master) (P : Master → Type 0) (Q : ℕ × Master → Type 0) (v : ℕ)
    → Completes o P
    → ((r : Master) → P r → Q (v, r))
    → Completes {A = Run (ℕ × Master)}
        (elim o [ none ↦ none | some r ↦ some (ok (v, r)) ])
        (λ c. Returns c Q)
through (some r) P Q v p f = f r p
through none P Q v p f = elim p [ ]

finish :
    (fuel : ℕ) (set : Bool) (ts rs us ys : List ℕ) (v func arg : ℕ) (at : Timespec)
    (old : List Timespec) (m : Master)
    → Detached ts rs us ys v m
    → map m.time ts ≡ old
    → Sorted earlier old
    → length ts + 1 < 2 ^ 32
    → length ts ≤ fuel
    → Completes
        (timer_got fuel set event_type_timer at (v, described m v event_type_timer func arg))
        (λ c. Returns c (AddedTimer v ts rs us ys at old))
finish fuel set ts rs us ys v func arg at old m d same sorted small enough =
    let g = timed m v event_type_timer func arg at in
    let here : g.time v ≡ at = ground arith in
    let old_times = same-map m.time g.time v at ts (λ a. refl) d.off_timer ∙ same in
    through (insert_timer fuel set g event_type_timer v)
      (λ r. (ts' : List ℕ) × Timed ts' rs us ys (insert_by earlier (g.time v) (map g.time ts)) r)
      (AddedTimer v ts rs us ys at old) v
      (insert_lem fuel set ts rs us ys v g
        (timed-Detached ts rs us ys v event_type_timer func arg at m d) (ground arith) small enough)
      (λ r t.
        let times = t.1.times ∙ ap₂ (insert_by earlier) here old_times in
        record {
          node = refl;
          timers = t.0;
          lists = t.1.lists;
          times = times;
          sorted =
              subst (Sorted earlier) (sym times)
                (insert_by-Sorted earlier at old earlier_asym sorted);
        })

-- The node that event_node_get takes, and the unused ones that it leaves.
abbrev pub taken : List ℕ → ℕ → ℕ
taken [] fresh = fresh
taken (u ∷ us) fresh = u

abbrev pub left : List ℕ → List ℕ
left [] = []
left (u ∷ us) = us

fresh-Detached :
    (ts rs us ys : List ℕ) (v : ℕ) (m : Master)
    → WellFormed ts rs us ys m
    → Absent v (ts ++ (rs ++ (us ++ ys)))
    → Detached ts rs us ys v (cleared m v)
fresh-Detached ts rs us ys v m w off =
    let (off_t, off_1) = Absent-split v ts (rs ++ (us ++ ys)) off in
    let (off_r, off_2) = Absent-split v rs (us ++ ys) off_1 in
    let (off_u, off_y) = Absent-split v us ys off_2 in
    let still : (l : Ends) (os : List ℕ)
        → Holds m.links l os
        → Absent v os
        → Holds (cleared m v).links l os =
      λ l os k a.
        Holds-frame m.links (cleared m v).links l os k (put-Same m.links.next v none os a)
          (put-Same m.links.prev v none os a) in
    record {
      rest = record {
        timer = still m.timer ts w.timer off_t;
        rear = still m.rear rs w.rear off_r;
        unuse = still m.unuse us w.unuse off_u;
        ready = still m.ready ys w.ready off_y;
        timers = w.timers;
        rears = w.rears;
        unused = w.unused;
        readies = w.readies;
      };
      next = ground arith;
      prev = ground arith;
      off_timer = off_t;
      off_rear = off_r;
      off_unuse = off_u;
      off_ready = off_y;
    }

node_of_none :
    (m : Master) (kind func arg fresh : ℕ)
    → m.unuse.head ≡ none
    → event_node_get m kind func arg fresh
      ≡ (fresh, described (cleared m fresh) fresh kind func arg)
unfolding event_node_get
node_of_none m kind func arg fresh e = ap (got_node m kind func arg fresh) e

node_of_some :
    (m : Master) (kind func arg fresh u : ℕ)
    → m.unuse.head ≡ some u
    → event_node_get m kind func arg fresh ≡ (
      u,
      described
          (record m {
            links = (event_list_delete m.links m.unuse u).0;
            unuse = (event_list_delete m.links m.unuse u).1;
          })
          u
          kind
          func
          arg,
    )
unfolding event_node_get
node_of_some m kind func arg fresh u e = ap (got_node m kind func arg fresh) e

-- A well-formed master whose timers are sorted by time, with fewer than 2 ^ 32 - 1 timers and 2 ^ 32
-- unused nodes, and an address that calloc may return, on none of the lists:
-- event_timer_add_itimerspec for a timer ends, with fuel for every timer, and returns the first
-- unused node, or the new one where there is none. The instants of the timers are then the old ones
-- with the new one before the first that it is earlier than, sorted, and the master is well-formed,
-- whether or not timerfd_settime succeeds.
pub add_itimerspec_lem :
    (fuel : ℕ) (set : Bool) (ts rs us ys : List ℕ) (func arg fresh : ℕ) (at : Timespec) (m : Master)
    → WellFormed ts rs us ys m
    → Sorted earlier (map m.time ts)
    → Absent fresh (ts ++ (rs ++ (us ++ ys)))
    → length ts + 1 < 2 ^ 32
    → length us < 2 ^ 32
    → length ts ≤ fuel
    → Completes
        (event_timer_add_itimerspec fuel set m func event_type_timer arg at fresh)
        (λ c. Returns c (AddedTimer (taken us fresh) ts rs (left us) ys at (map m.time ts)))
unfolding event_timer_add_itimerspec event_node_get
add_itimerspec_lem fuel set ts rs [] ys func arg fresh at m w sorted off small room enough =
    let got =
      node_of_none m event_type_timer func arg fresh (Holds-ends m.links m.unuse [] w.unuse).0 in
    let d = fresh-Detached ts rs [] ys fresh m w off in
    let (off_t, off_1) = Absent-split fresh ts (rs ++ ys) off in
    subst
      (λ g.
        Completes (timer_got fuel set event_type_timer at g)
          (λ c. Returns c (AddedTimer fresh ts rs [] ys at (map m.time ts))))
      (sym got)
      (finish fuel set ts rs [] ys fresh func arg at (map m.time ts) (cleared m fresh) d
        (same-map m.time (cleared m fresh).time fresh (record { tv_sec = pos 0; tv_nsec = pos 0 })
          ts (λ a. refl) off_t)
        sorted small enough)
add_itimerspec_lem fuel set ts rs (u ∷ us) ys func arg fresh at m w sorted off small room enough =
    let got =
      node_of_some m event_type_timer func arg fresh u
        (Holds-ends m.links m.unuse (u ∷ us) w.unuse).0 in
    let gone = record m {
      links = (event_list_delete m.links m.unuse u).0;
      unuse = (event_list_delete m.links m.unuse u).1;
    } in
    subst
      (λ g.
        Completes (timer_got fuel set event_type_timer at g)
          (λ c. Returns c (AddedTimer u ts rs us ys at (map m.time ts))))
      (sym got)
      (finish fuel set ts rs us ys u func arg at (map m.time ts) gone
        (unuse-Detached [] us ts rs ys u m w room) refl sorted small enough)

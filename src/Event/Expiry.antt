-- ===== src/Event/Expiry.antt =====
-- event_timer_process moves one timer.
use poplar.Prelude.{
  ℕ, suc, ◌+◌, ◌^◌, ◌<◌, ◌≡◌, refl, sym, ap, subst, ◌∙◌, Bool, true, false, List, [], ◌∷◌, ◌++◌,
  none, some, arith, length, if◌then◌else◌,
}
use poplar.Run.{Completes}
use poplar.Prelude.Distinct.{Absent}
use poplar.Links.{Links, Ends, Holds, link}
use poplar.Links.Relink.{Holds-ends}
use poplar.Event.Timespec.{Timespec, earlier}
use poplar.Event.Relinked.{add-Added}
use poplar.Event.Lists.{event_list_add, event_list_delete}
use poplar.Event.Master.{Master, assign, event_type_timer, event_type_ready}
use poplar.Event.Loop.{event_timer_process, process_from, expire}
use poplar.Event.WellFormed.{WellFormed, assign-Detached, ready-WellFormed}
use poplar.Event.Detached.{timer-Detached}

-- A node that event_list_add has put at the end has no successor.
add_last :
    (h : Links) (l : Ends) (xs : List ℕ) (v : ℕ)
    → Holds h l xs
    → Absent v xs
    → (event_list_add h l v).0.next v ≡ none
unfolding link
add_last h l xs v k a = (add-Added h l xs v k a).next v ∙ ground arith

pub expire-WellFormed :
    (t : ℕ) (ts rs us ys : List ℕ) (m : Master)
    → WellFormed (t ∷ ts) rs us ys m
    → length (t ∷ ts) < 2 ^ 32
    → length ys + 1 < 2 ^ 32
    → WellFormed ts rs us (ys ++ t ∷ []) (expire event_type_timer m t)
expire-WellFormed t ts rs us ys m w small room =
    let gone = record m {
      links = (event_list_delete m.links m.timer t).0;
      timer = (event_list_delete m.links m.timer t).1;
    } in
    let d = timer-Detached [] ts rs us ys t m w small in
    ready-WellFormed ts rs us ys t (record gone { kind = assign m.kind t event_type_ready })
      (assign-Detached ts rs us ys t event_type_ready gone d) (ground arith) room

-- So the loop ends after the timer that it has moved.
moved_last :
    (t : ℕ) (ts rs us ys : List ℕ) (m : Master)
    → WellFormed (t ∷ ts) rs us ys m
    → length (t ∷ ts) < 2 ^ 32
    → (expire event_type_timer m t).links.next t ≡ none
moved_last t ts rs us ys m w small =
    let d = timer-Detached [] ts rs us ys t m w small in
    add_last (event_list_delete m.links m.timer t).0 m.ready ys t d.rest.ready d.off_ready

pub one_step :
    (fuel t : ℕ) (ts rs us ys : List ℕ) (now : Timespec) (m : Master)
    → WellFormed (t ∷ ts) rs us ys m
    → length (t ∷ ts) < 2 ^ 32
    → event_timer_process (suc fuel) event_type_timer now m
      ≡ (if earlier now (m.time t) then some (0, m) else some (1, expire event_type_timer m t))
unfolding event_timer_process process_from
one_step fuel t ts rs us ys now m w small =
    let moved = expire event_type_timer m t in
    ap (λ p. process_from (suc fuel) event_type_timer now m p 0)
      (Holds-ends m.links m.timer (t ∷ ts) w.timer).0
    ∙ ap
        (λ p.
          if earlier now (m.time t)
          then some (0, m)
          else process_from fuel event_type_timer now moved p 1)
        (moved_last t ts rs us ys m w small)

either_way :
    (early : Bool) (t : ℕ) (ts rs us ys : List ℕ) (m moved : Master)
    → WellFormed (t ∷ ts) rs us ys m
    → WellFormed ts rs us (ys ++ t ∷ []) moved
    → Completes {A = ℕ × Master} (if early then some (0, m) else some (1, moved)) (λ r.
      (r.0 ≡ (if early then 0 else 1))
      × WellFormed (if early then t ∷ ts else ts) rs us (if early then ys else ys ++ t ∷ []) r.1)
either_way true t ts rs us ys m moved w v = (refl, w)
either_way false t ts rs us ys m moved w v = (refl, v)

-- A well-formed master whose first timer is `t`, with fewer than 2 ^ 32 timers and 2 ^ 32 - 1 ready nodes:
-- event_timer_process on the timers ends, whatever fuel above none it has. Before the time of `t` it
-- moves nothing and returns 0; from that time on it moves `t` to the end of the ready nodes and
-- returns 1, whether or not the timers behind `t` have expired as well. The master stays well-formed.
pub process_one :
    (fuel t : ℕ) (ts rs us ys : List ℕ) (now : Timespec) (m : Master)
    → WellFormed (t ∷ ts) rs us ys m
    → length (t ∷ ts) < 2 ^ 32
    → length ys + 1 < 2 ^ 32
    → Completes (event_timer_process (suc fuel) event_type_timer now m) (λ r.
      (r.0 ≡ (if earlier now (m.time t) then 0 else 1))
      × WellFormed
          (if earlier now (m.time t) then t ∷ ts else ts)
          rs
          us
          (if earlier now (m.time t) then ys else ys ++ t ∷ [])
          r.1)
process_one fuel t ts rs us ys now m w small room =
    subst
      (λ c. Completes c (λ r.
        (r.0 ≡ (if earlier now (m.time t) then 0 else 1))
        × WellFormed (if earlier now (m.time t) then t ∷ ts else ts) rs us
            (if earlier now (m.time t) then ys else ys ++ t ∷ []) r.1))
      (sym (one_step fuel t ts rs us ys now m w small))
      (either_way (earlier now (m.time t)) t ts rs us ys m (expire event_type_timer m t) w
        (expire-WellFormed t ts rs us ys m w small room))

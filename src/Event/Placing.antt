-- ===== src/Event/Placing.antt =====
-- A timer that is on no list, put at its place.
use poplar.Prelude.{
  ℕ, ◌+◌, ◌^◌, ◌<◌, ◌≤◌, ◌≡◌, ◌≢◌, refl, sym, ap, ap₂, subst, ◌∙◌, Bool, true, false, List, [], ◌∷◌,
  map, ◌++◌, none, some, arith, length, if◌then◌else◌,
}
use mathlib.Core.List.{append-nil}
use poplar.Run.{Completes, Completes-map}
use poplar.Prelude.Distinct.{Absent, Absent-split}
use poplar.Links.{Links, Ends, Holds, last_or, first_or}
use poplar.Links.Relink.{last_or-ne}
use poplar.Links.Unlink.{Holds-neighbours}
use poplar.Links.Walk.{
  find_from, find_from-Linked, before, since, before-since, insert_by, map-before,
}
use poplar.Event.Timespec.{Timespec, timespec_cmp, earlier}
use poplar.Event.Lists.{event_list_add, event_list_add_before}
use poplar.Event.Relinked.{Added, add-Added, before-Added, Added-Holds, Added-apart}
use poplar.Event.Master.{
  Master, assign, insert_timer, event_timer_set, is_positive, arm, placed, with_list,
  event_type_unused, event_type_timer, event_type_rear, event_type_ready,
}
use poplar.Event.WellFormed.{
  WellFormed, Detached, Kind, Kind-Apart, Kind-split, Kind-join, set_keeps, armed-WellFormed,
}

-- Added among the timers by whichever of the two operations.
timer-WellFormed :
    (xs zs rs us ys : List ℕ) (v : ℕ) (m : Master) (r : Links × Ends)
    → Detached (xs ++ zs) rs us ys v m
    → m.kind v ≡ event_type_timer
    → length (xs ++ zs) + 1 < 2 ^ 32
    → Added m.links m.timer (last_or none xs) (first_or none zs) v r
    → WellFormed (xs ++ v ∷ zs) rs us ys (with_list m event_type_timer r)
timer-WellFormed xs zs rs us ys v m r d e small added =
    let w = d.rest in
    let (left, right) = Kind-split m.kind event_type_timer xs zs w.timers in
    let other : (l : Ends) (a : ℕ) (os : List ℕ)
        → Holds m.links l os
        → Absent v os
        → Kind m.kind a os
        → a ≢ event_type_timer
        → Holds r.0 l os =
      λ l a os k off kinds ne.
        Added-apart m.links m.timer l xs zs os v r k off
          (Kind-Apart m.kind event_type_timer a xs os left kinds ne)
          (Kind-Apart m.kind event_type_timer a zs os right kinds ne) added in
    record {
      timer = Added-Holds m.links m.timer xs zs v r w.timer d.off_timer small added;
      rear = other m.rear event_type_rear rs w.rear d.off_rear w.rears (omega arith);
      unuse = other m.unuse event_type_unused us w.unuse d.off_unuse w.unused (omega arith);
      ready = other m.ready event_type_ready ys w.ready d.off_ready w.readies (omega arith);
      timers = Kind-join m.kind event_type_timer xs (v ∷ zs) left (e, right);
      rears = w.rears;
      unused = w.unused;
      readies = w.readies;
    }

-- The timers `ts` hold the instants `at`, in order.
pub record Timed (ts rs us ys : List ℕ) (at : List Timespec) (m : Master) : Type 0 where
  pub lists : WellFormed ts rs us ys m
  pub times : map m.time ts ≡ at

arm-Timed :
    (ts rs us ys : List ℕ) (at : List Timespec) (set : Bool) (m : Master) (v : ℕ)
    → Timed ts rs us ys at m
    → Timed ts rs us ys at (arm set m v)
unfolding arm
arm-Timed ts rs us ys at set m v t =
    let done =
      set_keeps (Timed ts rs us ys at) m t
        (λ a. record { lists = armed-WellFormed ts rs us ys m a t.lists; times = t.times }) set v in
    elim m.armed
      as (λ o. Timed ts rs us ys at (elim o [
        | none ↦ event_timer_set set m v
        | some a ↦
            if is_positive (timespec_cmp (m.time a) (m.time v)) then event_timer_set set m v else m
      ])) [
        | none ↦ done
        | some a ↦
            elim (is_positive (timespec_cmp (m.time a) (m.time v)))
              as (λ b. Timed ts rs us ys at (if b then event_timer_set set m v else m)) [
                | true ↦ done
                | false ↦ t
              ]
      ]

map-insert :
    (f : ℕ → Timespec) (v : ℕ) (xs zs : List ℕ) → map f (xs ++ v ∷ zs) ≡ map f xs ++ f v ∷ map f zs
map-insert f v [] zs = refl
map-insert f v (x ∷ xs) zs = ap (λ t. f x ∷ t) (map-insert f v xs zs)

insert_there :
    (fuel : ℕ) (set : Bool) (xs zs rs us ys : List ℕ) (v : ℕ) (m : Master)
    → Detached (xs ++ zs) rs us ys v m
    → m.kind v ≡ event_type_timer
    → length (xs ++ zs) + 1 < 2 ^ 32
    → find_from fuel m.links.next (λ t. earlier (m.time v) (m.time t)) m.timer.head
      ≡ some (first_or none zs)
    → Completes
        (insert_timer fuel set m event_type_timer v)
        (Timed (xs ++ v ∷ zs) rs us ys (map m.time xs ++ m.time v ∷ map m.time zs))
unfolding insert_timer
insert_there fuel set xs [] rs us ys v m d e small found =
    let q = Timed (xs ++ v ∷ []) rs us ys (map m.time xs ++ m.time v ∷ []) in
    let off = subst (Absent v) (append-nil xs) d.off_timer in
    let held = subst (Holds m.links m.timer) (append-nil xs) d.rest.timer in
    let r = event_list_add m.links m.timer v in
    let w =
      timer-WellFormed xs [] rs us ys v m r d e small (add-Added m.links m.timer xs v held off) in
    subst (λ o. Completes (placed set m event_type_timer v o) q) (sym found)
      (arm-Timed (xs ++ v ∷ []) rs us ys (map m.time xs ++ m.time v ∷ []) set
        (with_list m event_type_timer r) v
        (record { lists = w; times = map-insert m.time v xs [] }))
insert_there fuel set xs (z ∷ zs) rs us ys v m d e small found =
    let at = map m.time xs ++ m.time v ∷ map m.time (z ∷ zs) in
    let q = Timed (xs ++ v ∷ z ∷ zs) rs us ys at in
    let (left, right) = Absent-split v xs (z ∷ zs) d.off_timer in
    let (before, after) = Holds-neighbours m.links m.timer z xs zs d.rest.timer in
    let r = event_list_add_before m.links m.timer z v in
    let added =
      before-Added m.links m.timer z v (last_or none xs) before (λ s. right.0 (sym s))
        (last_or-ne v none xs (ground arith) left) in
    let w = timer-WellFormed xs (z ∷ zs) rs us ys v m r d e small added in
    subst (λ o. Completes (placed set m event_type_timer v o) q) (sym found)
      (arm-Timed (xs ++ v ∷ z ∷ zs) rs us ys at set (with_list m event_type_timer r) v
        (record { lists = w; times = map-insert m.time v xs (z ∷ zs) }))

pub same-map :
    (f g : ℕ → Timespec) (v : ℕ) (at : Timespec) (xs : List ℕ)
    → ((a : ℕ) → g a ≡ assign f v at a)
    → Absent v xs
    → map g xs ≡ map f xs
same-map f g v at [] h off = refl
same-map f g v at (x ∷ xs) h off =
    ap₂ (λ t ts. t ∷ ts) (h x ∙ ground (arith, off.0)) (same-map f g v at xs h off.1)

-- A detached timer, put at its place.
pub insert_lem :
    (fuel : ℕ) (set : Bool) (ts rs us ys : List ℕ) (v : ℕ) (m : Master)
    → Detached ts rs us ys v m
    → m.kind v ≡ event_type_timer
    → length ts + 1 < 2 ^ 32
    → length ts ≤ fuel
    → Completes
        (insert_timer fuel set m event_type_timer v)
        (λ r. (ts' : List ℕ) × Timed ts' rs us ys (insert_by earlier (m.time v) (map m.time ts)) r)
insert_lem fuel set ts rs us ys v m d e small enough =
    let test = λ (t : ℕ). earlier (m.time v) (m.time t) in
    let xs = before test ts in
    let zs = since test ts in
    let whole = before-since test ts in
    let d' = subst (λ os. Detached os rs us ys v m) (sym whole) d in
    Completes-map (insert_timer fuel set m event_type_timer v)
      (insert_there fuel set xs zs rs us ys v m d' e (rw whole small) (
        find_from-Linked m.links.next m.links.prev test fuel none m.timer.head ts m.timer.tail
          d.rest.timer.linked enough))
      (λ r t. (
        xs ++ v ∷ zs,
        subst (λ at. Timed (xs ++ v ∷ zs) rs us ys at r) (map-before earlier m.time (m.time v) ts)
            t,
      ))

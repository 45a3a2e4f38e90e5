-- ===== src/Event/Destroy.antt =====
-- eventsCtl/event_ctl.c: what event_master_destroy frees.
use poplar.Prelude.{
  ℕ, zero, suc, ◌+◌, ◌-◌, ◌%◌, ◌^◌, ◌≤◌, ◌<◌, ◌≡◌, ◌≢◌, refl, ap, sym, ◌∙◌, List, [], ◌∷◌, ◌++◌,
  Option, none, some, length, arith,
}
use poplar.Hash.{hash_clean}
use poplar.Hash.Whole.{entries, clean-entries}
use poplar.Prelude.Distinct.{Absent, Distinct, Absent-join}
use poplar.Links.{Links, Linked}
use poplar.Links.Apart.{Apart}
use poplar.Event.Lists.{event_list_free}
use poplar.Event.Master.{Master, event_type_event}
use poplar.Event.WellFormed.{WellFormed, Kind, Kind-Apart}
use poplar.Event.Epoll.{alloc_left, event_master_destroy}

-- What is left of a length after as many decrements as a list has nodes.
abbrev lowered : ℕ → List ℕ → ℕ
lowered n [] = n
lowered n (x ∷ xs) = lowered ((n + 2 ^ 32 - 1) % 2 ^ 32) xs

free-Linked :
    (xs : List ℕ) (h : Links) (fuel n : ℕ) (b s l : Option ℕ)
    → Linked h.next h.prev b s xs l none
    → length xs ≤ fuel
    → event_list_free fuel h s n ≡ some (xs, lowered n xs)
unfolding event_list_free
free-Linked [] h fuel n b s l k enough = ap (λ p. event_list_free fuel h p n) k.0
free-Linked (x ∷ xs) h zero n b s l k enough = ground arith
free-Linked (x ∷ xs) h (suc fuel) n b s l (k, q, r) enough =
    rw (k, free-Linked xs h fuel ((n + 2 ^ 32 - 1) % 2 ^ 32) (some x) (h.next x) l r (omega arith))
      refl

Absent-Apart : (xs : List ℕ) (y : ℕ) (ys : List ℕ) → Apart xs (y ∷ ys) → Absent y xs × Apart xs ys
Absent-Apart [] y ys a = (tt, tt)
Absent-Apart (x ∷ xs) y ys a =
    let (h, k) = Absent-Apart xs y ys a.1 in (((λ e. a.0.0 (sym e)), h), (a.0.1, k))

Apart-join : (xs ys zs : List ℕ) → Apart xs ys → Apart xs zs → Apart xs (ys ++ zs)
Apart-join [] ys zs a b = tt
Apart-join (x ∷ xs) ys zs a b = (Absent-join x ys zs a.0 b.0, Apart-join xs ys zs a.1 b.1)

Distinct-join : (xs ys : List ℕ) → Distinct xs → Distinct ys → Apart xs ys → Distinct (xs ++ ys)
Distinct-join [] ys d e a = e
Distinct-join (x ∷ xs) ys d e a = (Absent-join x xs ys d.0 a.0, Distinct-join xs ys d.1 e a.1)

alloc_left_lem :
    (xs : List ℕ) (n : ℕ) → length xs ≤ n → n < 2 ^ 64 → alloc_left n xs ≡ n - length xs
alloc_left_lem [] n h small = omega arith
alloc_left_lem (x ∷ xs) n h small =
    let wrapped : (n + 2 ^ 64 - 1) % 2 ^ 64 ≡ n - 1 = omega arith in
    ap (λ (k : ℕ). alloc_left k xs) wrapped
    ∙ alloc_left_lem xs (n - 1) (omega arith) (omega arith)
    ∙ omega arith

destroy_runs :
    (fuel : ℕ) (ts rs us ys : List ℕ) (m : Master)
    → WellFormed ts rs us ys m
    → length ts ≤ fuel
    → length rs ≤ fuel
    → length us ≤ fuel
    → event_master_destroy fuel m
      ≡ some (
        (hash_clean m.hash).0 ++ (rs ++ (us ++ ts)),
        alloc_left m.events_alloc ((hash_clean m.hash).0 ++ (rs ++ (us ++ ts))),
      )
unfolding event_master_destroy
destroy_runs fuel ts rs us ys m w et er eu =
    rw
      (
        event_master_destroy,
        free-Linked rs m.links fuel m.rear.count none m.rear.head m.rear.tail w.rear.linked er,
        free-Linked us m.links fuel m.unuse.count none m.unuse.head m.unuse.tail w.unuse.linked eu,
        free-Linked ts m.links fuel m.timer.count none m.timer.head m.timer.tail w.timer.linked et,
      )
      refl

-- The nodes of the table, of the rear timers, of the unused nodes and of the timers.
abbrev pub owned : List ℕ → List ℕ → List ℕ → Master → List ℕ
owned ts rs us m = entries m.hash.index ++ (rs ++ (us ++ ts))

module _ (ts rs us ys : List ℕ) (m : Master) (w : WellFormed ts rs us ys m)
    (hashed : Kind m.kind event_type_event (entries m.hash.index)) where
  owned-Distinct : Distinct (entries m.hash.index) → Distinct (owned ts rs us m)
  owned-Distinct d =
      let hs = entries m.hash.index in
      let apart =
        λ (a b : ℕ) (xs zs : List ℕ) (k : Kind m.kind a xs) (l : Kind m.kind b zs) (ne : b ≢ a).
          Kind-Apart m.kind a b xs zs k l ne in
      let ut = apart 1 2 us ts w.unused w.timers (omega arith) in
      let ru = apart 3 1 rs us w.rears w.unused (omega arith) in
      let rt = apart 3 2 rs ts w.rears w.timers (omega arith) in
      let hr = apart 4 3 hs rs hashed w.rears (omega arith) in
      let hu = apart 4 1 hs us hashed w.unused (omega arith) in
      let ht = apart 4 2 hs ts hashed w.timers (omega arith) in
      let e = Distinct-join us ts w.unuse.distinct w.timer.distinct ut in
      let f = Distinct-join rs (us ++ ts) w.rear.distinct e (Apart-join rs us ts ru rt) in
      Distinct-join hs (rs ++ (us ++ ts)) d f
        (Apart-join hs rs (us ++ ts) hr (Apart-join hs us ts hu ht))

  ready-Apart : Apart ys (owned ts rs us m)
  ready-Apart =
      let hs = entries m.hash.index in
      let apart = λ (b : ℕ) (zs : List ℕ) (l : Kind m.kind b zs) (ne : b ≢ 6).
        Kind-Apart m.kind 6 b ys zs w.readies l ne in
      Apart-join ys hs (rs ++ (us ++ ts)) (apart 4 hs hashed (omega arith)) (
        Apart-join ys rs (us ++ ts) (apart 3 rs w.rears (omega arith)) (
          Apart-join ys us ts (apart 1 us w.unused (omega arith))
            (apart 2 ts w.timers (omega arith))))

-- On a well-formed master whose table holds distinct nodes of type event, and which has counted at
-- least the nodes of the table and of its lists but the ready ones, with fuel for every node of a
-- list: event_master_destroy ends; it frees the nodes of the table, of the rear timers, of the unused
-- nodes and of the timers, in that order, each once, and takes each off events_alloc. None of the
-- ready nodes is among those that it frees.
pub destroy_lem :
    (fuel : ℕ) (ts rs us ys : List ℕ) (m : Master)
    → WellFormed ts rs us ys m
    → Kind m.kind event_type_event (entries m.hash.index)
    → Distinct (entries m.hash.index)
    → length (owned ts rs us m) ≤ m.events_alloc
    → m.events_alloc < 2 ^ 64
    → length ts ≤ fuel
    → length rs ≤ fuel
    → length us ≤ fuel
    → (event_master_destroy fuel m
        ≡ some (owned ts rs us m, m.events_alloc - length (owned ts rs us m)))
      × Distinct (owned ts rs us m)
      × Apart ys (owned ts rs us m)
destroy_lem fuel ts rs us ys m w k d counted small et er eu =
    let freed = owned ts rs us m in
    (
      destroy_runs fuel ts rs us ys m w et er eu
          ∙ ap
              (λ (hs : List ℕ).
                let xs : List ℕ = hs ++ (rs ++ (us ++ ts)) in
                some (xs, alloc_left m.events_alloc xs))
              (clean-entries m.hash)
          ∙ ap (λ (n : ℕ). some (freed, n)) (alloc_left_lem freed m.events_alloc counted small),
      owned-Distinct ts rs us ys m w k d,
      ready-Apart ts rs us ys m w k,
    )

-- ===== src/LinkedList/Sorting.antt =====
-- listnode_add_sort puts a value at its place.
use poplar.Prelude.{
  ℕ, ◌+◌, ◌^◌, ◌<◌, ◌≤◌, ◌≡◌, ◌≢◌, refl, sym, ap, ap₂, subst, ◌∙◌, Bool, true, false, List, [], ◌∷◌,
  ◌++◌, map, Option, none, some, arith, length, if◌then◌else◌,
}
use poplar.Prelude.Int.{ℤ, is_negative}
use poplar.Run.{Returns, Returns-map, Completes, Completes-map}
use mathlib.Core.List.{append-nil}
use poplar.Prelude.Distinct.{Absent, Absent-split}
use poplar.Links.{Holds, put, last_or, first_or, link}
use poplar.Links.Segment.{Linked-frame, put-Same}
use poplar.Links.Relink.{last_or-ne, Holds-ends}
use poplar.Links.Unlink.{Holds-neighbours}
use poplar.Links.Walk.{
  find_from-Linked, before, since, before-since, insert_by, Sorted, insert_by-Sorted, map-before,
}
use poplar.LinkedList.{
  State, links, ends, carrying, listnode_new, listnode_add_sort, place_for, put_before, put_last,
}
use poplar.LinkedList.Added.{Stores, Inserted, Inserted-Stores, has_last, put-apart}

-- What cmp says of two values.
abbrev pub less : (Option ℕ → Option ℕ → ℤ) → Option ℕ → Option ℕ → Bool
less cmp v w = is_negative (cmp v w)

before-Inserted :
    (s : State) (p node val : ℕ) (b : Option ℕ)
    → s.prev p ≡ b
    → p ≢ node
    → b ≢ some node
    → Inserted s b (some p) node (some val) (put_before (carrying s node (some val)) p node)
unfolding put_before listnode_new link
before-Inserted s p node val none h ne far =
    let old = put-apart s.prev node p none ne ∙ h in
    let again = put-apart (λ q. none) node p none ne in
    rw (old, again)
      (record {
        next = λ q. ground arith;
        prev = λ q. ground (arith, ne);
        value = λ q. ground arith;
        head = refl;
        tail = refl;
        count = refl;
      })
before-Inserted s p node val (some y) h ne far =
    let old = put-apart s.prev node p none ne ∙ h in
    let again = put-apart (λ q. some y) node p (some y) ne in
    rw (old, again)
      (record {
        next = λ q. ground (arith, far);
        prev = λ q. ground (arith, ne);
        value = λ q. ground arith;
        head = refl;
        tail = refl;
        count = refl;
      })

last-Inserted :
    (s : State) (xs : List ℕ) (node val : ℕ)
    → Holds (links s) (ends s) xs
    → Absent node xs
    → Inserted s (last_or none xs) none node (some val) (put_last (carrying s node (some val)) node)
unfolding put_last listnode_new link
last-Inserted s [] node val k a =
    let (first, final) = Holds-ends (links s) (ends s) [] k in
    rw final (record {
      next = λ q. refl;
      prev = λ q. ground arith;
      value = λ q. ground arith;
      head = refl;
      tail = refl;
      count = refl;
    })
last-Inserted s (x ∷ xs) node val k a =
    let (first, final) = Holds-ends (links s) (ends s) (x ∷ xs) k in
    let (l, e, ne) = has_last node x xs a in
    rw (final, e)
      (record {
        next = λ q. ground (arith, ne);
        prev = λ q. ground arith;
        value = λ q. ground arith;
        head = refl;
        tail = refl;
        count = refl;
      })

-- The test of the loop, on the nodes that the new one has joined.
abbrev test : State → (Option ℕ → Option ℕ → ℤ) → ℕ → ℕ → ℕ → Bool
test s cmp node val p = less cmp (some val) ((carrying s node (some val)).value p)

since-test :
    (s : State) (cmp : Option ℕ → Option ℕ → ℤ) (xs : List ℕ) (node val : ℕ)
    → Absent node xs
    → since (test s cmp node val) xs ≡ since (λ p. less cmp (some val) (s.value p)) xs
unfolding listnode_new
since-test s cmp [] node val a = refl
since-test s cmp (x ∷ xs) node val a =
    let ne = λ (e : x ≡ node). a.0 (sym e) in
    let old =
      put-apart (put s.value node none) node x (some val) ne ∙ put-apart s.value node x none ne in
    ap₂ (λ b r. if b then x ∷ xs else r) (ap (less cmp (some val)) old)
      (since-test s cmp xs node val a.1)

place :
    (s : State) (cmp : Option ℕ → Option ℕ → ℤ) (xs : List ℕ) (fuel node val : ℕ)
    → s.cmp ≡ some cmp
    → Holds (links s) (ends s) xs
    → Absent node xs
    → length xs ≤ fuel
    → place_for fuel (carrying s node (some val)) (some val)
      ≡ some (first_or none (since (test s cmp node val) xs))
unfolding place_for listnode_new
place s cmp xs fuel node val c k a enough =
    let new = carrying s node (some val) in
    rw c (
      find_from-Linked new.next new.prev (test s cmp node val) fuel none s.head xs s.tail
        (Linked-frame s.next s.prev new.next new.prev none s.head xs s.tail none k.linked
          (put-Same s.next node none xs a) (put-Same s.prev node none xs a))
        enough)

sort_at :
    (s : State) (xs ys : List ℕ) (fuel node val : ℕ)
    → place_for fuel (carrying s node (some val)) (some val) ≡ some (first_or none ys)
    → Holds (links s) (ends s) (xs ++ ys)
    → Absent node (xs ++ ys)
    → Completes
        (listnode_add_sort fuel s node (some val))
        (λ r. Returns r (Inserted s (last_or none xs) (first_or none ys) node (some val)))
unfolding listnode_add_sort
sort_at s xs [] fuel node val h k a =
    let k' = subst (λ t. Holds (links s) (ends s) t) (append-nil xs) k in
    let a' = subst (λ t. Absent node t) (append-nil xs) a in
    rw (Completes, h) (last-Inserted s xs node val k' a')
sort_at s xs (y ∷ ys) fuel node val h k a =
    let (left, right) = Absent-split node xs (y ∷ ys) a in
    let (before, after) = Holds-neighbours (links s) (ends s) y xs ys k in
    rw (Completes, h)
      (before-Inserted s y node val (last_or none xs) before (λ e. right.0 (sym e))
        (last_or-ne node none xs (ground arith) left))

result_there :
    (s t : State) (cmp : Option ℕ → Option ℕ → ℤ) (xs ys zs : List ℕ) (node val : ℕ)
    → Stores (xs ++ node ∷ ys) (map s.value xs ++ some val ∷ map s.value ys) t
    → map s.value xs ++ some val ∷ map s.value ys ≡ insert_by (less cmp) (some val) (map s.value zs)
    → Sorted (less cmp) (insert_by (less cmp) (some val) (map s.value zs))
    → (ns : List ℕ) × Stores ns (insert_by (less cmp) (some val) (map s.value zs)) t
      × Sorted (less cmp) (map t.value ns)
result_there s t cmp xs ys zs node val k e h =
    let there = subst (λ vs. Stores (xs ++ node ∷ ys) vs t) e k in
    (xs ++ node ∷ ys, there, subst (Sorted (less cmp)) (sym there.values) h)

-- A list of fewer than 2 ^ 32 - 1 nodes whose values are sorted by a cmp that calls no two values
-- less than each other, and a new node that is not in it: listnode_add_sort ends, with fuel for every
-- node, and returns; the values are then the old ones with the new one before the first that it is
-- less than, and they are sorted.
pub sort-Stores :
    (s : State) (cmp : Option ℕ → Option ℕ → ℤ) (xs : List ℕ) (fuel node val : ℕ)
    → s.cmp ≡ some cmp
    → ((v w : Option ℕ) → less cmp v w ≡ true → less cmp w v ≡ false)
    → Holds (links s) (ends s) xs
    → Sorted (less cmp) (map s.value xs)
    → Absent node xs
    → length xs + 1 < 2 ^ 32
    → length xs ≤ fuel
    → Completes (listnode_add_sort fuel s node (some val)) (λ r. Returns r (λ t.
      (ys : List ℕ) × Stores ys (insert_by (less cmp) (some val) (map s.value xs)) t
      × Sorted (less cmp) (map t.value ys)))
sort-Stores s cmp xs fuel node val c asym k sorted a small enough =
    let t = λ (p : ℕ). less cmp (some val) (s.value p) in
    let xs' = before t xs in
    let ys' = since t xs in
    let whole = before-since t xs in
    let k' = subst (λ zs. Holds (links s) (ends s) zs) (sym whole) k in
    let a' = subst (λ zs. Absent node zs) (sym whole) a in
    let found =
      place s cmp xs fuel node val c k a enough
      ∙ ap (λ zs. some (first_or none zs)) (since-test s cmp xs node val a) in
    Completes-map (listnode_add_sort fuel s node (some val))
      (sort_at s xs' ys' fuel node val found k' a')
      (λ m r. Returns-map m r (λ u i.
        result_there s u cmp xs' ys' xs node val
          (Inserted-Stores s u xs' ys' node (some val) k' a' (rw whole small) i)
          (map-before (less cmp) s.value (some val) xs)
          (insert_by-Sorted (less cmp) (some val) (map s.value xs) asym sorted)))

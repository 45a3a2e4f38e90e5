-- ===== src/LinkedList/Removed.antt =====
-- Nodes deleted from a list, one and all.
use poplar.Prelude.{
  ℕ, zero, suc, ◌+◌, ◌-◌, ◌%◌, ◌^◌, ◌<◌, ◌≤◌, ◌≡◌, ◌≢◌, refl, sym, ap, ap₂, subst, ◌∙◌, Bool, true,
  false, Bool-cases, inl, inr, List, [], ◌∷◌, ◌++◌, map, Option, none, some, arith, length,
  if◌then◌else◌,
}
use poplar.Run.{Completes, Completes-map}
use mathlib.Core.List.{append_assoc, append-nil}
use poplar.Prelude.Distinct.{Absent-split, Distinct-remove}
use poplar.Links.{Holds, Linked, put_if, first_or, or_else, take_out}
use poplar.Links.Segment.{Same-everywhere}
use poplar.Links.Relink.{last_or-ne, length-insert}
use poplar.Links.Unlink.{Holds-neighbours, Holds-frame, take_out-Holds, unlinked_ends}
use poplar.Links.Walk.{find_from, find_from-Linked, before, since, before-since}
use poplar.LinkedList.{
  State, links, ends, same, listnode_free, listnode_delete, list_delete_node, delete_from,
  list_delete_all_node,
}
use poplar.LinkedList.Added.{Stores, put-apart}

-- `node`, between `b` and `e`, was unlinked and freed; all else is as it was.
pub record Deleted (s : State) (node : ℕ) (b e : Option ℕ) (t : State) : Type 0 where
  pub next : (a : ℕ) → t.next a ≡ put_if s.next b e a
  pub prev : (a : ℕ) → t.prev a ≡ put_if s.prev e b a
  pub value : t.value ≡ s.value
  pub head : t.head ≡ or_else b e s.head
  pub tail : t.tail ≡ or_else e b s.tail
  pub count : t.count ≡ (s.count + 2 ^ 32 - 1) % 2 ^ 32
  pub freed : t.freed ≡ s.freed ++ node ∷ []

delete_at :
    (s : State) (node : ℕ) (b e : Option ℕ)
    → s.prev node ≡ b
    → s.next node ≡ e
    → b ≢ some node
    → Deleted s node b e (list_delete_node s node)
unfolding list_delete_node listnode_free
delete_at s node none none hb he far =
    rw (hb, he)
      (record {
        next = λ a. ground (arith, hb, he, far);
        prev = λ a. ground (arith, hb, he, far);
        value = refl;
        head = ground (arith, hb, he, far);
        tail = ground (arith, hb, he, far);
        count = refl;
        freed = refl;
      })
delete_at s node none (some r) hb he far =
    rw (hb, he)
      (record {
        next = λ a. ground (arith, hb, he, far);
        prev = λ a. ground (arith, hb, he, far);
        value = refl;
        head = ground (arith, hb, he, far);
        tail = ground (arith, hb, he, far);
        count = refl;
        freed = refl;
      })
delete_at s node (some q) none hb he far =
    let ne = λ (e : node ≡ q). far (ap some (sym e)) in
    let still = put-apart (λ a. none) q node none ne in
    rw (hb, he, still)
      (record {
        next = λ a. ground (arith, hb, he, far);
        prev = λ a. ground (arith, hb, he, far);
        value = refl;
        head = ground (arith, hb, he, far);
        tail = ground (arith, hb, he, far);
        count = refl;
        freed = refl;
      })
delete_at s node (some q) (some r) hb he far =
    let ne = λ (e : node ≡ q). far (ap some (sym e)) in
    let still = put-apart (λ a. some r) q node (some r) ne in
    rw (hb, he, still)
      (record {
        next = λ a. ground (arith, hb, he, far);
        prev = λ a. ground (arith, hb, he, far);
        value = refl;
        head = ground (arith, hb, he, far);
        tail = ground (arith, hb, he, far);
        count = refl;
        freed = refl;
      })

Deleted-Stores :
    (s t : State) (xs ys : List ℕ) (node : ℕ)
    → Holds (links s) (ends s) (xs ++ node ∷ ys)
    → length (xs ++ node ∷ ys) < 2 ^ 32
    → Deleted s node (s.prev node) (s.next node) t
    → Stores (xs ++ ys) (map s.value (xs ++ ys)) t
unfolding take_out
Deleted-Stores s t xs ys node k small i =
    let gone =
      Holds-frame (take_out (links s) node) (links t)
        (unlinked_ends (ends s) (s.prev node) (s.next node)) (xs ++ ys)
        (take_out-Holds (links s) (ends s) node xs ys k)
        (Same-everywhere t.next (take_out (links s) node).next (xs ++ ys) i.next)
        (Same-everywhere t.prev (take_out (links s) node).prev (xs ++ ys) i.prev) in
    record {
      held = record {
        linked = rw (i.head, i.tail) gone.linked;
        distinct = gone.distinct;
        count = i.count ∙ omega (arith, k.count, small, length-insert node xs ys) ∙ gone.count;
      };
      values = ap (λ f. map f (xs ++ ys)) i.value;
    }

-- The first node that holds `val`, taken out.
abbrev pub remove_first : Option ℕ → List (Option ℕ) → List (Option ℕ)
remove_first val [] = []
remove_first val (v ∷ vs) = if same v val then vs else v ∷ remove_first val vs

abbrev pub rest_of : List ℕ → List ℕ
rest_of [] = []
rest_of (y ∷ ys) = ys

pub map-removed :
    (s : State) (val : Option ℕ) (xs : List ℕ)
    → map s.value
        (before (λ n. same (s.value n) val) xs ++ rest_of (since (λ n. same (s.value n) val) xs))
      ≡ remove_first val (map s.value xs)
map-removed s val [] = refl
map-removed s val (x ∷ xs) = elim (Bool-cases (same (s.value x) val)) [
  | inl t ↦ rw t refl
  | inr f ↦ rw f (ap (λ vs. s.value x ∷ vs) (map-removed s val xs))
]

pub delete_there :
    (s : State) (xs ys : List ℕ) (fuel : ℕ) (val : Option ℕ)
    → find_from fuel s.next (λ n. same (s.value n) val) s.head ≡ some (first_or none ys)
    → Holds (links s) (ends s) (xs ++ ys)
    → length (xs ++ ys) < 2 ^ 32
    → Completes
        (listnode_delete fuel s val)
        (Stores (xs ++ rest_of ys) (map s.value (xs ++ rest_of ys)))
unfolding listnode_delete
delete_there s xs [] fuel val h k small = rw (Completes, h) (record { held = k; values = refl })
delete_there s xs (y ∷ ys) fuel val h k small =
    let b = (Holds-neighbours (links s) (ends s) y xs ys k).0 in
    let far =
      last_or-ne y none xs (ground arith)
        (Absent-split y xs ys (Distinct-remove y xs ys k.distinct).1).0 in
    rw (Completes, h)
      (Deleted-Stores s (list_delete_node s y) xs ys y k small
        (delete_at s y (s.prev y) (s.next y) refl refl (λ e. far (sym b ∙ e))))

-- On a well-formed list of fewer than 2 ^ 32 nodes, with fuel for every node, listnode_delete ends;
-- the list is well-formed and its values are the old ones without the first that is `val`, in order.
pub delete-Stores :
    (s : State) (xs : List ℕ) (fuel : ℕ) (val : Option ℕ)
    → Holds (links s) (ends s) xs
    → length xs < 2 ^ 32
    → length xs ≤ fuel
    → Completes
        (listnode_delete fuel s val)
        (λ t. (ys : List ℕ) × Stores ys (remove_first val (map s.value xs)) t)
delete-Stores s xs fuel val k small enough =
    let test = λ (n : ℕ). same (s.value n) val in
    let whole = before-since test xs in
    let kept = before test xs ++ rest_of (since test xs) in
    Completes-map (listnode_delete fuel s val)
      (delete_there s (before test xs) (since test xs) fuel val
        (find_from-Linked s.next s.prev test fuel none s.head xs s.tail k.linked enough)
        (subst (λ zs. Holds (links s) (ends s) zs) (sym whole) k) (rw whole small))
      (λ t st. (kept, subst (λ vs. Stores kept vs t) (map-removed s val xs) st))

-- What list_delete_all_node leaves.
abbrev pub emptied : State → List ℕ → State
emptied s xs = record s {
  head = none;
  tail = none;
  count = 0;
  freed = s.freed ++ xs;
  deleted = s.deleted ++ (if s.del then map s.value xs else []);
}

abbrev drained : State → List ℕ → State
drained s xs = record s {
  freed = s.freed ++ xs;
  deleted = s.deleted ++ (if s.del then map s.value xs else []);
}

nothing : (d : Bool) (vs : List (Option ℕ)) → vs ≡ vs ++ (if d then [] else [])
nothing true vs = sym (append-nil vs)
nothing false vs = sym (append-nil vs)

one_more :
    (d : Bool) (old : List (Option ℕ)) (v : Option ℕ) (vs : List (Option ℕ))
    → (if d then old ++ (v ∷ []) else old) ++ (if d then vs else [])
      ≡ old ++ (if d then v ∷ vs else [])
one_more true old v vs = append_assoc old (v ∷ []) vs
one_more false old v vs = refl

delete_from-Linked :
    (xs : List ℕ) (s : State) (fuel : ℕ) (b p l : Option ℕ)
    → Linked s.next s.prev b p xs l none
    → length xs ≤ fuel
    → delete_from fuel s p ≡ some (drained s xs)
unfolding delete_from listnode_free
delete_from-Linked [] s fuel b p l (k, i) enough = rw k (
    ap₂ (λ f d. some (record s { freed = f; deleted = d })) (sym (append-nil s.freed))
      (nothing s.del s.deleted))
delete_from-Linked (x ∷ xs) s zero b p l k enough = ground arith
delete_from-Linked (x ∷ xs) s (suc fuel) b p l (k, q, r) enough =
    let called = record s {
      deleted = if s.del then s.deleted ++ (s.value x ∷ []) else s.deleted;
      freed = s.freed ++ x ∷ [];
    } in
    rw k (
      delete_from-Linked xs called fuel (some x) (s.next x) l r (omega arith)
      ∙ ap₂ (λ f d. some (record s { freed = f; deleted = d })) (append_assoc s.freed (x ∷ []) xs)
          (one_more s.del s.deleted (s.value x) (map s.value xs)))

-- list_delete_all_node frees every node once, in order, calls del, where the list has one, on every
-- value in order, and leaves an empty list.
delete_all_lem :
    (s : State) (xs : List ℕ) (fuel : ℕ)
    → Holds (links s) (ends s) xs
    → length xs ≤ fuel
    → list_delete_all_node fuel s ≡ some (emptied s xs)
unfolding list_delete_all_node
delete_all_lem s xs fuel k enough =
    rw (list_delete_all_node, delete_from-Linked xs s fuel none s.head s.tail k.linked enough) refl

-- ===== src/Links/Unlink.antt =====
-- A node unlinked from a list.
use poplar.Prelude.{
  ℕ, suc, ◌-◌, ◌≡◌, refl, sym, subst, ap, ◌∙◌, List, [], ◌∷◌, ◌++◌, Option, none, some, arith,
  length,
}
use poplar.Prelude.Distinct.{Distinct-split, Distinct-remove}
use poplar.Links.Relink.{Holds-ends, or_else_last, length-insert}
use poplar.Links.{Links, Ends, put_if, Linked, Holds, last_or, first_or, or_else, take_out}
use poplar.Links.Segment.{
  Same, Same-refl, put_first-Same, put_last-Same, Linked-frame, Linked-split, Linked-join,
  Linked-ends, Linked-start, Linked-end, last_or-append,
}

-- What a list's ends become when a node with the neighbours `b` and `e` goes out.
abbrev pub unlinked_ends : Ends → Option ℕ → Option ℕ → Ends
unlinked_ends l b e = record {
  head = or_else b e l.head;
  tail = or_else e b l.tail;
  count = l.count - 1;
}

-- A list whose nodes' pointers did not change is still there.
pub Holds-frame :
    (h h' : Links) (l : Ends) (xs : List ℕ)
    → Holds h l xs
    → Same h'.next h.next xs
    → Same h'.prev h.prev xs
    → Holds h' l xs
Holds-frame h h' l xs k sn sp = record {
  linked = Linked-frame h.next h.prev h'.next h'.prev none l.head xs l.tail none k.linked sn sp;
  distinct = k.distinct;
  count = k.count;
}

removed_head :
    (xs ys : List ℕ) (v : ℕ) (s : Option ℕ)
    → s ≡ first_or none (xs ++ v ∷ ys)
    → or_else (last_or none xs) (first_or none ys) s ≡ first_or (first_or none ys) xs
removed_head [] ys v s k = refl
removed_head (x ∷ xs) ys v s k = or_else_last x xs (first_or none ys) s ∙ k

removed_tail :
    (xs ys : List ℕ) (v : ℕ) (s : Option ℕ)
    → s ≡ last_or none (xs ++ v ∷ ys)
    → or_else (first_or none ys) (last_or none xs) s ≡ last_or (last_or none xs) ys
removed_tail xs [] v s k = refl
removed_tail xs (y ∷ ys) v s k = k ∙ last_or-append none xs (v ∷ y ∷ ys)

-- The neighbours of a node, as the list tells them.
pub Holds-neighbours :
    (h : Links) (l : Ends) (v : ℕ) (xs ys : List ℕ)
    → Holds h l (xs ++ v ∷ ys)
    → (h.prev v ≡ last_or none xs) × (h.next v ≡ first_or none ys)
Holds-neighbours h l v xs ys k =
    let right = (Linked-split h.next h.prev none l.head xs (v ∷ ys) l.tail none k.linked).1 in
    (right.1, (Linked-ends h.next h.prev (some v) (h.next v) ys l.tail none right.2).0)

closed :
    (h : Links) (l : Ends) (v : ℕ) (xs ys : List ℕ)
    → Holds h l (xs ++ v ∷ ys)
    → Linked
        (put_if h.next (last_or none xs) (first_or none ys))
        (put_if h.prev (first_or none ys) (last_or none xs))
        none
        (first_or (first_or none ys) xs)
        (xs ++ ys)
        (last_or (last_or none xs) ys)
        none
closed h l v xs ys k =
    let b = last_or none xs in
    let e = first_or none ys in
    let n = put_if h.next b e in
    let p = put_if h.prev e b in
    let d = (Distinct-remove v xs ys k.distinct).0 in
    let (dx, dy) = Distinct-split xs ys d in
    let (left, right) = Linked-split h.next h.prev none l.head xs (v ∷ ys) l.tail none k.linked in
    Linked-join n p none (first_or e xs) xs ys b e (last_or b ys) none
      (Linked-frame n h.prev n p none (first_or e xs) xs b e
        (Linked-end h.next h.prev none l.head xs b (some v) e dx left) (Same-refl n xs)
        (put_first-Same h.prev b xs ys d))
      (Linked-frame h.next p n p b e ys (last_or b ys) none
        (Linked-start h.next h.prev (some v) b e ys l.tail dy (
          subst (λ t. Linked h.next h.prev (some v) t ys l.tail none)
            (Holds-neighbours h l v xs ys k).1 right.2))
        (put_last-Same h.next e xs ys d) (Same-refl p ys))

closed_at :
    (h : Links) (l : Ends) (v : ℕ) (xs ys : List ℕ)
    → Holds h l (xs ++ v ∷ ys)
    → l.head ≡ first_or none (xs ++ v ∷ ys)
    → l.tail ≡ last_or none (xs ++ v ∷ ys)
    → Linked
        (put_if h.next (last_or none xs) (first_or none ys))
        (put_if h.prev (first_or none ys) (last_or none xs))
        none
        (or_else (last_or none xs) (first_or none ys) l.head)
        (xs ++ ys)
        (or_else (first_or none ys) (last_or none xs) l.tail)
        none
closed_at h l v xs ys k first final =
    let n = put_if h.next (last_or none xs) (first_or none ys) in
    let p = put_if h.prev (first_or none ys) (last_or none xs) in
    subst
      (λ t. Linked n p none t (xs ++ ys) (or_else (first_or none ys) (last_or none xs) l.tail) none)
      (sym (removed_head xs ys v l.head first))
      (subst (λ t. Linked n p none (first_or (first_or none ys) xs) (xs ++ ys) t none)
        (sym (removed_tail xs ys v l.tail final)) (closed h l v xs ys k))

less_one : (n : ℕ) → suc n - 1 ≡ n
less_one n = omega arith

-- Unlinked, a node is gone from the list and the others stay in order.
pub take_out-Holds :
    (h : Links) (l : Ends) (v : ℕ) (xs ys : List ℕ)
    → Holds h l (xs ++ v ∷ ys)
    → Holds (take_out h v) (unlinked_ends l (h.prev v) (h.next v)) (xs ++ ys)
unfolding take_out
take_out-Holds h l v xs ys k =
    let ends = Holds-ends h l (xs ++ v ∷ ys) k in
    let (before, after) = Holds-neighbours h l v xs ys k in
    subst
      (λ t.
        Holds (record { next = put_if h.next t (h.next v); prev = put_if h.prev (h.next v) t })
          (unlinked_ends l t (h.next v)) (xs ++ ys))
      (sym before)
      (subst
        (λ t.
          Holds
            (record {
              next = put_if h.next (last_or none xs) t;
              prev = put_if h.prev t (last_or none xs);
            })
            (unlinked_ends l (last_or none xs) t) (xs ++ ys))
        (sym after)
        (record {
          linked = closed_at h l v xs ys k ends.0 ends.1;
          distinct = (Distinct-remove v xs ys k.distinct).0;
          count = ap (λ n. n - 1) (k.count ∙ length-insert v xs ys) ∙ less_one (length (xs ++ ys));
        }))

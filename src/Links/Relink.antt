-- ===== src/Links/Relink.antt =====
-- A node linked into a list.
use poplar.Prelude.{
  ◌≢◌, ℕ, suc, ◌+◌, ◌≡◌, refl, sym, subst, ap, ◌∙◌, List, [], ◌∷◌, ◌++◌, Option, none, some, arith,
  length,
}
use poplar.Prelude.Distinct.{Absent, Distinct, Absent-split, Distinct-split, Distinct-insert}
use poplar.Links.{Links, Ends, put, put_if, Linked, Holds, last_or, first_or, or_else, link}
use poplar.Links.Segment.{
  Same-trans, put-Same, put_first-Same, put_last-Same, Linked-frame, Linked-split, Linked-join,
  Linked-ends, Linked-start, Linked-end, last_or-append,
}

first_or-append :
    (e : Option ℕ) (xs ys : List ℕ) → first_or e (xs ++ ys) ≡ first_or (first_or e ys) xs
first_or-append e [] ys = refl
first_or-append e (x ∷ xs) ys = refl

pub length-insert : (v : ℕ) (xs ys : List ℕ) → length (xs ++ v ∷ ys) ≡ suc (length (xs ++ ys))
length-insert v [] ys = refl
length-insert v (x ∷ xs) ys = ap suc (length-insert v xs ys)

-- The ends of a list, as its nodes tell them.
pub Holds-ends :
    (h : Links) (l : Ends) (xs : List ℕ)
    → Holds h l xs
    → (l.head ≡ first_or none xs) × (l.tail ≡ last_or none xs)
Holds-ends h l xs k = Linked-ends h.next h.prev none l.head xs l.tail none k.linked

-- What a list's ends become when a node goes in between `b` and `e`.
abbrev pub linked_ends : Ends → Option ℕ → Option ℕ → ℕ → Ends
linked_ends l b e v = record {
  head = or_else b (some v) l.head;
  tail = or_else e (some v) l.tail;
  count = l.count + 1;
}

middle :
    (h : Links) (v : ℕ) (xs ys : List ℕ) (l : Option ℕ)
    → Absent v (xs ++ ys)
    → Linked
        (put_if h.next (last_or none xs) (some v))
        h.prev
        none
        (first_or (some v) xs)
        xs
        (last_or none xs)
        (some v)
    → Linked h.next
        (put_if h.prev (first_or none ys) (some v))
        (some v)
        (first_or none ys)
        ys
        l
        none
    → Distinct (xs ++ ys)
    → Linked
        (link h (last_or none xs) (first_or none ys) v).next
        (link h (last_or none xs) (first_or none ys) v).prev
        none
        (first_or (some v) xs)
        (xs ++ v ∷ ys)
        l
        none
unfolding link
middle h v xs ys l a left right d =
    let b = last_or none xs in
    let e = first_or none ys in
    let n1 = put_if h.next b (some v) in
    let p1 = put_if h.prev e (some v) in
    let (out, out2) = Absent-split v xs ys a in
    Linked-join (put n1 v e) (put p1 v b) none (first_or (some v) xs) xs (v ∷ ys) b (some v) l none
      (Linked-frame n1 h.prev (put n1 v e) (put p1 v b) none (first_or (some v) xs) xs b (some v)
        left (put-Same n1 v e xs out)
        (Same-trans (put p1 v b) p1 h.prev xs (put-Same p1 v b xs out)
          (put_first-Same h.prev (some v) xs ys d)))
      (
        refl,
        ground arith,
        subst (λ t. Linked (put n1 v e) (put p1 v b) (some v) t ys l none) (ground arith)
            (Linked-frame h.next p1 (put n1 v e) (put p1 v b) (some v) e ys l none right
              (Same-trans (put n1 v e) n1 h.next ys (put-Same n1 v e ys out2)
                (put_last-Same h.next (some v) xs ys d))
              (put-Same p1 v b ys out2)),
      )

-- Past a first node, there is a last one.
pub or_else_last : (x : ℕ) (xs : List ℕ) (v s : Option ℕ) → or_else (last_or (some x) xs) v s ≡ s
or_else_last x [] v s = refl
or_else_last x (y ∷ xs) v s = or_else_last y xs v s

-- The head and the tail that go with it.
inserted_head :
    (v : ℕ) (xs ys : List ℕ) (s : Option ℕ)
    → s ≡ first_or none (xs ++ ys)
    → or_else (last_or none xs) (some v) s ≡ first_or (some v) xs
inserted_head v [] ys s k = refl
inserted_head v (x ∷ xs) ys s k = or_else_last x xs (some v) s ∙ k

inserted_tail :
    (v : ℕ) (xs ys : List ℕ) (s : Option ℕ)
    → s ≡ last_or none (xs ++ ys)
    → or_else (first_or none ys) (some v) s ≡ last_or (some v) ys
inserted_tail v xs [] s k = refl
inserted_tail v xs (y ∷ ys) s k = k ∙ last_or-append none xs (y ∷ ys)

plus_one : (n : ℕ) → suc n ≡ n + 1
plus_one n = omega arith

-- Linked between two neighbours, a new node stands between them in the list.
pub link-Holds :
    (h : Links) (l : Ends) (v : ℕ) (xs ys : List ℕ)
    → Holds h l (xs ++ ys)
    → Absent v (xs ++ ys)
    → Holds
        (link h (last_or none xs) (first_or none ys) v)
        (linked_ends l (last_or none xs) (first_or none ys) v)
        (xs ++ v ∷ ys)
link-Holds h l v xs ys k a =
    let b = last_or none xs in
    let e = first_or none ys in
    let (dx, dy) = Distinct-split xs ys k.distinct in
    let (left, right) = Linked-split h.next h.prev none l.head xs ys l.tail none k.linked in
    let ends = Holds-ends h l (xs ++ ys) k in
    record {
      linked =
          subst
            (λ t.
              Linked (link h b e v).next (link h b e v).prev none t (xs ++ v ∷ ys)
                (or_else e (some v) l.tail) none)
            (sym (inserted_head v xs ys l.head ends.0))
            (subst
              (λ t.
                Linked (link h b e v).next (link h b e v).prev none (first_or (some v) xs)
                  (xs ++ v ∷ ys) t none)
              (sym (inserted_tail v xs ys l.tail ends.1))
              (middle h v xs ys (last_or (some v) ys) a
                (Linked-end h.next h.prev none l.head xs b e (some v) dx left)
                (Linked-start h.next h.prev b (some v) e ys l.tail dy right) k.distinct));
      distinct = Distinct-insert v xs ys k.distinct a;
      count = ap (λ n. n + 1) k.count ∙ sym (length-insert v xs ys ∙ plus_one (length (xs ++ ys)));
    }

-- A node that is not in a list is neither of its ends.
pub last_or-ne :
    (a : ℕ) (b : Option ℕ) (xs : List ℕ) → b ≢ some a → Absent a xs → last_or b xs ≢ some a
last_or-ne a b [] h g = h
last_or-ne a b (x ∷ xs) h g = last_or-ne a (some x) xs (ground (arith, g.0)) g.1

pub first_or-ne : (a : ℕ) (ys : List ℕ) → Absent a ys → first_or none ys ≢ some a
first_or-ne a [] h = ground arith
first_or-ne a (y ∷ ys) h = ground (arith, h.0)

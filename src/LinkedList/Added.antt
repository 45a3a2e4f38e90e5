-- ===== src/LinkedList/Added.antt =====
-- Nodes added at either end of a list or behind a node.
use poplar.Prelude.{
  ℕ, ◌+◌, ◌%◌, ◌^◌, ◌<◌, ◌≡◌, ◌≢◌, refl, sym, ap₂, subst, ◌∙◌, List, [], ◌∷◌, ◌++◌, map, Option,
  none, some, arith, length,
}
use mathlib.Core.List.{append-nil}
use poplar.Run.{Returns, Returns-map, ◌>>=◌, ◌>>◌}
use poplar.Prelude.Distinct.{Absent, Absent-split}
use poplar.Links.{Holds, put, last_or, first_or, or_else, link}
use poplar.Links.Segment.{Linked-split, Linked-last, Same-everywhere}
use poplar.Links.Relink.{first_or-ne, Holds-ends, link-Holds, linked_ends}
use poplar.Links.Unlink.{Holds-frame}
use poplar.LinkedList.{
  State, links, ends, listnode_new, listnode_add, listnode_add_head, listnode_add_after,
}

-- The list stands on the nodes `xs`, which hold the values `vs`.
pub record Stores (xs : List ℕ) (vs : List (Option ℕ)) (s : State) : Type 0 where
  pub held : Holds (links s) (ends s) xs
  pub values : map s.value xs ≡ vs

-- `node` was linked between `b` and `e` and carries `val`; all else is as it was.
pub record Inserted (s : State) (b e : Option ℕ) (node : ℕ) (val : Option ℕ) (t : State)
    : Type 0 where
  pub next : (a : ℕ) → t.next a ≡ (link (links s) b e node).next a
  pub prev : (a : ℕ) → t.prev a ≡ (link (links s) b e node).prev a
  pub value : (a : ℕ) → t.value a ≡ put s.value node val a
  pub head : t.head ≡ or_else b (some node) s.head
  pub tail : t.tail ≡ or_else e (some node) s.tail
  pub count : t.count ≡ (s.count + 1) % 2 ^ 32

pub map-same :
    (f g : ℕ → Option ℕ) (node : ℕ) (val : Option ℕ) (xs : List ℕ)
    → ((a : ℕ) → f a ≡ put g node val a)
    → Absent node xs
    → map f xs ≡ map g xs
map-same f g node val [] h a = refl
map-same f g node val (x ∷ xs) h a =
    ap₂ (λ y ys. y ∷ ys) (h x ∙ ground (arith, a.0)) (map-same f g node val xs h a.1)

map-inserted :
    (f g : ℕ → Option ℕ) (node : ℕ) (val : Option ℕ) (xs ys : List ℕ)
    → ((a : ℕ) → f a ≡ put g node val a)
    → Absent node (xs ++ ys)
    → map f (xs ++ node ∷ ys) ≡ map g xs ++ val ∷ map g ys
map-inserted f g node val [] ys h a =
    ap₂ (λ v vs. v ∷ vs) (h node ∙ ground arith) (map-same f g node val ys h a)
map-inserted f g node val (x ∷ xs) ys h a =
    ap₂ (λ v vs. v ∷ vs) (h x ∙ ground (arith, a.0)) (map-inserted f g node val xs ys h a.1)

-- Then it stands there with its value, in a list of fewer than 2 ^ 32 nodes.
pub Inserted-Stores :
    (s t : State) (xs ys : List ℕ) (node : ℕ) (val : Option ℕ)
    → Holds (links s) (ends s) (xs ++ ys)
    → Absent node (xs ++ ys)
    → length (xs ++ ys) + 1 < 2 ^ 32
    → Inserted s (last_or none xs) (first_or none ys) node val t
    → Stores (xs ++ node ∷ ys) (map s.value xs ++ val ∷ map s.value ys) t
Inserted-Stores s t xs ys node val k a small i =
    let h = link-Holds (links s) (ends s) node xs ys k a in
    let all = xs ++ node ∷ ys in
    let put_in =
      Holds-frame (link (links s) (last_or none xs) (first_or none ys) node) (links t)
        (linked_ends (ends s) (last_or none xs) (first_or none ys) node) all h
        (Same-everywhere t.next (link (links s) (last_or none xs) (first_or none ys) node).next all
          i.next)
        (Same-everywhere t.prev (link (links s) (last_or none xs) (first_or none ys) node).prev all
          i.prev) in
    record {
      held = record {
        linked = rw (i.head, i.tail) put_in.linked;
        distinct = put_in.distinct;
        count = i.count ∙ (omega (arith, k.count)) ∙ put_in.count;
      };
      values = map-inserted t.value s.value node val xs ys i.value a;
    }

pub has_last :
    (a x : ℕ) (xs : List ℕ) → Absent a (x ∷ xs) → (l : ℕ) × (last_or (some x) xs ≡ some l) × (l ≢ a)
has_last a x [] h = (x, refl, λ e. h.0 (sym e))
has_last a x (y ∷ xs) h = has_last a y xs h.1

pub put-apart : (f : ℕ → Option ℕ) (a p : ℕ) (v : Option ℕ) → p ≢ a → put f a v p ≡ f p
put-apart f a p v ne = ground arith

pub add-Inserted :
    (s : State) (xs : List ℕ) (node val : ℕ)
    → Holds (links s) (ends s) xs
    → Absent node xs
    → Returns (listnode_add s node (some val)) (Inserted s (last_or none xs) none node (some val))
unfolding listnode_add listnode_new link
add-Inserted s [] node val k a =
    let (first, final) = Holds-ends (links s) (ends s) [] k in
    rw (first, ◌>>◌, ◌>>=◌)
      (record {
        next = λ q. refl;
        prev = λ q. ground (arith, final);
        value = λ q. ground arith;
        head = refl;
        tail = refl;
        count = refl;
      })
add-Inserted s (x ∷ xs) node val k a =
    let (first, final) = Holds-ends (links s) (ends s) (x ∷ xs) k in
    let (l, e, ne) = has_last node x xs a in
    rw (first, final, e, ◌>>◌, ◌>>=◌)
      (record {
        next = λ q. ground (arith, ne);
        prev = λ q. ground (arith, final, e);
        value = λ q. ground arith;
        head = first;
        tail = refl;
        count = refl;
      })

add_head-Inserted :
    (s : State) (xs : List ℕ) (node val : ℕ)
    → Holds (links s) (ends s) xs
    → Absent node xs
    → Returns
        (listnode_add_head s node (some val))
        (Inserted s none (first_or none xs) node (some val))
unfolding listnode_add_head listnode_new link
add_head-Inserted s [] node val k a =
    let (first, final) = Holds-ends (links s) (ends s) [] k in
    rw (final, ◌>>◌, ◌>>=◌)
      (record {
        next = λ q. ground (arith, first);
        prev = λ q. refl;
        value = λ q. ground arith;
        head = refl;
        tail = refl;
        count = refl;
      })
add_head-Inserted s (x ∷ xs) node val k a =
    let (first, final) = Holds-ends (links s) (ends s) (x ∷ xs) k in
    let (l, e, ne) = has_last node x xs a in
    rw (final, e, first, ◌>>◌, ◌>>=◌)
      (record {
        next = λ q. ground (arith, first);
        prev = λ q. ground (arith, a.0);
        value = λ q. ground arith;
        head = refl;
        tail = final ∙ e;
        count = refl;
      })

after_head-Inserted :
    (s : State) (xs : List ℕ) (node val : ℕ)
    → Holds (links s) (ends s) xs
    → Absent node xs
    → Returns
        (listnode_add_after s none node (some val))
        (Inserted s none (first_or none xs) node (some val))
unfolding listnode_add_after listnode_new link
after_head-Inserted s [] node val k a =
    let (first, final) = Holds-ends (links s) (ends s) [] k in
    rw (first, ◌>>◌, ◌>>=◌)
      (record {
        next = λ q. ground (arith, first);
        prev = λ q. ground arith;
        value = λ q. ground arith;
        head = refl;
        tail = refl;
        count = refl;
      })
after_head-Inserted s (x ∷ xs) node val k a =
    let (first, final) = Holds-ends (links s) (ends s) (x ∷ xs) k in
    rw (first, ◌>>◌, ◌>>=◌)
      (record {
        next = λ q. ground (arith, first);
        prev = λ q. ground (arith, a.0);
        value = λ q. ground arith;
        head = refl;
        tail = refl;
        count = refl;
      })

after_node-Inserted :
    (s : State) (p node val : ℕ) (e : Option ℕ)
    → s.next p ≡ e
    → p ≢ node
    → e ≢ some node
    → Returns
        (listnode_add_after s (some p) node (some val))
        (Inserted s (some p) e node (some val))
unfolding listnode_add_after listnode_new link
after_node-Inserted s p node val none h ne far =
    let apart = put-apart s.next node p none ne in
    rw (apart, h, ◌>>◌, ◌>>=◌)
      (record {
        next = λ q. ground (arith, h, ne);
        prev = λ q. ground arith;
        value = λ q. ground arith;
        head = refl;
        tail = refl;
        count = refl;
      })
after_node-Inserted s p node val (some y) h ne far =
    let apart = put-apart s.next node p none ne in
    rw (apart, h, ◌>>◌, ◌>>=◌)
      (record {
        next = λ q. ground (arith, h, ne);
        prev = λ q. ground (arith, far);
        value = λ q. ground arith;
        head = refl;
        tail = refl;
        count = refl;
      })

-- On a well-formed list that the new node is not in, of fewer than 2 ^ 32 - 1 nodes: listnode_add
-- returns, the node is last and carries the value, and all others keep their order and their values;
-- listnode_add_head does the same at the front.
pub add-Stores :
    (s : State) (xs : List ℕ) (node val : ℕ)
    → Holds (links s) (ends s) xs
    → Absent node xs
    → length xs + 1 < 2 ^ 32
    → Returns
        (listnode_add s node (some val))
        (Stores (xs ++ node ∷ []) (map s.value xs ++ some val ∷ []))
      × Returns
          (listnode_add_head s node (some val))
          (Stores (node ∷ xs) (some val ∷ map s.value xs))
add-Stores s xs node val k a small = (
  let k' = subst (λ t. Holds (links s) (ends s) t) (sym (append-nil xs)) k in
      let a' = subst (λ t. Absent node t) (sym (append-nil xs)) a in
      Returns-map (listnode_add s node (some val)) (add-Inserted s xs node val k a)
        (λ t. Inserted-Stores s t xs [] node (some val) k' a' (rw (append-nil xs) small)),
  Returns-map (listnode_add_head s node (some val)) (add_head-Inserted s xs node val k a)
      (λ t. Inserted-Stores s t [] xs node (some val) k a small),
)

after-Inserted :
    (s : State) (xs ys : List ℕ) (node val : ℕ)
    → Holds (links s) (ends s) (xs ++ ys)
    → Absent node (xs ++ ys)
    → Returns
        (listnode_add_after s (last_or none xs) node (some val))
        (Inserted s (last_or none xs) (first_or none ys) node (some val))
after-Inserted s [] ys node val k a = after_head-Inserted s ys node val k a
after-Inserted s (x ∷ xs) ys node val k a =
    let (left, right) = Absent-split node (x ∷ xs) ys a in
    let (l, e, ne) = has_last node x xs left in
    let part = (Linked-split s.next s.prev none s.head (x ∷ xs) ys s.tail none k.linked).0 in
    rw e (
      after_node-Inserted s l node val (first_or none ys)
        (Linked-last s.next s.prev none s.head x xs (last_or (some x) xs) (first_or none ys) l part
          e)
        ne (first_or-ne node ys right))

-- A list of `xs` and then `ys`, of fewer than 2 ^ 32 - 1 nodes, and a new node that is not in it:
-- listnode_add_after with the last of `xs`, or with NULL where there is none, puts the node and its
-- value between the two and leaves the others as they were.
after-Stores :
    (s : State) (xs ys : List ℕ) (node val : ℕ)
    → Holds (links s) (ends s) (xs ++ ys)
    → Absent node (xs ++ ys)
    → length (xs ++ ys) + 1 < 2 ^ 32
    → Returns
        (listnode_add_after s (last_or none xs) node (some val))
        (Stores (xs ++ node ∷ ys) (map s.value xs ++ some val ∷ map s.value ys))
after-Stores s xs ys node val k a small =
    Returns-map (listnode_add_after s (last_or none xs) node (some val))
      (after-Inserted s xs ys node val k a)
      (λ t. Inserted-Stores s t xs ys node (some val) k a small)

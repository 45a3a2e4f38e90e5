-- ===== src/Links/Segment.antt =====
-- Segments of linked lists: what they read, how they split and join, and how an end is changed.
use poplar.Prelude.{ℕ, ◌≡◌, refl, sym, subst, ◌∙◌, List, [], ◌∷◌, ◌++◌, Option, none, some, arith}
use poplar.Prelude.Distinct.{Absent, Distinct, Absent-split}
use poplar.Links.{put, put_if, Linked, last_or, first_or}

-- Two fields that agree on the nodes of a list.
abbrev pub Same : (ℕ → Option ℕ) → (ℕ → Option ℕ) → List ℕ → Type 0
Same f g [] = Unit
Same f g (x ∷ xs) = (f x ≡ g x) × Same f g xs

pub Same-refl : (f : ℕ → Option ℕ) (xs : List ℕ) → Same f f xs
Same-refl f [] = tt
Same-refl f (x ∷ xs) = (refl, Same-refl f xs)

pub Same-everywhere : (f g : ℕ → Option ℕ) (xs : List ℕ) → ((a : ℕ) → f a ≡ g a) → Same f g xs
Same-everywhere f g [] h = tt
Same-everywhere f g (x ∷ xs) h = (h x, Same-everywhere f g xs h)

pub Same-trans : (f g h : ℕ → Option ℕ) (xs : List ℕ) → Same f g xs → Same g h xs → Same f h xs
Same-trans f g h [] s t = tt
Same-trans f g h (x ∷ xs) s t = (s.0 ∙ t.0, Same-trans f g h xs s.1 t.1)

pub put-Same :
    (f : ℕ → Option ℕ) (a : ℕ) (v : Option ℕ) (xs : List ℕ) → Absent a xs → Same (put f a v) f xs
put-Same f a v [] h = tt
put-Same f a v (x ∷ xs) h = (ground (arith, h.0), put-Same f a v xs h.1)

-- The last node before a segment and the first after it are not in it.
pub put_first-Same :
    (f : ℕ → Option ℕ) (v : Option ℕ) (xs ys : List ℕ)
    → Distinct (xs ++ ys)
    → Same (put_if f (first_or none ys) v) f xs
put_first-Same f v [] ys d = tt
put_first-Same f v (x ∷ xs) [] d = Same-refl f (x ∷ xs)
put_first-Same f v (x ∷ xs) (y ∷ ys) (g, d) = (
  let ne = (Absent-split x xs (y ∷ ys) g).1.0 in ground (arith, ne),
  put_first-Same f v xs (y ∷ ys) d,
)

put_last_from :
    (f : ℕ → Option ℕ) (v : Option ℕ) (x : ℕ) (xs ys : List ℕ)
    → Distinct (x ∷ (xs ++ ys))
    → Same (put_if f (last_or (some x) xs) v) f ys
put_last_from f v x [] ys d = put-Same f x v ys d.0
put_last_from f v x (y ∷ xs) ys d = put_last_from f v y xs ys d.1

pub put_last-Same :
    (f : ℕ → Option ℕ) (v : Option ℕ) (xs ys : List ℕ)
    → Distinct (xs ++ ys)
    → Same (put_if f (last_or none xs) v) f ys
put_last-Same f v [] ys d = Same-refl f ys
put_last-Same f v (x ∷ xs) ys d = put_last_from f v x xs ys d

-- A segment reads the pointers of its own nodes only.
pub Linked-frame :
    (n p n' p' : ℕ → Option ℕ) (b s : Option ℕ) (xs : List ℕ) (l e : Option ℕ)
    → Linked n p b s xs l e
    → Same n' n xs
    → Same p' p xs
    → Linked n' p' b s xs l e
Linked-frame n p n' p' b s [] l e k sn sp = k
Linked-frame n p n' p' b s (x ∷ xs) l e (k, q, r) sn sp = (
  k,
  sp.0 ∙ q,
  subst (λ t. Linked n' p' (some x) t xs l e) (sym sn.0)
      (Linked-frame n p n' p' (some x) (n x) xs l e r sn.1 sp.1),
)

pub Linked-split :
    (n p : ℕ → Option ℕ) (b s : Option ℕ) (xs ys : List ℕ) (l e : Option ℕ)
    → Linked n p b s (xs ++ ys) l e
    → Linked n p b s xs (last_or b xs) (first_or e ys)
      × Linked n p (last_or b xs) (first_or e ys) ys l e
Linked-split n p b s [] [] l e k = ((k.0, refl), (refl, k.1))
Linked-split n p b s [] (y ∷ ys) l e k = ((k.0, refl), (refl, k.1, k.2))
Linked-split n p b s (x ∷ xs) ys l e (k, q, r) =
    let (left, right) = Linked-split n p (some x) (n x) xs ys l e r in ((k, q, left), right)

pub Linked-join :
    (n p : ℕ → Option ℕ) (b s : Option ℕ) (xs ys : List ℕ) (m k l e : Option ℕ)
    → Linked n p b s xs m k
    → Linked n p m k ys l e
    → Linked n p b s (xs ++ ys) l e
Linked-join n p b s [] ys m k l e (h, i) r =
    subst (λ t. Linked n p b t ys l e) (sym h) (subst (λ t. Linked n p t k ys l e) i r)
Linked-join n p b s (x ∷ xs) ys m k l e (h, q, t) r =
    (h, q, Linked-join n p (some x) (n x) xs ys m k l e t r)

pub last_or-append :
    (b : Option ℕ) (xs ys : List ℕ) → last_or b (xs ++ ys) ≡ last_or (last_or b xs) ys
last_or-append b [] ys = refl
last_or-append b (x ∷ xs) ys = last_or-append (some x) xs ys

-- Where a segment starts and ends is known from its nodes.
pub Linked-ends :
    (n p : ℕ → Option ℕ) (b s : Option ℕ) (xs : List ℕ) (l e : Option ℕ)
    → Linked n p b s xs l e
    → (s ≡ first_or e xs) × (l ≡ last_or b xs)
Linked-ends n p b s [] l e k = k
Linked-ends n p b s (x ∷ xs) l e (k, q, r) = (k, (Linked-ends n p (some x) (n x) xs l e r).1)

-- What precedes a segment, replaced in its first node.
pub Linked-start :
    (n p : ℕ → Option ℕ) (b b' s : Option ℕ) (ys : List ℕ) (l : Option ℕ)
    → Distinct ys
    → Linked n p b s ys l none
    → Linked n (put_if p (first_or none ys) b') b' s ys (last_or b' ys) none
Linked-start n p b b' s [] l d k = (k.0, refl)
Linked-start n p b b' s (y ∷ ys) l d (k, q, r) = (
  k,
  ground arith,
  Linked-frame n p n (put p y b') (some y) (n y) ys (last_or (some y) ys) none
      (subst (λ t. Linked n p (some y) (n y) ys t none)
        (Linked-ends n p (some y) (n y) ys l none r).1 r)
      (Same-refl n ys) (put-Same p y b' ys d.0),
)

put_if_other :
    (n : ℕ → Option ℕ) (e : Option ℕ) (x y : ℕ) (xs : List ℕ)
    → Absent x (y ∷ xs)
    → put_if n (last_or (some y) xs) e x ≡ n x
put_if_other n e x y [] h = ground (arith, h.0)
put_if_other n e x y (z ∷ xs) h = put_if_other n e x z xs h.1

-- What follows a segment, replaced in its last node; an empty segment starts at what follows it.
pub Linked-end :
    (n p : ℕ → Option ℕ) (b s : Option ℕ) (xs : List ℕ) (l e e' : Option ℕ)
    → Distinct xs
    → Linked n p b s xs l e
    → Linked (put_if n (last_or none xs) e') p b (first_or e' xs) xs l e'
Linked-end n p b s [] l e e' d k = (refl, k.1)
Linked-end n p b s (x ∷ []) l e e' d (k, q, r) = (refl, q, (ground arith, r.1))
Linked-end n p b s (x ∷ y ∷ xs) l e e' d (k, q, r) = (
  refl,
  q,
  subst (λ t. Linked (put_if n (last_or (some y) xs) e') p (some x) t (y ∷ xs) l e')
      (sym (put_if_other n e' x y xs d.0 ∙ r.0))
      (Linked-end n p (some x) (n x) (y ∷ xs) l e e' d.1 r),
)

-- What follows a segment is the successor of its last node.
pub Linked-last :
    (n p : ℕ → Option ℕ) (b s : Option ℕ) (x : ℕ) (xs : List ℕ) (l e : Option ℕ) (a : ℕ)
    → Linked n p b s (x ∷ xs) l e
    → last_or (some x) xs ≡ some a
    → n a ≡ e
Linked-last n p b s x [] l e a (k, q, r) h = ground (arith, r.0, h)
Linked-last n p b s x (y ∷ xs) l e a (k, q, r) h = Linked-last n p (some x) (n x) y xs l e a r h

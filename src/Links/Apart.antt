-- ===== src/Links/Apart.antt =====
-- Lists beside the one that a node goes into or out of.
use poplar.Prelude.{ℕ, sym, subst, List, [], ◌∷◌, ◌++◌, Option, none, some}
use poplar.Prelude.Distinct.{Absent}
use poplar.Links.Unlink.{Holds-frame, Holds-neighbours}
use poplar.Links.{Links, Ends, put, put_if, Holds, last_or, first_or, link, take_out}
use poplar.Links.Segment.{Same, Same-refl, Same-trans, put-Same}

-- No node of a list, or no neighbour, is one of `zs`.
abbrev pub Apart : List ℕ → List ℕ → Type 0
Apart [] zs = Unit
Apart (x ∷ xs) zs = Absent x zs × Apart xs zs

abbrev Avoids : Option ℕ → List ℕ → Type 0
Avoids none zs = Unit
Avoids (some a) zs = Absent a zs

last_or-Avoids :
    (b : Option ℕ) (xs zs : List ℕ) → Avoids b zs → Apart xs zs → Avoids (last_or b xs) zs
last_or-Avoids b [] zs k h = k
last_or-Avoids b (x ∷ xs) zs k h = last_or-Avoids (some x) xs zs h.0 h.1

first_or-Avoids : (xs zs : List ℕ) → Apart xs zs → Avoids (first_or none xs) zs
first_or-Avoids [] zs h = tt
first_or-Avoids (x ∷ xs) zs h = h.0

put_if-Same :
    (f : ℕ → Option ℕ) (b v : Option ℕ) (zs : List ℕ) → Avoids b zs → Same (put_if f b v) f zs
put_if-Same f none v zs h = Same-refl f zs
put_if-Same f (some a) v zs h = put-Same f a v zs h

-- A list apart from the one that a node goes into does not notice.
pub link-apart :
    (h : Links) (l : Ends) (v : ℕ) (xs ys zs : List ℕ)
    → Holds h l zs
    → Absent v zs
    → Apart xs zs
    → Apart ys zs
    → Holds (link h (last_or none xs) (first_or none ys) v) l zs
unfolding link
link-apart h l v xs ys zs k a ax ay =
    let b = last_or none xs in
    let e = first_or none ys in
    let n = put_if h.next b (some v) in
    let p = put_if h.prev e (some v) in
    Holds-frame h (record { next = put n v e; prev = put p v b }) l zs k
      (Same-trans (put n v e) n h.next zs (put-Same n v e zs a)
        (put_if-Same h.next b (some v) zs (last_or-Avoids none xs zs tt ax)))
      (Same-trans (put p v b) p h.prev zs (put-Same p v b zs a)
        (put_if-Same h.prev e (some v) zs (first_or-Avoids ys zs ay)))

-- Nor does a list apart from the one that a node goes out of.
pub take_out-apart :
    (h : Links) (l m : Ends) (v : ℕ) (xs ys zs : List ℕ)
    → Holds h m (xs ++ v ∷ ys)
    → Holds h l zs
    → Apart xs zs
    → Apart ys zs
    → Holds (take_out h v) l zs
unfolding take_out
take_out-apart h l m v xs ys zs k z ax ay =
    let (before, after) = Holds-neighbours h m v xs ys k in
    Holds-frame h
      (record {
        next = put_if h.next (h.prev v) (h.next v);
        prev = put_if h.prev (h.next v) (h.prev v);
      })
      l zs z
      (put_if-Same h.next (h.prev v) (h.next v) zs
        (subst (λ t. Avoids t zs) (sym before) (last_or-Avoids none xs zs tt ax)))
      (put_if-Same h.prev (h.next v) (h.prev v) zs
        (subst (λ t. Avoids t zs) (sym after) (first_or-Avoids ys zs ay)))

-- ===== src/Links.antt =====
-- Doubly linked lists in a heap of nodes, as common/list.c and eventsCtl/event_ctl.c keep them: the
-- pointers `next` and `prev` of all nodes are two functions, and a list is its two ends and a count.
pub mod Segment
pub mod Relink
pub mod Unlink
pub mod Apart
pub mod Walk
use poplar.Prelude.{
  ℕ, suc, ◌+◌, ◌-◌, ◌%◌, ◌^◌, ◌≡◌, List, [], ◌∷◌, Option, none, some, length, ◌==◌, if◌then◌else◌,
}
use poplar.Prelude.Distinct.{Distinct}

pub record Links : Type 0 where
  pub next : ℕ → Option ℕ
  pub prev : ℕ → Option ℕ

pub record Ends : Type 0 where
  pub head : Option ℕ
  pub tail : Option ℕ
  pub count : ℕ

-- `p->field = v`
abbrev pub put : (ℕ → Option ℕ) → ℕ → Option ℕ → ℕ → Option ℕ
put f p v q = if q == p then v else f q

-- `if (p) p->field = v`
abbrev pub put_if : (ℕ → Option ℕ) → Option ℕ → Option ℕ → ℕ → Option ℕ
put_if f none v = f
put_if f (some p) v = put f p v

-- From `s` the pointers lead through `xs` to `e`, and back from `l` to `b`.
abbrev pub Linked :
    (ℕ → Option ℕ) → (ℕ → Option ℕ) → Option ℕ → Option ℕ → List ℕ → Option ℕ → Option ℕ → Type 0
Linked next prev b s [] l e = (s ≡ e) × (l ≡ b)
Linked next prev b s (x ∷ xs) l e =
    (s ≡ some x) × (prev x ≡ b) × Linked next prev (some x) (next x) xs l e

-- The list is the distinct nodes `xs`, in order.
pub record Holds (h : Links) (l : Ends) (xs : List ℕ) : Type 0 where
  pub linked : Linked h.next h.prev none l.head xs l.tail none
  pub distinct : Distinct xs
  pub count : l.count ≡ length xs

-- The last node of a list, and the first; those of an empty list are given.
abbrev pub last_or : Option ℕ → List ℕ → Option ℕ
last_or b [] = b
last_or b (x ∷ xs) = last_or (some x) xs

abbrev pub first_or : Option ℕ → List ℕ → Option ℕ
first_or e [] = e
first_or e (x ∷ xs) = some x

-- A node put between its neighbours `b` and `e`.
unfoldable pub link : Links → Option ℕ → Option ℕ → ℕ → Links
link h b e v = record {
  next = put (put_if h.next b (some v)) v e;
  prev = put (put_if h.prev e (some v)) v b;
}

-- A node taken out: its neighbours point to one another.
unfoldable pub take_out : Links → ℕ → Links
take_out h v = record {
  next = put_if h.next (h.prev v) (h.next v);
  prev = put_if h.prev (h.next v) (h.prev v);
}

-- What a list's ends become: an end that had no neighbour on its side is the other pointer.
abbrev pub or_else : Option ℕ → Option ℕ → Option ℕ → Option ℕ
or_else none v w = v
or_else (some a) v w = w

-- ===== src/Prelude/Distinct.antt =====
-- Lists of distinct addresses, for what is linked by pointers.
use Prim.Native.Nat.{ℕ}
use mathlib.Core.Path.{◌≡◌, refl, sym}
use mathlib.Core.Logic.{◌≢◌}
use mathlib.Core.List.{List, [], ◌∷◌, ◌++◌}
use mathlib.Core.Option.{Option, none, some}
use native.Mathlib.Omega.{arith}

abbrev pub last : List ℕ → Option ℕ
last [] = none
last (x ∷ []) = some x
last (x ∷ y ∷ xs) = last (y ∷ xs)

abbrev pub Absent : ℕ → List ℕ → Type 0
Absent a [] = Unit
Absent a (x ∷ xs) = (a ≢ x) × Absent a xs

abbrev pub Distinct : List ℕ → Type 0
Distinct [] = Unit
Distinct (x ∷ xs) = Absent x xs × Distinct xs

pub last-ne : (a l : ℕ) (xs : List ℕ) → Absent a xs → last xs ≡ some l → a ≢ l
last-ne a l [] h e = cc
last-ne a l (x ∷ []) h e = ground arith
last-ne a l (x ∷ y ∷ xs) h e = last-ne a l (y ∷ xs) h.1 e

pub last-append : (xs : List ℕ) (s : ℕ) → last (xs ++ (s ∷ [])) ≡ some s
last-append [] s = refl
last-append (x ∷ []) s = refl
last-append (x ∷ y ∷ xs) s = last-append (y ∷ xs) s

pub Absent-append : (a s : ℕ) (xs : List ℕ) → a ≢ s → Absent a xs → Absent a (xs ++ (s ∷ []))
Absent-append a s [] ne h = (ne, tt)
Absent-append a s (x ∷ xs) ne h = (h.0, Absent-append a s xs ne h.1)

pub Distinct-append : (xs : List ℕ) (s : ℕ) → Distinct xs → Absent s xs → Distinct (xs ++ (s ∷ []))
Distinct-append [] s d h = (tt, tt)
Distinct-append (x ∷ xs) s d h =
    (Absent-append x s xs (λ e. h.0 (sym e)) d.0, Distinct-append xs s d.1 h.1)

pub last_exists : (x : ℕ) (xs : List ℕ) → (l : ℕ) × (last (x ∷ xs) ≡ some l)
last_exists x [] = (x, refl)
last_exists x (y ∷ xs) = last_exists y xs

pub Absent-split : (a : ℕ) (xs ys : List ℕ) → Absent a (xs ++ ys) → Absent a xs × Absent a ys
Absent-split a [] ys h = (tt, h)
Absent-split a (x ∷ xs) ys h = let (left, right) = Absent-split a xs ys h.1 in ((h.0, left), right)

pub Absent-join : (a : ℕ) (xs ys : List ℕ) → Absent a xs → Absent a ys → Absent a (xs ++ ys)
Absent-join a [] ys h k = k
Absent-join a (x ∷ xs) ys h k = (h.0, Absent-join a xs ys h.1 k)

pub Distinct-split : (xs ys : List ℕ) → Distinct (xs ++ ys) → Distinct xs × Distinct ys
Distinct-split [] ys d = (tt, d)
Distinct-split (x ∷ xs) ys (h, d) =
    let (left, right) = Distinct-split xs ys d in (((Absent-split x xs ys h).0, left), right)

pub Distinct-insert :
    (v : ℕ) (xs ys : List ℕ) → Distinct (xs ++ ys) → Absent v (xs ++ ys) → Distinct (xs ++ v ∷ ys)
Distinct-insert v [] ys d h = (h, d)
Distinct-insert v (x ∷ xs) ys (g, d) h =
    let (left, right) = Absent-split x xs ys g in
    (Absent-join x xs (v ∷ ys) left ((λ e. h.0 (sym e)), right), Distinct-insert v xs ys d h.1)

pub Distinct-remove :
    (v : ℕ) (xs ys : List ℕ) → Distinct (xs ++ v ∷ ys) → Distinct (xs ++ ys) × Absent v (xs ++ ys)
Distinct-remove v [] ys d = (d.1, d.0)
Distinct-remove v (x ∷ xs) ys (g, d) =
    let (left, right) = Absent-split x xs (v ∷ ys) g in
    let (rest, gone) = Distinct-remove v xs ys d in
    ((Absent-join x xs ys left right.1, rest), ((λ e. right.0 (sym e)), gone))

-- ===== src/Links/Walk.antt =====
-- The loop `for (p = head; p; p = p->next) if (...) break`, and the insertion that it finds the
-- place for.
use poplar.Prelude.{
  ℕ, zero, suc, ◌≤◌, ◌≡◌, refl, ap, Bool, true, false, Bool-cases, inl, inr, List, [], ◌∷◌, ◌++◌,
  map, Option, none, some, arith, length, if◌then◌else◌,
}
use poplar.Links.{Linked, first_or}

-- On fuel: where the loop stops, NULL included. `none` is no fuel left.
unfoldable pub find_from : ℕ → (ℕ → Option ℕ) → (ℕ → Bool) → Option ℕ → Option (Option ℕ)
find_from fuel next test none = some none
find_from zero next test (some p) = none
find_from (suc fuel) next test (some p) =
    let rest = find_from fuel next test (next p) in if test p then some (some p) else rest

-- The nodes before the first that passes the test, and the others.
abbrev pub before : (ℕ → Bool) → List ℕ → List ℕ
before test [] = []
before test (x ∷ xs) = if test x then [] else x ∷ before test xs

abbrev pub since : (ℕ → Bool) → List ℕ → List ℕ
since test [] = []
since test (x ∷ xs) = if test x then x ∷ xs else since test xs

pub before-since : (test : ℕ → Bool) (xs : List ℕ) → before test xs ++ since test xs ≡ xs
before-since test [] = refl
before-since test (x ∷ xs) = elim (Bool-cases (test x)) [
  | inl y ↦ rw y refl
  | inr n ↦ rw n (ap (λ t. x ∷ t) (before-since test xs))
]

-- With fuel for every node, the loop stops at the first node that passes the test.
pub find_from-Linked :
    (next prev : ℕ → Option ℕ) (test : ℕ → Bool) (fuel : ℕ) (b s : Option ℕ) (xs : List ℕ)
    (l : Option ℕ)
    → Linked next prev b s xs l none
    → length xs ≤ fuel
    → find_from fuel next test s ≡ some (first_or none (since test xs))
unfolding find_from
find_from-Linked next prev test fuel b s [] l k enough = rw k.0 refl
find_from-Linked next prev test zero b s (x ∷ xs) l k enough = ground arith
find_from-Linked next prev test (suc fuel) b s (x ∷ xs) l (k, q, r) enough =
    let rest = find_from-Linked next prev test fuel (some x) (next x) xs l r (omega arith) in
    elim (Bool-cases (test x)) [ inl y ↦ rw (k, y) refl | inr n ↦ rw (k, n) rest ]

-- The place of a new value among others: before the first that it is less than.
abbrev pub insert_by {ℓ} : {A : Type ℓ} → (A → A → Bool) → A → List A → List A
insert_by less w [] = w ∷ []
insert_by less w (x ∷ xs) = if less w x then w ∷ x ∷ xs else x ∷ insert_by less w xs

-- No value is less than the one before it.
abbrev pub Sorted {ℓ} : {A : Type ℓ} → (A → A → Bool) → List A → Type 0
Sorted less [] = Unit
Sorted less (x ∷ []) = Unit
Sorted less (x ∷ y ∷ xs) = (less y x ≡ false) × Sorted less (y ∷ xs)

insert_behind {ℓ} :
    {A : Type ℓ} (less : A → A → Bool) (w x : A) (xs : List A)
    → ((a b : A) → less a b ≡ true → less b a ≡ false)
    → less w x ≡ false
    → Sorted less (x ∷ xs)
    → Sorted less (x ∷ insert_by less w xs)
insert_behind less w x [] asym n s = (n, tt)
insert_behind less w x (y ∷ xs) asym n s = elim (Bool-cases (less w y)) [
  | inl t ↦ rw t (n, (asym w y t, s.1))
  | inr f ↦ rw f (s.0, insert_behind less w y xs asym f s.1)
]

-- Inserted there, a value leaves a sorted list sorted.
pub insert_by-Sorted {ℓ} :
    {A : Type ℓ} (less : A → A → Bool) (w : A) (xs : List A)
    → ((a b : A) → less a b ≡ true → less b a ≡ false)
    → Sorted less xs
    → Sorted less (insert_by less w xs)
insert_by-Sorted less w [] asym s = tt
insert_by-Sorted less w (x ∷ xs) asym s = elim (Bool-cases (less w x)) [
  | inl t ↦ rw t (asym w x t, s)
  | inr f ↦ rw f (insert_behind less w x xs asym f s)
]

-- A node put where the loop stops carries its value to the place that insert_by gives it.
pub map-before {ℓ} :
    {A : Type ℓ} (less : A → A → Bool) (value : ℕ → A) (w : A) (xs : List ℕ)
    → map value (before (λ p. less w (value p)) xs)
        ++ w ∷ map value (since (λ p. less w (value p)) xs)
      ≡ insert_by less w (map value xs)
map-before less value w [] = refl
map-before less value w (x ∷ xs) = elim (Bool-cases (less w (value x))) [
  | inl t ↦ rw t refl
  | inr f ↦ rw f (ap (λ t. value x ∷ t) (map-before less value w xs))
]

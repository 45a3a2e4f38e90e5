-- ===== src/Prelude/Lists.antt =====
-- Lists measured and indexed by native numbers, under the library's names. A C array is such a
-- list; `slice` is a run of its cells and `splice` a write of several.
use Prim.Native.Nat.{ℕ, zero, suc, ◌+◌, ◌-◌, ◌≤◌, ◌<◌, min}
use mathlib.Core.Path.{◌≡◌, refl, ap, sym, ◌∙◌}
use mathlib.Core.Logic.{◌≢◌}
use mathlib.Core.List.{List, [], ◌∷◌, ◌++◌}
use mathlib.Core.Option.{Option, none, some}
use native.Mathlib.Omega.{arith}

module _ {ℓ} {A : Type ℓ} where
  abbrev pub length : List A → ℕ
  length [] = 0
  length (x ∷ xs) = suc (length xs)

  abbrev pub get_elem? : List A → ℕ → Option A
  get_elem? [] i = none
  get_elem? (x ∷ xs) zero = some x
  get_elem? (x ∷ xs) (suc i) = get_elem? xs i

  abbrev pub get_or : List A → ℕ → A → A
  get_or [] i d = d
  get_or (x ∷ xs) zero d = x
  get_or (x ∷ xs) (suc i) d = get_or xs i d

  -- A write out of bounds changes nothing.
  abbrev pub set : List A → ℕ → A → List A
  set [] i v = []
  set (x ∷ xs) zero v = v ∷ xs
  set (x ∷ xs) (suc i) v = x ∷ set xs i v

  abbrev pub take : ℕ → List A → List A
  take zero xs = []
  take (suc n) [] = []
  take (suc n) (x ∷ xs) = x ∷ take n xs

  abbrev pub drop : ℕ → List A → List A
  drop zero xs = xs
  drop (suc n) [] = []
  drop (suc n) (x ∷ xs) = drop n xs

  abbrev pub replicate : ℕ → A → List A
  replicate zero a = []
  replicate (suc n) a = a ∷ replicate n a

  pub length-append : (xs ys : List A) → length (xs ++ ys) ≡ length xs + length ys
  length-append [] ys = omega arith
  length-append (x ∷ xs) ys = omega (arith, length-append xs ys)

  pub length-set : (xs : List A) (i : ℕ) (v : A) → length (set xs i v) ≡ length xs
  length-set [] i v = refl
  length-set (x ∷ xs) zero v = refl
  length-set (x ∷ xs) (suc i) v = ap suc (length-set xs i v)

  pub length-take : (n : ℕ) (xs : List A) → length (take n xs) ≡ min n (length xs)
  length-take zero xs = omega arith
  length-take (suc n) [] = omega arith
  length-take (suc n) (x ∷ xs) = omega (arith, length-take n xs)

  pub length-drop : (n : ℕ) (xs : List A) → length (drop n xs) ≡ length xs - n
  length-drop zero xs = omega arith
  length-drop (suc n) [] = omega arith
  length-drop (suc n) (x ∷ xs) = omega (arith, length-drop n xs)

  pub length-replicate : (n : ℕ) (a : A) → length (replicate n a) ≡ n
  length-replicate zero a = refl
  length-replicate (suc n) a = ap suc (length-replicate n a)

  pub get_elem?-eq-get_or :
      (xs : List A) (i : ℕ) (d : A) → i < length xs → get_elem? xs i ≡ some (get_or xs i d)
  get_elem?-eq-get_or [] i d h = absurd (omega arith)
  get_elem?-eq-get_or (x ∷ xs) zero d h = refl
  get_elem?-eq-get_or (x ∷ xs) (suc i) d h = get_elem?-eq-get_or xs i d (omega arith)

  pub get_elem?_out : (xs : List A) (i : ℕ) → length xs ≤ i → get_elem? xs i ≡ none
  get_elem?_out [] i h = refl
  get_elem?_out (x ∷ xs) zero h = absurd (omega arith)
  get_elem?_out (x ∷ xs) (suc i) h = get_elem?_out xs i (omega arith)

  pub take-length : (xs : List A) → take (length xs) xs ≡ xs
  take-length [] = refl
  take-length (x ∷ xs) = ap (λ t. x ∷ t) (take-length xs)

-- `n` cells from index `i` on.
module _ {ℓ} {A : Type ℓ} where
  unfoldable pub slice : List A → ℕ → ℕ → List A
  slice xs i n = take n (drop i xs)

  -- The cells from index `i` on replaced by `ys`: what memcpy leaves in the destination.
  unfoldable pub splice : List A → ℕ → List A → List A
  splice xs i ys = take i xs ++ (ys ++ drop (i + length ys) xs)

  take_all : (xs : List A) (n : ℕ) → length xs ≡ n → take n xs ≡ xs
  take_all [] zero e = refl
  take_all [] (suc n) e = refl
  take_all (x ∷ xs) zero e = ground (arith, e)
  take_all (x ∷ xs) (suc n) e = ap (λ t. x ∷ t) (take_all xs n (omega (arith, e)))

  pub slice_tail : (x : A) (xs : List A) (n : ℕ) → length xs ≡ n → slice (x ∷ xs) 1 n ≡ xs
  unfolding slice
  slice_tail x xs n e = take_all xs n e

  pub length-slice : (xs : List A) (i n : ℕ) → i + n ≤ length xs → length (slice xs i n) ≡ n
  unfolding slice
  length-slice xs i n h = omega (arith, length-take n (drop i xs), length-drop i xs)

  pub length-splice :
      (xs : List A) (i : ℕ) (ys : List A)
      → i + length ys ≤ length xs
      → length (splice xs i ys) ≡ length xs
  unfolding splice
  length-splice xs i ys h = omega (
    arith,
    length-append (take i xs) (ys ++ drop (i + length ys) xs),
    length-append ys (drop (i + length ys) xs),
    length-take i xs,
    length-drop (i + length ys) xs,
  )

  pub slice-zero : (xs : List A) (i : ℕ) → slice xs i 0 ≡ []
  unfolding slice
  slice-zero xs i = refl

  pub slice-suc :
      (xs : List A) (i n : ℕ) (d : A)
      → i < length xs
      → slice xs i (suc n) ≡ get_or xs i d ∷ slice xs (suc i) n
  unfolding slice
  slice-suc [] i n d h = absurd (omega arith)
  slice-suc (x ∷ xs) zero n d h = refl
  slice-suc (x ∷ xs) (suc i) n d h = slice-suc xs i n d (omega arith)

module _ {ℓ} {A : Type ℓ} where
  pub take-nil : (n : ℕ) → take {A = A} n [] ≡ []
  take-nil zero = refl
  take-nil (suc n) = refl

  pub drop-nil : (n : ℕ) → drop {A = A} n [] ≡ []
  drop-nil zero = refl
  drop-nil (suc n) = refl

  -- A write just past a slice extends it by that cell.
  pub slice-set :
      (xs : List A) (i n j : ℕ) (v : A)
      → j ≡ i + n
      → j < length xs
      → slice (set xs j v) i (suc n) ≡ slice xs i n ++ (v ∷ [])
  unfolding slice
  slice-set [] i n j v e h = absurd (omega arith)
  slice-set (x ∷ xs) zero zero zero v e h = refl
  slice-set (x ∷ xs) zero zero (suc j) v e h = absurd (omega arith)
  slice-set (x ∷ xs) zero (suc n) zero v e h = absurd (omega arith)
  slice-set (x ∷ xs) zero (suc n) (suc j) v e h =
      ap (λ t. x ∷ t) (slice-set xs 0 n j v (omega arith) (omega arith))
  slice-set (x ∷ xs) (suc i) n zero v e h = absurd (omega arith)
  slice-set (x ∷ xs) (suc i) n (suc j) v e h = slice-set xs i n j v (omega arith) (omega arith)

  pub take-take : (n m : ℕ) (xs : List A) → n ≤ m → take n (take m xs) ≡ take n xs
  take-take zero m xs h = refl
  take-take (suc n) zero xs h = absurd (omega arith)
  take-take (suc n) (suc m) [] h = refl
  take-take (suc n) (suc m) (x ∷ xs) h = ap (λ t. x ∷ t) (take-take n m xs (omega arith))

  -- `k` is `m - n`.
  pub drop-take : (n m k : ℕ) (xs : List A) → k ≡ m - n → drop n (take m xs) ≡ take k (drop n xs)
  drop-take zero m k xs e = ap (λ (t : ℕ). take t xs) (omega arith)
  drop-take (suc n) zero zero xs e = refl
  drop-take (suc n) zero (suc k) xs e = absurd (omega arith)
  drop-take (suc n) (suc m) k [] e = sym (take-nil k)
  drop-take (suc n) (suc m) k (x ∷ xs) e = drop-take n m k xs (omega arith)

  -- `k` is `i + n`.
  pub drop-drop : (n i k : ℕ) (xs : List A) → k ≡ i + n → drop n (drop i xs) ≡ drop k xs
  drop-drop n zero k xs e = ap (λ (t : ℕ). drop t xs) (omega arith)
  drop-drop n (suc i) zero xs e = absurd (omega arith)
  drop-drop n (suc i) (suc k) [] e = drop-nil n
  drop-drop n (suc i) (suc k) (x ∷ xs) e = drop-drop n i k xs (omega arith)

  -- The first cells of a slice, and what follows them.
  pub take-slice : (xs : List A) (i n m : ℕ) → n ≤ m → take n (slice xs i m) ≡ slice xs i n
  unfolding slice
  take-slice xs i n m h = take-take n m (drop i xs) h

  pub drop-slice : (xs : List A) (i n m : ℕ) → drop n (slice xs i m) ≡ slice xs (i + n) (m - n)
  unfolding slice
  drop-slice xs i n m =
      drop-take n m (m - n) (drop i xs) refl ∙ ap (take (m - n)) (drop-drop n i (i + n) xs refl)

module _ {ℓ} {A : Type ℓ} where
  pub get_or-set_self :
      (xs : List A) (i : ℕ) (v d : A) → i < length xs → get_or (set xs i v) i d ≡ v
  get_or-set_self [] i v d h = absurd (omega arith)
  get_or-set_self (x ∷ xs) zero v d h = refl
  get_or-set_self (x ∷ xs) (suc i) v d h = get_or-set_self xs i v d (omega arith)

  pub get_or-set_at :
      (xs : List A) (i j : ℕ) (v d : A) → i ≡ j → i < length xs → get_or (set xs i v) j d ≡ v
  get_or-set_at xs i j v d e h =
      sym (ap (λ t. get_or (set xs i v) t d) e) ∙ get_or-set_self xs i v d h

  pub get_or-set_ne :
      (xs : List A) (i j : ℕ) (v d : A) → i ≢ j → get_or (set xs i v) j d ≡ get_or xs j d
  get_or-set_ne [] i j v d h = refl
  get_or-set_ne (x ∷ xs) zero zero v d h = absurd (h refl)
  get_or-set_ne (x ∷ xs) zero (suc j) v d h = refl
  get_or-set_ne (x ∷ xs) (suc i) zero v d h = refl
  get_or-set_ne (x ∷ xs) (suc i) (suc j) v d h = get_or-set_ne xs i j v d (λ e. h (ap suc e))

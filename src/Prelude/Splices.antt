-- ===== src/Prelude/Splices.antt =====
-- What a slice sees of a splice.
use Prim.Native.Nat.{ℕ, zero, suc, ◌+◌, ◌-◌, ◌≤◌}
use mathlib.Core.Path.{◌≡◌, refl, ap, ◌∙◌}
use mathlib.Core.List.{List, [], ◌∷◌, ◌++◌, append-nil}
use native.Mathlib.Omega.{arith}
use poplar.Prelude.Lists.{length, take, drop, slice, splice, drop-take, take-take}

module _ {ℓ} {A : Type ℓ} where
  pub take-append : (xs ys : List A) (k : ℕ) → k ≡ length xs → take k (xs ++ ys) ≡ xs
  take-append [] ys zero e = refl
  take-append [] ys (suc k) e = absurd (omega arith)
  take-append (x ∷ xs) ys zero e = absurd (omega arith)
  take-append (x ∷ xs) ys (suc k) e = ap (λ t. x ∷ t) (take-append xs ys k (omega arith))

  splice-cons : (x : A) (xs ys : List A) (j : ℕ) → splice (x ∷ xs) (suc j) ys ≡ x ∷ splice xs j ys
  unfolding splice
  splice-cons x xs ys j =
      let e : suc j + length ys ≡ suc (j + length ys) = omega arith in
      ap (λ (t : ℕ). x ∷ (take j xs ++ (ys ++ drop t (x ∷ xs)))) e

  -- A copy just past a slice extends it by what is copied. `j` is the end of the slice and `k` the
  -- length of the longer one.
  pub slice-splice :
      (xs ys : List A) (i n j k : ℕ)
      → j ≡ i + n
      → k ≡ n + length ys
      → j ≤ length xs
      → slice (splice xs j ys) i k ≡ slice xs i n ++ ys
  unfolding slice splice
  slice-splice xs ys zero zero zero k e f h = take-append ys _ k (omega arith)
  slice-splice xs ys (suc i) n zero k e f h = absurd (omega arith)
  slice-splice xs ys zero (suc n) zero k e f h = absurd (omega arith)
  slice-splice [] ys i n (suc j) k e f h = absurd (omega arith)
  slice-splice (x ∷ xs) ys zero zero (suc j) k e f h = absurd (omega arith)
  slice-splice (x ∷ xs) ys zero (suc n) (suc j) zero e f h = absurd (omega arith)
  slice-splice (x ∷ xs) ys zero (suc n) (suc j) (suc k) e f h =
      ap (take (suc k)) (splice-cons x xs ys j)
      ∙ ap (λ t. x ∷ t) (slice-splice xs ys 0 n j k (omega arith) (omega arith) (omega arith))
  slice-splice (x ∷ xs) ys (suc i) n (suc j) k e f h =
      ap (λ t. take k (drop (suc i) t)) (splice-cons x xs ys j)
      ∙ slice-splice xs ys i n j k (omega arith) (omega arith) (omega arith)

  drop-all : (xs : List A) (n : ℕ) → length xs ≤ n → drop n xs ≡ []
  drop-all [] zero h = refl
  drop-all [] (suc n) h = refl
  drop-all (x ∷ xs) zero h = absurd (omega arith)
  drop-all (x ∷ xs) (suc n) h = drop-all xs n (omega arith)

  -- A copy over the whole of an object of the same length.
  pub splice_whole : (xs ys : List A) → length xs ≡ length ys → splice xs 0 ys ≡ ys
  unfolding splice
  splice_whole xs ys e =
      ap (λ t. ys ++ t) (drop-all xs (0 + length ys) (omega arith)) ∙ append-nil ys

  pub slice-take : (xs : List A) (i n : ℕ) → slice (take n xs) i (n - i) ≡ slice xs i (n - i)
  unfolding slice
  slice-take xs i n =
      ap (take (n - i)) (drop-take i n (n - i) xs refl)
      ∙ take-take (n - i) (n - i) (drop i xs) (omega arith)

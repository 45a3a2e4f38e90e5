-- ===== src/Prelude/Int.antt =====
-- Signed numbers of C, as far as the code reckons with them: none of them overflows.
use Prim.Native.Nat.{ℕ, zero, suc, ◌+◌, ◌-◌, ◌*◌, ◌/◌, ◌%◌}
use mathlib.Core.Path.{◌≡◌, refl}
use mathlib.Core.Bool.{Bool, true, false}
use native.Mathlib.Omega.{arith}
use poplar.Prelude.Tests.{ltb, ◌==◌, if◌then◌else◌}

-- `negsuc n` is -(n + 1).
pub data ℤ : Type 0 where
  pos : ℕ → ℤ
  negsuc : ℕ → ℤ

-- `n < 0`
abbrev pub is_negative : ℤ → Bool
is_negative (pos n) = false
is_negative (negsuc n) = true

infixl 6 ◌+ℤ◌ ◌-ℤ◌
abbrev pub ◌+ℤ◌ : ℤ → ℤ → ℤ
pos a +ℤ pos b = pos (a + b)
pos a +ℤ negsuc b = if ltb b a then pos (a - b - 1) else negsuc (b - a)
negsuc a +ℤ pos b = if ltb a b then pos (b - a - 1) else negsuc (a - b)
negsuc a +ℤ negsuc b = negsuc (a + b + 1)

abbrev pub neg : ℤ → ℤ
neg (pos zero) = pos zero
neg (pos (suc n)) = negsuc n
neg (negsuc n) = pos (n + 1)

abbrev pub ◌-ℤ◌ : ℤ → ℤ → ℤ
a -ℤ b = a +ℤ neg b

infix 50 ◌==ℤ◌
abbrev pub ◌==ℤ◌ : ℤ → ℤ → Bool
pos a ==ℤ pos b = a == b
pos a ==ℤ negsuc b = false
negsuc a ==ℤ pos b = false
negsuc a ==ℤ negsuc b = a == b

-- Division of C, which cuts towards 0.
abbrev pub quot : ℤ → ℕ → ℤ
quot (pos a) n = pos (a / n)
quot (negsuc a) n = neg (pos ((a + 1) / n))

abbrev pub rem : ℤ → ℕ → ℤ
rem (pos a) n = pos (a % n)
rem (negsuc a) n = neg (pos ((a + 1) % n))

abbrev pub times : ℤ → ℕ → ℤ
times (pos a) n = pos (a * n)
times (negsuc a) n = neg (pos ((a + 1) * n))

-- Of two differences, one each way, one at most is negative.
pub difference_asym : (a b : ℤ) → is_negative (a -ℤ b) ≡ true → is_negative (b -ℤ a) ≡ false
difference_asym (pos zero) (pos zero) h = ground arith
difference_asym (pos (suc a)) (pos zero) h = ground arith
difference_asym (pos zero) (pos (suc b)) h = ground arith
difference_asym (pos (suc a)) (pos (suc b)) h = ground arith
difference_asym (pos zero) (negsuc b) h = ground arith
difference_asym (pos (suc a)) (negsuc b) h = ground arith
difference_asym (negsuc a) (pos zero) h = ground arith
difference_asym (negsuc a) (pos (suc b)) h = ground arith
difference_asym (negsuc a) (negsuc b) h = ground arith

pub ==ℤ-sym : (a b : ℤ) → (a ==ℤ b) ≡ (b ==ℤ a)
==ℤ-sym (pos a) (pos b) = ground arith
==ℤ-sym (pos a) (negsuc b) = refl
==ℤ-sym (negsuc a) (pos b) = refl
==ℤ-sym (negsuc a) (negsuc b) = ground arith

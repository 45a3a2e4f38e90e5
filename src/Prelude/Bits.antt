-- ===== src/Prelude/Bits.antt =====
-- `|` of disjoint fields and `&` with a mask of low bits, as arithmetic. The native operations
-- stand for a recursion on binary digits; each law goes digit by digit.
use Prim.Native.Nat.{
  ℕ, zero, suc, ◌+◌, ◌-◌, ◌*◌, ◌/◌, ◌%◌, ◌^◌, ◌≤◌, ◌<◌, min, max, bit_and, bit_or, digits,
  bit_and-bitwise, bit_or-bitwise,
}
use mathlib.Core.Bool.{Bool, true, false}
use poplar.Prelude.Tests.{if◌then◌else◌}
use mathlib.Core.Path.{◌≡◌, refl, ap, ◌∙◌}
use native.Mathlib.Nat.{
  pow-suc, one-le-pow, mod-lt, mod-eq_of_lt, mod-add-div, mul-add-mod_self_left,
}
use native.Mathlib.Omega.{arith}

-- `digits` with any two sufficient amounts of fuel.
module _ (last : ℕ → ℕ) (op : ℕ → ℕ → ℕ) where
  digits_enough : (k l x y : ℕ) → x ≤ k → x ≤ l → digits last op k x y ≡ digits last op l x y
  digits_enough k l zero y hk hl = both k l
    where
      both : (i j : ℕ) → digits last op i 0 y ≡ digits last op j 0 y
      both zero zero = refl
      both zero (suc j) = refl
      both (suc i) zero = refl
      both (suc i) (suc j) = refl
  digits_enough zero l (suc x) y hk hl = absurd (omega arith)
  digits_enough (suc k) zero (suc x) y hk hl = absurd (omega arith)
  digits_enough (suc k) (suc l) (suc x) y hk hl =
      ap (λ (t : ℕ). t * 2 + op (suc x % 2) (y % 2))
        (digits_enough k l (suc x / 2) (y / 2) (omega arith) (omega arith))

-- The lowest digit of `x | y`.
bit_or-digit : (x y : ℕ) → bit_or x y ≡ bit_or (x / 2) (y / 2) * 2 + max (x % 2) (y % 2)
bit_or-digit zero y = omega (arith, bit_or-bitwise 0 y, bit_or-bitwise 0 (y / 2))
bit_or-digit (suc x) y = omega (
  arith,
  bit_or-bitwise (suc x) y,
  bit_or-bitwise (suc x / 2) (y / 2),
  digits_enough (λ b. b) max x (suc x / 2) (suc x / 2) (y / 2) (omega arith) (omega arith),
)

-- The lowest digit of `x & y`.
bit_and-digit : (x y : ℕ) → bit_and x y ≡ bit_and (x / 2) (y / 2) * 2 + min (x % 2) (y % 2)
bit_and-digit zero y = omega (arith, bit_and-bitwise 0 y, bit_and-bitwise 0 (y / 2))
bit_and-digit (suc x) y = omega (
  arith,
  bit_and-bitwise (suc x) y,
  bit_and-bitwise (suc x / 2) (y / 2),
  digits_enough (λ b. 0) min x (suc x / 2) (suc x / 2) (y / 2) (omega arith) (omega arith),
)

bit_or-zero_below : (n x : ℕ) → x ≤ n → bit_or x 0 ≡ x
bit_or-zero_below n zero h = refl
bit_or-zero_below zero (suc x) h = absurd (omega arith)
bit_or-zero_below (suc n) (suc x) h =
    omega (arith, bit_or-digit (suc x) 0, bit_or-zero_below n (suc x / 2) (omega arith))

bit_and-zero_below : (n x : ℕ) → x ≤ n → bit_and x 0 ≡ 0
bit_and-zero_below n zero h = refl
bit_and-zero_below zero (suc x) h = absurd (omega arith)
bit_and-zero_below (suc n) (suc x) h =
    omega (arith, bit_and-digit (suc x) 0, bit_and-zero_below n (suc x / 2) (omega arith))

pub bit_and-zero : (x : ℕ) → bit_and x 0 ≡ 0
bit_and-zero x = bit_and-zero_below x x (omega arith)

double : (x k : ℕ) → x * 2 ^ suc k ≡ 2 * (x * 2 ^ k)
double x k = omega (arith, ap (λ (t : ℕ). x * t) (pow-suc 2 k))

-- A field above bit `k` and one below it do not meet, so `|` adds them.
pub bit_or-eq-add : (k x y : ℕ) → y < 2 ^ k → bit_or (x * 2 ^ k) y ≡ x * 2 ^ k + y
bit_or-eq-add zero x y h =
    let e : y ≡ 0 = omega arith in
    omega (arith, ap (λ t. bit_or (x * 1) t) e, bit_or-zero_below (x * 1) (x * 1) (omega arith))
bit_or-eq-add (suc k) x y h =
    ground
      (arith, double x k, pow-suc 2 k, bit_or-digit (x * 2 ^ suc k) y, bit_or-eq-add k x (y / 2))

mod-double : (x m : ℕ) → 0 < m → x % (2 * m) ≡ (x / 2 % m) * 2 + x % 2
mod-double x m h =
    let low : ℕ = (x / 2 % m) * 2 + x % 2 in
    let whole : x ≡ 2 * m * (x / 2 / m) + low = omega (arith, mod-add-div (x / 2) m) in
    let small : low < 2 * m = omega (arith, mod-lt (x / 2) h) in
    ap (λ (t : ℕ). t % (2 * m)) whole
    ∙ mul-add-mod_self_left (2 * m) (x / 2 / m) low
    ∙ mod-eq_of_lt small

-- A mask of the `k` low bits takes the remainder by 2 ^ k.
pub bit_and_mask : (k x : ℕ) → bit_and x (2 ^ k - 1) ≡ x % 2 ^ k
bit_and_mask zero x = omega (arith, bit_and-zero x)
bit_and_mask (suc k) x = ground (
  arith,
  pow-suc 2 k,
  one-le-pow k 2,
  bit_and-digit x (2 ^ suc k - 1),
  bit_and_mask k (x / 2),
  mod-double x (2 ^ k),
)

-- The test of every number below a bound.
unfoldable pub holds_to : (ℕ → Bool) → ℕ → Bool
holds_to p zero = true
holds_to p (suc n) = if p n then holds_to p n else false

pub holds_to_at : (p : ℕ → Bool) (n x : ℕ) → x < n → holds_to p n ≡ true → p x ≡ true
unfolding holds_to
holds_to_at p zero x lt h = absurd (omega arith)
holds_to_at p (suc n) x lt h = ground (arith, holds_to_at p n x)

-- ===== src/Run.antt =====
-- Runs of C code that may stop: a failed assertion (the build files do not set NDEBUG), the
-- abort() of common/memory.c, or undefined behaviour.
use poplar.Prelude.{
  ℕ, ◌+◌, ◌≡◌, refl, Bool, true, false, ◌&&◌, List, Option, none, some, get_elem?, set, length,
  take, slice, splice, ltb, leb, if◌then◌else◌,
}

pub data Fault : Type 0 where
  assert_failed aborted out_of_bounds null_pointer division_by_zero int_overflow : Fault

pub data Run {ℓ} (A : Type ℓ) : Type ℓ where
  ok : A → Run A
  fault : Fault → Run A

infixl 5 ◌>>=◌ ◌>>◌
abbrev pub ◌>>=◌ {ℓ κ} : {A : Type ℓ} {B : Type κ} → Run A → (A → Run B) → Run B
ok a >>= f = f a
fault e >>= f = fault e

abbrev pub ◌>>◌ {ℓ} : {B : Type ℓ} → Run (Unit {0}) → Run B → Run B
m >> k = m >>= λ _. k

-- The run comes to an end without a fault, and its result is as `P` says.
abbrev pub Returns {ℓ} : {A : Type ℓ} → Run A → (A → Type 0) → Type 0
Returns (ok a) P = P a
Returns (fault e) P = ⊥

pub Returns-map {ℓ} :
    {A : Type ℓ} {P Q : A → Type 0} (m : Run A) → Returns m P → ((a : A) → P a → Q a) → Returns m Q
Returns-map (ok a) p f = f a p
Returns-map (fault e) p f = elim p [ ]

-- A run on fuel that has enough of it, and whose result is as `P` says.
abbrev pub Completes {ℓ} : {A : Type ℓ} → Option A → (A → Type 0) → Type 0
Completes (some a) P = P a
Completes none P = ⊥

pub Completes-map {ℓ} :
    {A : Type ℓ} {P Q : A → Type 0} (m : Option A)
    → Completes m P
    → ((a : A) → P a → Q a)
    → Completes m Q
Completes-map (some a) p f = f a p
Completes-map none p f = elim p [ ]

pub Completes-some {ℓ} :
    {A : Type ℓ} {P : A → Type 0} (m : Option A) → Completes m P → (a : A) × (m ≡ some a) × P a
Completes-some (some a) p = (a, refl, p)
Completes-some none p = elim p [ ]

pub Returns-ok {ℓ} :
    {A : Type ℓ} {P : A → Type 0} (m : Run A) → Returns m P → (a : A) × (m ≡ ok a) × P a
Returns-ok (ok a) p = (a, refl, p)
Returns-ok (fault e) p = elim p [ ]

-- `assert (b)`
abbrev pub assert : Bool → Run (Unit {0})
assert true = ok tt
assert false = fault assert_failed

-- `xs[i]`
unfoldable pub load : List ℕ → ℕ → Run ℕ
load xs i = elim (get_elem? xs i) [ none ↦ fault out_of_bounds | some x ↦ ok x ]

-- `xs[i] = v`
unfoldable pub store : List ℕ → ℕ → ℕ → Run (List ℕ)
store xs i v = if ltb i (length xs) then ok (set xs i v) else fault out_of_bounds

-- `memcpy (xs + i, src, n)`, which reads and writes inside both objects or is undefined.
unfoldable pub memcpy : List ℕ → ℕ → List ℕ → ℕ → Run (List ℕ)
memcpy xs i src n =
    if leb n (length src) && leb (i + n) (length xs)
    then ok (splice xs i (take n src))
    else fault out_of_bounds

-- `memcpy (dst, xs + i, n)`, as the bytes that reach `dst`.
unfoldable pub copy_from : List ℕ → ℕ → ℕ → Run (List ℕ)
copy_from xs i n = if leb (i + n) (length xs) then ok (slice xs i n) else fault out_of_bounds

pub bind_assoc {ℓ κ μ} :
    {A : Type ℓ} {B : Type κ} {C : Type μ} (m : Run A) (f : A → Run B) (g : B → Run C)
    → ((m >>= f) >>= g) ≡ (m >>= λ a. f a >>= g)
bind_assoc (ok a) f g = refl
bind_assoc (fault e) f g = refl

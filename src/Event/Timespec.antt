-- ===== src/Event/Timespec.antt =====
-- eventsCtl/event_ctl.c: instants. A long keeps its sign; none of the sums here overflows one.
use poplar.Prelude.{
  ℕ, zero, suc, ◌+◌, ◌*◌, ◌/◌, ◌%◌, ◌≤◌, ◌<◌, ◌≡◌, refl, sym, ap, subst, ◌∙◌, Bool, true, false,
  Bool-cases, inl, inr, Option, none, some, arith, if◌then◌else◌,
}
use poplar.Prelude.Int.{ℤ, pos, negsuc, ◌+ℤ◌, ◌-ℤ◌, ◌==ℤ◌, is_negative, difference_asym, ==ℤ-sym}

pub record Timespec : Type 0 where
  pub tv_sec : ℤ
  pub tv_nsec : ℤ

abbrev pub timer_second_micro : ℕ
timer_second_micro = 1000000000

unfoldable pub timespec_cmp : Timespec → Timespec → ℤ
timespec_cmp a b = if a.tv_sec ==ℤ b.tv_sec then a.tv_nsec -ℤ b.tv_nsec else a.tv_sec -ℤ b.tv_sec

-- What an iteration of the first loop makes of an instant.
abbrev carried : Timespec → Timespec
carried a = record { tv_sec = a.tv_sec +ℤ pos 1; tv_nsec = a.tv_nsec -ℤ pos timer_second_micro }

-- The first loop of timespec_adjust, on fuel.
unfoldable pub carry : ℕ → Timespec → Option Timespec
carry zero a = if is_negative (a.tv_nsec -ℤ pos timer_second_micro) then some a else none
carry (suc fuel) a =
    let rest = carry fuel (carried a) in
    if is_negative (a.tv_nsec -ℤ pos timer_second_micro) then some a else rest

-- The second loop.
unfoldable pub borrow : ℕ → Timespec → Option Timespec
borrow zero a = if is_negative a.tv_nsec then none else some a
borrow (suc fuel) a =
    let rest =
      borrow fuel
        (record { tv_sec = a.tv_sec -ℤ pos 1; tv_nsec = a.tv_nsec +ℤ pos timer_second_micro }) in
    if is_negative a.tv_nsec then rest else some a

unfoldable pub timespec_adjust : ℕ → Timespec → Option Timespec
unfolding carry borrow
timespec_adjust fuel a = elim (carry fuel a) [
  | none ↦ none
  | some b ↦ elim (borrow fuel b) [
    | none ↦ none
    | some c ↦
        if is_negative c.tv_sec then some (record { tv_sec = pos 0; tv_nsec = pos 0 }) else some c
  ]
]

-- `timespec_cmp (a, b) < 0`
abbrev pub earlier : Timespec → Timespec → Bool
earlier a b = is_negative (timespec_cmp a b)

-- Of two instants, one at most is earlier than the other.
pub earlier_asym : (a b : Timespec) → earlier a b ≡ true → earlier b a ≡ false
unfolding timespec_cmp
earlier_asym a b h = elim (Bool-cases (a.tv_sec ==ℤ b.tv_sec)) [
  | inl y ↦
      let back = sym (==ℤ-sym a.tv_sec b.tv_sec) ∙ y in
      let h' =
        subst (λ c. is_negative (if c then a.tv_nsec -ℤ b.tv_nsec else a.tv_sec -ℤ b.tv_sec) ≡ true)
          y h in
      subst (λ c. is_negative (if c then b.tv_nsec -ℤ a.tv_nsec else b.tv_sec -ℤ a.tv_sec) ≡ false)
        (sym back) (difference_asym a.tv_nsec b.tv_nsec h')
  | inr n ↦
      let back = sym (==ℤ-sym a.tv_sec b.tv_sec) ∙ n in
      let h' =
        subst (λ c. is_negative (if c then a.tv_nsec -ℤ b.tv_nsec else a.tv_sec -ℤ b.tv_sec) ≡ true)
          n h in
      subst (λ c. is_negative (if c then b.tv_nsec -ℤ a.tv_nsec else b.tv_sec -ℤ a.tv_sec) ≡ false)
        (sym back) (difference_asym a.tv_sec b.tv_sec h')
]

plus_zero : (s : ℤ) → s +ℤ pos 0 ≡ s
plus_zero (pos a) = ground arith
plus_zero (negsuc a) = ground arith

plus_plus : (s : ℤ) (n : ℕ) → (s +ℤ pos 1) +ℤ pos n ≡ s +ℤ pos (suc n)
plus_plus (pos a) n = ap pos (omega arith)
plus_plus (negsuc zero) n = ground arith
plus_plus (negsuc (suc a)) n = ground arith

below : (r : ℕ) → r < timer_second_micro → is_negative (pos r -ℤ pos timer_second_micro) ≡ true
below r h = ground arith

above : (n : ℕ) → is_negative (pos (timer_second_micro + n) -ℤ pos timer_second_micro) ≡ false
above n = ground arith

less_second : (n : ℕ) → pos (timer_second_micro + n) -ℤ pos timer_second_micro ≡ pos n
less_second n = ground arith

carry_stop :
    (fuel : ℕ) (a : Timespec)
    → is_negative (a.tv_nsec -ℤ pos timer_second_micro) ≡ true
    → carry fuel a ≡ some a
unfolding carry
carry_stop zero a h = ap (λ b. if b then some a else none) h
carry_stop (suc fuel) a h = ap (λ b. if b then some a else carry fuel (carried a)) h

carry_on :
    (fuel : ℕ) (a : Timespec)
    → is_negative (a.tv_nsec -ℤ pos timer_second_micro) ≡ false
    → carry (suc fuel) a ≡ carry fuel (carried a)
unfolding carry
carry_on fuel a h = ap (λ b. if b then some a else carry fuel (carried a)) h

carry-lem :
    (q fuel r : ℕ) (s : ℤ)
    → r < timer_second_micro
    → q ≤ fuel
    → carry fuel (record { tv_sec = s; tv_nsec = pos (q * timer_second_micro + r) })
      ≡ some (record { tv_sec = s +ℤ pos q; tv_nsec = pos r })
carry-lem zero fuel r s h enough =
    ap (λ m. carry fuel (record { tv_sec = s; tv_nsec = pos m })) (omega arith)
    ∙ carry_stop fuel (record { tv_sec = s; tv_nsec = pos r }) (below r h)
    ∙ ap (λ t. some (record { tv_sec = t; tv_nsec = pos r })) (sym (plus_zero s))
carry-lem (suc q) zero r s h enough = ground arith
carry-lem (suc q) (suc fuel) r s h enough =
    let n = q * timer_second_micro + r in
    ap (λ m. carry (suc fuel) (record { tv_sec = s; tv_nsec = pos m })) (omega arith)
    ∙ carry_on fuel (record { tv_sec = s; tv_nsec = pos (timer_second_micro + n) }) (above n)
    ∙ ap (λ t. carry fuel (record { tv_sec = s +ℤ pos 1; tv_nsec = t })) (less_second n)
    ∙ carry-lem q fuel r (s +ℤ pos 1) h (omega arith)
    ∙ ap (λ t. some (record { tv_sec = t; tv_nsec = pos r })) (plus_plus s q)

no_borrow :
    (fuel s n : ℕ)
    → borrow fuel (record { tv_sec = pos s; tv_nsec = pos n })
      ≡ some (record { tv_sec = pos s; tv_nsec = pos n })
unfolding borrow
no_borrow zero s n = refl
no_borrow (suc fuel) s n = refl

-- An instant that is not negative, adjusted with fuel for every second that its nanoseconds make,
-- has less than one second of nanoseconds, and what was above is in the seconds.
adjust_lem :
    (fuel s n : ℕ)
    → n / timer_second_micro ≤ fuel
    → timespec_adjust fuel (record { tv_sec = pos s; tv_nsec = pos n })
      ≡ some (record {
        tv_sec = pos (s + n / timer_second_micro);
        tv_nsec = pos (n % timer_second_micro);
      })
unfolding timespec_adjust
adjust_lem fuel s n enough =
    let q = n / timer_second_micro in
    let r = n % timer_second_micro in
    let whole : q * timer_second_micro + r ≡ n = omega arith in
    let carried_to =
      sym (ap (λ m. carry fuel (record { tv_sec = pos s; tv_nsec = pos m })) whole)
      ∙ carry-lem q fuel r (pos s) (omega arith) enough in
    rw (timespec_adjust, carried_to, no_borrow fuel (s + q) r) refl

-- ===== src/Util/Compare.antt =====
-- lwrcmp compares like the order of the chars in lower case.
use poplar.Prelude.{
  ℕ, zero, suc, ◌≤◌, ◌<◌, ◌≡◌, inl, inr, refl, ap, sym, true, false, List, [], ◌∷◌, arith, length,
  ap₂, ltb→lt, get_or, drop, ◌≢◌, ltb, ◌↔◌, map, take, Bool-cases,
}
use poplar.Prelude.Bits.{holds_to, holds_to_at}
use poplar.Prelude.Int.{ℤ, pos, negsuc}
use poplar.Run.{ok}
use poplar.Util.{lwr, char_lt, lwrcmp}

abbrev pub AllChars : List ℕ → Type 0
AllChars [] = Unit
AllChars (c ∷ cs) = (c < 256) × AllChars cs

head_eq : {a b : ℕ} {xs ys : List ℕ} → (a ∷ xs) ≡ (b ∷ ys) → a ≡ b
head_eq {a} e = ap (λ t. get_or t 0 a) e

tail_eq : {a b : ℕ} {xs ys : List ℕ} → (a ∷ xs) ≡ (b ∷ ys) → xs ≡ ys
tail_eq e = ap (drop 1) e

lwr_table : holds_to (λ a. ltb (lwr a) 256) 256 ≡ true
unfolding holds_to lwr
lwr_table = refl

lwr-lt : (a : ℕ) → a < 256 → lwr a < 256
lwr-lt a h = ltb→lt (lwr a) 256 (holds_to_at _ 256 a h lwr_table)

char_lt_irrefl : (a b : ℕ) → char_lt a b ≡ true → a ≢ b
char_lt_irrefl a b h e = ground arith

char_lt_asym : (a b : ℕ) → char_lt a b ≡ true → char_lt b a ≡ false
char_lt_asym a b h = ground arith

char_lt-eq : (a b : ℕ) → a < 256 → b < 256 → char_lt a b ≡ false → char_lt b a ≡ false → a ≡ b
char_lt-eq a b g h m n = ground arith

abbrev pub opposite : ℤ → ℤ
opposite (pos zero) = pos 0
opposite (pos (suc n)) = negsuc n
opposite (negsuc n) = pos (suc n)

-- On two arrays of at least `n` chars, lwrcmp returns; the result is 0 exactly where the first `n`
-- chars in lower case are the same, and the arrays swapped give the opposite result.
pub lwrcmp-lwr :
    (xs ys : List ℕ) (n : ℕ)
    → n ≤ length xs
    → n ≤ length ys
    → AllChars xs
    → AllChars ys
    → (r : ℤ) × (lwrcmp xs ys n ≡ ok r)
      × ((r ≡ pos 0) ↔ (map lwr (take n xs) ≡ map lwr (take n ys)))
      × (lwrcmp ys xs n ≡ ok (opposite r))
unfolding lwrcmp
lwrcmp-lwr xs ys zero h k c d = (pos 0, refl, (λ e. refl, λ e. refl), refl)
lwrcmp-lwr [] ys (suc n) h k c d = absurd (omega arith)
lwrcmp-lwr (a ∷ xs) [] (suc n) h k c d = absurd (omega arith)
lwrcmp-lwr (a ∷ xs) (b ∷ ys) (suc n) h k c d = elim (Bool-cases (char_lt (lwr a) (lwr b))) [
  | inl l ↦ (
    negsuc 0,
    rw l,
    (λ e. cc, λ e. absurd (char_lt_irrefl (lwr a) (lwr b) l (head_eq e))),
    rw (char_lt_asym (lwr a) (lwr b) l, l),
  )
  | inr m ↦ elim (Bool-cases (char_lt (lwr b) (lwr a))) [
    | inl l ↦ (
      pos 1,
      rw (m, l),
      (λ e. cc, λ e. absurd (char_lt_irrefl (lwr b) (lwr a) l (sym (head_eq e)))),
      rw l,
    )
    | inr l ↦
        let (r, runs, iff, back) = lwrcmp-lwr xs ys n (omega arith) (omega arith) c.1 d.1 in
        let same = char_lt-eq (lwr a) (lwr b) (lwr-lt a c.0) (lwr-lt b d.0) m l in
        (
          r,
          rw (m, l, runs),
          (λ e. ap₂ (λ s t. s ∷ t) same (iff.0 e), λ e. iff.1 (tail_eq e)),
          rw (l, m, back),
        )
  ]
]

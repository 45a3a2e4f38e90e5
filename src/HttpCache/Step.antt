-- ===== src/HttpCache/Step.antt =====
-- One char of the host that urlDirname writes, as it is or escaped.
use poplar.Prelude.{
  ℕ, ◌+◌, ◌/◌, ◌%◌, ◌≤◌, ◌<◌, ◌≡◌, ◌⊎◌, inl, inr, refl, ap, sym, ◌∙◌, true, false, List, [], ◌∷◌,
  ◌++◌, none, some, arith, length, set, take, Bool-cases, le→leb, lt→leb,
}
use poplar.Prelude.Lists.{length-set}
use poplar.Run.{ok}
use mathlib.Core.List.{append_assoc}
use poplar.HttpCache.{Written, is_escaped, plain, escaped, put_char}
use poplar.HttpCache.Escape.{hex, escape, digits, stored, grown, Puts}

escaped_short : (out : List ℕ) (n j c : ℕ) → n ≤ j + 3 → escaped out n j c ≡ ok (out, none)
unfolding escaped
escaped_short out n j c h = rw (escaped, le→leb n (j + 3) h) refl

escaped_lem :
    (out : List ℕ) (n j c : ℕ) (q : List ℕ)
    → c < 256
    → j + 3 < n
    → n ≤ length out
    → take j out ≡ q
    → (o : List ℕ) × (escaped out n j c ≡ ok (o, some (j + 3)))
      × (take (j + 3) o ≡ q ++ 37 ∷ hex (c / 16) ∷ hex (c % 16) ∷ [])
      × (length o ≡ length out)
unfolding escaped
escaped_lem out n j c q h0 h1 h2 t =
    let (hi, lo) = digits c h0 in
    let o1 = set out j 37 in
    let l1 : length o1 ≡ length out = length-set out j 37 in
    let o2 = set o1 (j + 1) (hex (c / 16)) in
    let l2 : length o2 ≡ length out = length-set o1 (j + 1) (hex (c / 16)) ∙ l1 in
    let o3 = set o2 (j + 2) (hex (c % 16)) in
    let l3 : length o3 ≡ length out = length-set o2 (j + 2) (hex (c % 16)) ∙ l2 in
    let g1 = grown out q j (j + 1) 37 refl t (omega arith) in
    let g2 = grown o1 _ (j + 1) (j + 2) (hex (c / 16)) (omega arith) g1 (omega (arith, l1)) in
    let g3 = grown o2 _ (j + 2) (j + 3) (hex (c % 16)) (omega arith) g2 (omega (arith, l2)) in
    let flat =
      append_assoc (q ++ 37 ∷ []) (hex (c / 16) ∷ []) (hex (c % 16) ∷ [])
      ∙ append_assoc q (37 ∷ []) (hex (c / 16) ∷ hex (c % 16) ∷ []) in
    (
      o3,
      rw
          (
            escaped,
            lt→leb n (j + 3) h1,
            stored out j 37 (omega arith),
            hi,
            lo,
            stored o1 (j + 1) (hex (c / 16)) (omega (arith, l1)),
            stored o2 (j + 2) (hex (c % 16)) (omega (arith, l2)),
          )
          refl,
      g3 ∙ flat,
      l3,
    )

plain_short :
    (out : List ℕ) (n j c : ℕ)
    → j < n
    → n ≤ length out
    → n ≤ j + 1
    → plain out n j c ≡ ok (set out j c, none)
unfolding plain
plain_short out n j c h0 h1 h = rw (plain, stored out j c (omega arith), le→leb n (j + 1) h) refl

plain_lem :
    (out : List ℕ) (n j c : ℕ)
    → n ≤ length out
    → j + 1 < n
    → plain out n j c ≡ ok (set out j c, some (j + 1))
unfolding plain
plain_lem out n j c h1 h = rw (plain, stored out j c (omega arith), lt→leb n (j + 1) h) refl

escape_yes : (c : ℕ) → is_escaped c ≡ true → escape c ≡ 37 ∷ hex (c / 16) ∷ hex (c % 16) ∷ []
escape_yes c e = rw e refl

escape_no : (c : ℕ) → is_escaped c ≡ false → escape c ≡ c ∷ []
escape_no c e = rw e refl

put_char_yes :
    (out : List ℕ) (n j c : ℕ) → is_escaped c ≡ true → put_char out n j c ≡ escaped out n j c
unfolding put_char
put_char_yes out n j c e = rw (put_char, e) refl

pub put_char_no :
    (out : List ℕ) (n j c : ℕ) → is_escaped c ≡ false → put_char out n j c ≡ plain out n j c
unfolding put_char
put_char_no out n j c e = rw (put_char, e) refl

pub le_cases : (m n : ℕ) → (m ≤ n) ⊎ (n < m)
le_cases m n = ground arith

pub put_char-Puts :
    (out : List ℕ) (n j c : ℕ) (q : List ℕ)
    → c < 256
    → j < n
    → n ≤ length out
    → take j out ≡ q
    → (w : Written) × (put_char out n j c ≡ ok w) × Puts n (length out) j q c w
put_char-Puts out n j c q h0 h1 h2 t = elim (Bool-cases (is_escaped c)) [
  | inl e ↦
      let size : length (escape c) ≡ 3 = ap length (escape_yes c e) in
      elim (le_cases n (j + 3)) [
        | inl l ↦ (
          (out, none),
          put_char_yes out n j c e ∙ escaped_short out n j c l,
          (omega (arith, size), refl),
        )
        | inr l ↦
            let (o, runs, chars, long) = escaped_lem out n j c q h0 l h2 t in
            (
              (o, some (j + 3)),
              put_char_yes out n j c e ∙ runs,
              (omega (arith, size), l, chars ∙ ap (λ m. q ++ m) (sym (escape_yes c e)), long),
            )
      ]
  | inr e ↦
      let size : length (escape c) ≡ 1 = ap length (escape_no c e) in
      elim (le_cases n (j + 1)) [
        | inl l ↦ (
          (set out j c, none),
          put_char_no out n j c e ∙ plain_short out n j c h1 h2 l,
          (omega (arith, size), length-set out j c),
        )
        | inr l ↦ (
          (set out j c, some (j + 1)),
          put_char_no out n j c e ∙ plain_lem out n j c h2 l,
          (
            omega (arith, size),
            l,
            grown out q j (j + 1) c refl t (omega arith) ∙ ap (λ m. q ++ m) (sym (escape_no c e)),
            length-set out j c,
          ),
        )
      ]
]

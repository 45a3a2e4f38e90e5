-- ===== src/Util/Base64.antt =====
-- base64: b64cpy stores as many chars as it says, and a decoder gets the bytes back from them.
use poplar.Prelude.{
  ℕ, suc, ◌+◌, ◌*◌, ◌/◌, ◌%◌, ◌^◌, ◌<◌, ◌≡◌, refl, ap, sym, ◌∙◌, Bool, true, false, ◌&&◌, ◌||◌,
  List, [], ◌∷◌, ◌++◌, Option, none, some, arith, get_or, bit_and, ◌==◌, not, if◌then◌else◌, length,
  ==_iff,
}
use poplar.Prelude.Bits.{bit_or-eq-add, holds_to, holds_to_at}
use poplar.Run.{ok}
use poplar.Util.{b64, b64fss, b64_round, four_on, b64_loop, b64cpy}

-- Where a character stands in a table.
unfoldable pub position : List ℕ → ℕ → ℕ → Option ℕ
position [] c i = none
position (x ∷ xs) c i = let rest = position xs c (suc i) in if x == c then some i else rest

abbrev pub table : Bool → List ℕ
table fss = if fss then b64fss else b64

-- The character at a place stands at that place only, and is none of '=', '/' with fss, and NUL.
good : Bool → ℕ → Bool
good fss x =
    let c = get_or (table fss) x 0 in
    elim (position (table fss) c 0) [ none ↦ false | some y ↦ y == x ]
    && (not (c == 61) && (not (c == 0) && (not fss || not (c == 47))))

good_table : (fss : Bool) → holds_to (good fss) 64 ≡ true
unfolding holds_to good position
good_table true = refl
good_table false = refl

mask_table :
    holds_to
      (λ a.
        (bit_and (a / 4) 0x3f == a / 4)
        && ((bit_and (a * 16) 0x30 == (a % 4) * 16)
            && ((bit_and (a / 16) 0x0f == a / 16)
                && ((bit_and (a * 4) 0x3c == (a % 16) * 4)
                    && ((bit_and (a / 64) 0x03 == a / 64) && (bit_and a 0x3f == a % 64))))))
      256
    ≡ true
unfolding holds_to
mask_table = refl

record Masks (a : ℕ) : Type 0 where
  m0 : bit_and (a / 4) 0x3f ≡ a / 4
  m1 : bit_and (a * 16) 0x30 ≡ (a % 4) * 16
  m2 : bit_and (a / 16) 0x0f ≡ a / 16
  m3 : bit_and (a * 4) 0x3c ≡ (a % 16) * 4
  m4 : bit_and (a / 64) 0x03 ≡ a / 64
  m5 : bit_and a 0x3f ≡ a % 64

masks : (a : ℕ) → a < 256 → Masks a
masks a h =
    let t = holds_to_at _ 256 a h mask_table in
    record {
      m0 = ground (arith, t);
      m1 = ground (arith, t);
      m2 = ground (arith, t);
      m3 = ground (arith, t);
      m4 = ground (arith, t);
      m5 = ground (arith, t);
    }

-- What b64_round writes, as arithmetic.
pub round_lem :
    (b : List ℕ) (a0 a1 a2 : ℕ) (more most : Bool)
    → a0 < 256
    → a1 < 256
    → a2 < 256
    → b64_round b a0 a1 a2 more most
      ≡ get_or b (a0 / 4) 0
        ∷ get_or b ((a0 % 4) * 16 + a1 / 16) 0
        ∷ (if more then get_or b ((a1 % 16) * 4 + a2 / 64) 0 else 61)
        ∷ (if most then get_or b (a2 % 64) 0 else 61)
        ∷ []
unfolding b64_round
round_lem b a0 a1 a2 more most h0 h1 h2 =
    let k0 = masks a0 h0 in
    let k1 = masks a1 h1 in
    let k2 = masks a2 h2 in
    rw (
      k0.m0,
      k0.m1,
      k1.m2,
      k1.m3,
      k2.m4,
      k2.m5,
      bit_or-eq-add 4 (a0 % 4) (a1 / 16) (omega arith),
      bit_or-eq-add 2 (a1 % 16) (a2 / 64) (omega arith),
    )

pub record IsGood (fss : Bool) (x : ℕ) : Type 0 where
  place : position (table fss) (get_or (table fss) x 0) 0 ≡ some x
  no_pad : (get_or (table fss) x 0 == 61) ≡ false
  pub no_nul : (get_or (table fss) x 0 == 0) ≡ false
  pub no_slash : (fss && (get_or (table fss) x 0 == 47)) ≡ false

is_place : (o : Option ℕ) (x : ℕ) → elim o [ none ↦ false | some y ↦ y == x ] ≡ true → o ≡ some x
is_place none x h = cc
is_place (some y) x h = ap some ((==_iff y x).0 h)

and_parts : (p q : Bool) → (p && q) ≡ true → (p ≡ true) × (q ≡ true)
and_parts p q h = ground arith

pub character : (fss : Bool) (x : ℕ) → x < 64 → IsGood fss x
unfolding good
character fss x h =
    let t = and_parts _ _ (holds_to_at (good fss) 64 x h (good_table fss)) in
    record {
      place = is_place _ x t.0;
      no_pad = ground (arith, t);
      no_nul = ground (arith, t);
      no_slash = ground (arith, t);
    }

-- What the loop of b64cpy stores, where its number stays an int.
unfoldable pub chars : List ℕ → List ℕ → List ℕ
chars b [] = []
chars b (a0 ∷ []) = b64_round b a0 0 0 false false
chars b (a0 ∷ a1 ∷ []) = b64_round b a0 a1 0 true false
chars b (a0 ∷ a1 ∷ a2 ∷ src) = b64_round b a0 a1 a2 true true ++ chars b src

-- The number of chars for `n` bytes.
abbrev pub quads : ℕ → ℕ
quads n = 4 * ((n + 2) / 3)

pub length-chars : (b src : List ℕ) → length (chars b src) ≡ quads (length src)
unfolding chars b64_round
length-chars b [] = refl
length-chars b (a0 ∷ []) = refl
length-chars b (a0 ∷ a1 ∷ []) = refl
length-chars b (a0 ∷ a1 ∷ a2 ∷ src) = omega (arith, length-chars b src)

four_on_lem : (j : ℕ) → j + 4 < 2 ^ 31 → four_on j ≡ ok (j + 4)
unfolding four_on
four_on_lem j h = ground arith

loop_runs :
    (b : List ℕ) (j : ℕ) (src : List ℕ)
    → j + quads (length src) < 2 ^ 31
    → b64_loop b j src ≡ ok (chars b src, j + quads (length src))
unfolding b64_loop chars
loop_runs b j [] h = ap (λ (k : ℕ). ok ([], k)) (omega arith)
loop_runs b j (a0 ∷ []) h = rw (four_on, four_on_lem j (omega arith)) refl
loop_runs b j (a0 ∷ a1 ∷ []) h = rw (four_on, four_on_lem j (omega arith)) refl
loop_runs b j (a0 ∷ a1 ∷ a2 ∷ src) h =
    let end : j + 4 + quads (length src) ≡ j + quads (length (a0 ∷ a1 ∷ a2 ∷ src)) = omega arith in
    rw (four_on, four_on_lem j (omega arith), loop_runs b (j + 4) src (omega arith))
      (ap (λ (k : ℕ). ok (b64_round b a0 a1 a2 true true ++ chars b src, k)) end)

pub b64cpy_runs :
    (fss : Bool) (src : List ℕ)
    → quads (length src) < 2 ^ 31
    → b64cpy src fss ≡ ok (chars (table fss) src, quads (length src))
unfolding b64cpy
b64cpy_runs fss src h =
    loop_runs (table fss) 0 src (omega arith)
    ∙ ap (λ (k : ℕ). ok (chars (table fss) src, k)) (omega arith)

-- A decoder of base64, four characters at a time, '=' for what is not there.
unfoldable pub decode_group : List ℕ → ℕ → ℕ → ℕ → ℕ → Option (List ℕ)
decode_group t c0 c1 c2 c3 = elim (position t c0 0) [
  | none ↦ none
  | some x0 ↦ elim (position t c1 0) [
    | none ↦ none
    | some x1 ↦ if c2 == 61 then some ((x0 * 4 + x1 / 16) ∷ []) else elim (position t c2 0) [
      | none ↦ none
      | some x2 ↦
          if c3 == 61
          then some ((x0 * 4 + x1 / 16) ∷ ((x1 % 16) * 16 + x2 / 4) ∷ [])
          else elim (position t c3 0) [
            | none ↦ none
            | some x3 ↦
                some ((x0 * 4 + x1 / 16) ∷ ((x1 % 16) * 16 + x2 / 4) ∷ ((x2 % 4) * 64 + x3) ∷ [])
          ]
    ]
  ]
]

unfoldable pub decode : Bool → List ℕ → Option (List ℕ)
unfolding decode_group
decode fss [] = some []
decode fss (c0 ∷ c1 ∷ c2 ∷ c3 ∷ cs) =
    let rest = decode fss cs in
    elim (decode_group (table fss) c0 c1 c2 c3) [
      | none ↦ none
      | some g ↦ elim rest [ none ↦ none | some bs ↦ some (g ++ bs) ]
    ]
decode fss _ = none

abbrev pub AllBytes : List ℕ → Type 0
AllBytes [] = Unit
AllBytes (a ∷ xs) = (a < 256) × AllBytes xs

decode_round_three :
    (fss : Bool) (a0 a1 a2 : ℕ)
    → a0 < 256
    → a1 < 256
    → a2 < 256
    → decode_group
        (table fss)
        (get_or (table fss) (a0 / 4) 0)
        (get_or (table fss) ((a0 % 4) * 16 + a1 / 16) 0)
        (get_or (table fss) ((a1 % 16) * 4 + a2 / 64) 0)
        (get_or (table fss) (a2 % 64) 0)
      ≡ some (a0 ∷ a1 ∷ a2 ∷ [])
unfolding decode_group
decode_round_three fss a0 a1 a2 h0 h1 h2 =
    let g0 = character fss (a0 / 4) (omega arith) in
    let g1 = character fss ((a0 % 4) * 16 + a1 / 16) (omega arith) in
    let g2 = character fss ((a1 % 16) * 4 + a2 / 64) (omega arith) in
    let g3 = character fss (a2 % 64) (omega arith) in
    let e0 : a0 / 4 * 4 + ((a0 % 4) * 16 + a1 / 16) / 16 ≡ a0 = omega arith in
    let e1 : (((a0 % 4) * 16 + a1 / 16) % 16) * 16 + ((a1 % 16) * 4 + a2 / 64) / 4 ≡ a1 =
      omega arith in
    let e2 : (((a1 % 16) * 4 + a2 / 64) % 4) * 64 + a2 % 64 ≡ a2 = omega arith in
    rw (decode_group, g0.place, g1.place, g2.no_pad, g2.place, g3.no_pad, g3.place, e0, e1, e2)

-- The last round, of one byte or of two.
decode_round_short :
    (fss : Bool) (a0 a1 : ℕ)
    → a0 < 256
    → a1 < 256
    → (decode fss (chars (table fss) (a0 ∷ [])) ≡ some (a0 ∷ []))
      × (decode fss (chars (table fss) (a0 ∷ a1 ∷ [])) ≡ some (a0 ∷ a1 ∷ []))
unfolding decode chars
decode_round_short fss a0 a1 h0 h1 =
    let g0 = character fss (a0 / 4) (omega arith) in
    let g1 = character fss ((a0 % 4) * 16 + 0 / 16) (omega arith) in
    let g1' = character fss ((a0 % 4) * 16 + a1 / 16) (omega arith) in
    let g2 = character fss ((a1 % 16) * 4 + 0 / 64) (omega arith) in
    let e0 : a0 / 4 * 4 + ((a0 % 4) * 16 + 0 / 16) / 16 ≡ a0 = omega arith in
    let e0' : a0 / 4 * 4 + ((a0 % 4) * 16 + a1 / 16) / 16 ≡ a0 = omega arith in
    let e1 : (((a0 % 4) * 16 + a1 / 16) % 16) * 16 + ((a1 % 16) * 4 + 0 / 64) / 4 ≡ a1 =
      omega arith in
    (
      ap (decode fss) (round_lem (table fss) a0 0 0 false false h0 (omega arith) (omega arith))
          ∙ rw (decode, decode_group, g0.place, g1.place, e0),
      ap (decode fss) (round_lem (table fss) a0 a1 0 true false h0 h1 (omega arith))
          ∙ rw (decode, decode_group, g0.place, g1'.place, g2.no_pad, g2.place, e0', e1),
    )

decode_loop :
    (fss : Bool) (src : List ℕ) → AllBytes src → decode fss (chars (table fss) src) ≡ some src
unfolding decode chars
decode_loop fss [] h = refl
decode_loop fss (a0 ∷ []) h = (decode_round_short fss a0 0 h.0 (omega arith)).0
decode_loop fss (a0 ∷ a1 ∷ []) h = (decode_round_short fss a0 a1 h.0 h.1.0).1
decode_loop fss (a0 ∷ a1 ∷ a2 ∷ src) h =
    ap (λ r. decode fss (r ++ chars (table fss) src))
      (round_lem (table fss) a0 a1 a2 true true h.0 h.1.0 h.1.1.0)
    ∙ rw (decode, decode_round_three fss a0 a1 a2 h.0 h.1.0 h.1.1.0, decode_loop fss src h.1.1.1)

-- What b64cpy writes for a list of bytes, with either alphabet, where the number of its chars fits an
-- int, is decoded back to those bytes by a decoder of base64 with that alphabet; the number that it
-- returns is that of the chars.
pub decode-b64cpy :
    (fss : Bool) (src : List ℕ)
    → AllBytes src
    → 4 * ((length src + 2) / 3) < 2 ^ 31
    → (dst : List ℕ) × (b64cpy src fss ≡ ok (dst, length dst)) × (decode fss dst ≡ some src)
decode-b64cpy fss src h small = (
  chars (table fss) src,
  b64cpy_runs fss src small
      ∙ ap (λ (k : ℕ). ok (chars (table fss) src, k)) (sym (length-chars (table fss) src)),
  decode_loop fss src h,
)

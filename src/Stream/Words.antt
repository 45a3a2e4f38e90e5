-- ===== src/Stream/Words.antt =====
-- The arithmetic of words and bytes: or-ing bytes together is a sum, and taking a word apart and
-- putting it together gives the word.
use poplar.Prelude.{
  ℕ, zero, suc, List, [], ◌∷◌, ◌++◌, ◌+◌, ◌*◌, ◌/◌, ◌%◌, ◌^◌, ◌<◌, ◌≡◌, refl, ◌∙◌, arith, bit_or,
}
use poplar.Prelude.Bits.{bit_or-eq-add}
use poplar.Stream.Get.{or_byte, long_of, quad_of}
use poplar.Stream.Put.{byte_at}

-- The `k` low bytes of a word, most significant first.
unfoldable pub big_endian : ℕ → ℕ → List ℕ
big_endian zero w = []
big_endian (suc k) w = big_endian k (w / 256) ++ (w % 256 ∷ [])

pub bytes_two : (w : ℕ) → byte_at w 8 ∷ byte_at w 0 ∷ [] ≡ big_endian 2 w
unfolding big_endian
bytes_two w = ground arith

pub bytes_four :
    (l : ℕ) → byte_at l 24 ∷ byte_at l 16 ∷ byte_at l 8 ∷ byte_at l 0 ∷ [] ≡ big_endian 4 l
unfolding big_endian
bytes_four l = ground arith

pub bytes_eight :
    (q : ℕ)
    → (byte_at q 56
        ∷ byte_at q 48
        ∷ byte_at q 40
        ∷ byte_at q 32
        ∷ byte_at q 24
        ∷ byte_at q 16
        ∷ byte_at q 8
        ∷ byte_at q 0
        ∷ [])
      ≡ big_endian 8 q
unfolding big_endian
bytes_eight q = ground arith

-- `hi` has nothing below the bit under which `lo` ends.
or_disjoint : (k hi lo z : ℕ) → hi ≡ z * 2 ^ k → lo < 2 ^ k → bit_or hi lo ≡ hi + lo
or_disjoint k hi lo z e h = rw e (bit_or-eq-add k z lo h)

module _ (b0 b1 : ℕ) (h0 : b0 < 256) (h1 : b1 < 256) where
  pub word_lem : or_byte (b0 * 2 ^ 8) b1 0 ≡ b0 * 256 + b1
  word_lem = omega (arith, or_disjoint 8 (b0 * 2 ^ 8) (b1 * 2 ^ 0) b0)

module _ (b0 b1 b2 b3 : ℕ) (h0 : b0 < 256) (h1 : b1 < 256) (h2 : b2 < 256) (h3 : b3 < 256) where
  pub long_of_lem : long_of b0 b1 b2 b3 ≡ ((b0 * 256 + b1) * 256 + b2) * 256 + b3
  long_of_lem =
      let w0 : ℕ = b0 * 2 ^ 24 in
      let w1 : ℕ = or_byte w0 b1 16 in
      let w2 : ℕ = or_byte w1 b2 8 in
      let e1 : w1 ≡ w0 + b1 * 2 ^ 16 = or_disjoint 24 w0 (b1 * 2 ^ 16) b0 refl (omega arith) in
      let e2 : w2 ≡ w1 + b2 * 2 ^ 8 =
        or_disjoint 16 w1 (b2 * 2 ^ 8) (b0 * 256 + b1) (omega arith) (omega arith) in
      let e3 : or_byte w2 b3 0 ≡ w2 + b3 * 2 ^ 0 =
        or_disjoint 8 w2 (b3 * 2 ^ 0) ((b0 * 256 + b1) * 256 + b2) (omega arith) (omega arith) in
      omega arith

-- The number that bytes make, most significant first.
unfoldable pub horner : ℕ → ℕ → ℕ → ℕ → ℕ → ℕ
horner z b0 b1 b2 b3 = (((z * 256 + b0) * 256 + b1) * 256 + b2) * 256 + b3

-- Four bytes or-ed below a word that ends at bit 32 + k.
four :
    (z b0 b1 b2 b3 : ℕ)
    → b0 < 256
    → b1 < 256
    → b2 < 256
    → b3 < 256
    → or_byte (or_byte (or_byte (or_byte (z * 2 ^ 32) b0 24) b1 16) b2 8) b3 0
      ≡ horner z b0 b1 b2 b3
unfolding horner
four z b0 b1 b2 b3 h0 h1 h2 h3 =
    let w : ℕ = z * 2 ^ 32 in
    let w0 : ℕ = or_byte w b0 24 in
    let w1 : ℕ = or_byte w0 b1 16 in
    let w2 : ℕ = or_byte w1 b2 8 in
    let e0 : w0 ≡ w + b0 * 2 ^ 24 = or_disjoint 32 w (b0 * 2 ^ 24) z refl (omega arith) in
    let e1 : w1 ≡ w0 + b1 * 2 ^ 16 =
      or_disjoint 24 w0 (b1 * 2 ^ 16) (z * 256 + b0) (omega arith) (omega arith) in
    let e2 : w2 ≡ w1 + b2 * 2 ^ 8 =
      or_disjoint 16 w1 (b2 * 2 ^ 8) ((z * 256 + b0) * 256 + b1) (omega arith) (omega arith) in
    let e3 : or_byte w2 b3 0 ≡ w2 + b3 * 2 ^ 0 =
      or_disjoint 8 w2 (b3 * 2 ^ 0) (((z * 256 + b0) * 256 + b1) * 256 + b2) (omega arith)
        (omega arith) in
    omega arith

-- The upper half of a quad: four bytes or-ed from bit 56 down to bit 32.
upper :
    (b0 b1 b2 b3 : ℕ)
    → b0 < 256
    → b1 < 256
    → b2 < 256
    → b3 < 256
    → or_byte (or_byte (or_byte (b0 * 2 ^ 56) b1 48) b2 40) b3 32 ≡ horner 0 b0 b1 b2 b3 * 2 ^ 32
unfolding horner
upper b0 b1 b2 b3 h0 h1 h2 h3 =
    let w0 : ℕ = b0 * 2 ^ 56 in
    let w1 : ℕ = or_byte w0 b1 48 in
    let w2 : ℕ = or_byte w1 b2 40 in
    let e1 : w1 ≡ w0 + b1 * 2 ^ 48 = or_disjoint 56 w0 (b1 * 2 ^ 48) b0 refl (omega arith) in
    let e2 : w2 ≡ w1 + b2 * 2 ^ 40 =
      or_disjoint 48 w1 (b2 * 2 ^ 40) (b0 * 256 + b1) (omega arith) (omega arith) in
    let e3 : or_byte w2 b3 32 ≡ w2 + b3 * 2 ^ 32 =
      or_disjoint 40 w2 (b3 * 2 ^ 32) ((b0 * 256 + b1) * 256 + b2) (omega arith) (omega arith) in
    omega arith

-- A word, taken apart by the put functions and put together by the get functions.
pub word_roundtrip : (w : ℕ) → w < 2 ^ 16 → or_byte (byte_at w 8 * 2 ^ 8) (byte_at w 0) 0 ≡ w
word_roundtrip w h = omega (arith, word_lem (byte_at w 8) (byte_at w 0))

pub long_roundtrip :
    (l : ℕ) → l < 2 ^ 32 → long_of (byte_at l 24) (byte_at l 16) (byte_at l 8) (byte_at l 0) ≡ l
long_roundtrip l h =
    omega (arith, long_of_lem (byte_at l 24) (byte_at l 16) (byte_at l 8) (byte_at l 0))

pub quad_roundtrip :
    (q : ℕ)
    → q < 2 ^ 64
    → quad_of
        (byte_at q 56)
        (byte_at q 48)
        (byte_at q 40)
        (byte_at q 32)
        (byte_at q 24)
        (byte_at q 16)
        (byte_at q 8)
        (byte_at q 0)
      ≡ q
unfolding horner
quad_roundtrip q h =
    let up =
      upper (byte_at q 56) (byte_at q 48) (byte_at q 40) (byte_at q 32) (omega arith) (omega arith)
        (omega arith) (omega arith) in
    rw up (
      four (horner 0 (byte_at q 56) (byte_at q 48) (byte_at q 40) (byte_at q 32)) (byte_at q 24)
        (byte_at q 16) (byte_at q 8) (byte_at q 0) (omega arith) (omega arith) (omega arith)
        (omega arith)
      ∙ omega arith)

-- ===== src/HashKey/Polynomial.antt =====
-- Three of the hash functions as polynomials, and the range of all eight.
use poplar.Prelude.{ℕ, ◌+◌, ◌*◌, ◌%◌, ◌^◌, ◌<◌, ◌≡◌, refl, ◌∙◌, List, [], ◌∷◌, arith}
use poplar.Prelude.Bits.{bit_and_mask}
use poplar.HashKey.{
  promote, masked, sdbm_loop, sdbm_hash, rs_hash, js_hash, pjw_hash, elf_hash, bkdr_loop, bkdr_hash,
  djb_loop, djb_hash, ap_hash,
}

-- The value at `m` of the polynomial whose coefficients are `h` and the chars, by Horner's rule and
-- without wrap-around.
unfoldable pub horner : ℕ → ℕ → List ℕ → ℕ
horner m h [] = h
horner m h (c ∷ str) = horner m (h * m + promote c) str

masked_lem : (hash : ℕ) → masked hash ≡ hash % 2 ^ 31
masked_lem hash = bit_and_mask 31 hash

bkdr_loop_lem :
    (str : List ℕ) (h w : ℕ) → w ≡ h % 2 ^ 32 → bkdr_loop w str ≡ horner 131 h str % 2 ^ 32
unfolding bkdr_loop horner
bkdr_loop_lem [] h w e = e
bkdr_loop_lem (c ∷ str) h w e = bkdr_loop_lem str (h * 131 + promote c) _ (omega arith)

djb_loop_lem : (str : List ℕ) (h w : ℕ) → w ≡ h % 2 ^ 32 → djb_loop w str ≡ horner 33 h str % 2 ^ 32
unfolding djb_loop horner
djb_loop_lem [] h w e = e
djb_loop_lem (c ∷ str) h w e = djb_loop_lem str (h * 33 + promote c) _ (omega arith)

sdbm_loop_lem :
    (str : List ℕ) (h w : ℕ) → w ≡ h % 2 ^ 32 → sdbm_loop w str ≡ horner 65599 h str % 2 ^ 32
unfolding sdbm_loop horner
sdbm_loop_lem [] h w e = e
sdbm_loop_lem (c ∷ str) h w e = sdbm_loop_lem str (h * 65599 + promote c) _ (omega arith)

low_bits : (x w : ℕ) → w ≡ x % 2 ^ 32 → masked w ≡ x % 2 ^ 31
low_bits x w e = masked_lem w ∙ omega arith

-- For every string, BKDRHash, DJBHash and SDBMHash are the polynomials in the chars at 131, at 33
-- with 5381 in front, and at 65599, taken modulo 2 ^ 31, so that the wrap-around of
-- the loops loses nothing that the last mask keeps.
pub hash-horner :
    (str : List ℕ)
    → (bkdr_hash str ≡ horner 131 0 str % 2 ^ 31)
      × (djb_hash str ≡ horner 33 5381 str % 2 ^ 31)
      × (sdbm_hash str ≡ horner 65599 0 str % 2 ^ 31)
unfolding bkdr_hash djb_hash sdbm_hash
hash-horner str = (
  low_bits (horner 131 0 str) _ (bkdr_loop_lem str 0 0 refl),
  low_bits (horner 33 5381 str) _ (djb_loop_lem str 5381 5381 refl),
  low_bits (horner 65599 0 str) _ (sdbm_loop_lem str 0 0 refl),
)

masked-lt : (hash : ℕ) → masked hash < 2 ^ 31
masked-lt hash = omega (arith, masked_lem hash)

-- The eight hash functions of any string are below 2 ^ 31.
hash-lt :
    (str : List ℕ)
    → (sdbm_hash str < 2 ^ 31)
      × (rs_hash str < 2 ^ 31)
      × (js_hash str < 2 ^ 31)
      × (pjw_hash str < 2 ^ 31)
      × (elf_hash str < 2 ^ 31)
      × (bkdr_hash str < 2 ^ 31)
      × (djb_hash str < 2 ^ 31)
      × (ap_hash str < 2 ^ 31)
unfolding sdbm_hash rs_hash js_hash pjw_hash elf_hash bkdr_hash djb_hash ap_hash
hash-lt str = (
  masked-lt _,
  masked-lt _,
  masked-lt _,
  masked-lt _,
  masked-lt _,
  masked-lt _,
  masked-lt _,
  masked-lt _,
)

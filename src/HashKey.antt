-- ===== src/HashKey.antt =====
-- apps/hash_key.c: the hash functions of strings. A string is its chars up to the NUL; an unsigned
-- int is a number below 2 ^ 32.
pub mod Polynomial
mod Tests
use poplar.Prelude.{
  ℕ, suc, ◌+◌, ◌-◌, ◌*◌, ◌/◌, ◌%◌, ◌^◌, List, [], ◌∷◌, bit_and, bit_xor, ltb, ◌==◌, if◌then◌else◌,
}

-- A char as it is added to an unsigned int: it is signed.
abbrev pub promote : ℕ → ℕ
promote c = if ltb c 128 then c else c + (2 ^ 32 - 256)

-- `x << k`, and `~ x`
abbrev pub shift_left : ℕ → ℕ → ℕ
shift_left x k = (x * 2 ^ k) % 2 ^ 32

abbrev pub complement : ℕ → ℕ
complement x = 2 ^ 32 - 1 - x

-- `hash & 0x7FFFFFFF`
abbrev pub masked : ℕ → ℕ
masked hash = bit_and hash 0x7fffffff

unfoldable pub sdbm_loop : ℕ → List ℕ → ℕ
sdbm_loop hash [] = hash
sdbm_loop hash (c ∷ str) =
    sdbm_loop ((promote c + shift_left hash 6 + shift_left hash 16 + (2 ^ 32 - hash)) % 2 ^ 32) str

unfoldable pub sdbm_hash : List ℕ → ℕ
unfolding sdbm_loop
sdbm_hash str = masked (sdbm_loop 0 str)

unfoldable pub rs_loop : ℕ → ℕ → List ℕ → ℕ
rs_loop hash a [] = hash
rs_loop hash a (c ∷ str) = rs_loop ((hash * a + promote c) % 2 ^ 32) ((a * 378551) % 2 ^ 32) str

unfoldable pub rs_hash : List ℕ → ℕ
unfolding rs_loop
rs_hash str = masked (rs_loop 0 63689 str)

unfoldable pub js_loop : ℕ → List ℕ → ℕ
js_loop hash [] = hash
js_loop hash (c ∷ str) =
    js_loop (bit_xor hash ((shift_left hash 5 + promote c + hash / 4) % 2 ^ 32)) str

unfoldable pub js_hash : List ℕ → ℕ
unfolding js_loop
js_hash str = masked (js_loop 1315423911 str)

-- HighBits is 0xF0000000, ThreeQuarters 24 and OneEighth 4.
unfoldable pub pjw_loop : ℕ → List ℕ → ℕ
pjw_loop hash [] = hash
pjw_loop hash (c ∷ str) =
    let next : ℕ = (shift_left hash 4 + promote c) % 2 ^ 32 in
    let test : ℕ = bit_and next 0xf0000000 in
    pjw_loop
      (if test == 0 then next else bit_and (bit_xor next (test / 2 ^ 24)) (complement 0xf0000000))
      str

unfoldable pub pjw_hash : List ℕ → ℕ
unfolding pjw_loop
pjw_hash str = masked (pjw_loop 0 str)

unfoldable pub elf_loop : ℕ → List ℕ → ℕ
elf_loop hash [] = hash
elf_loop hash (c ∷ str) =
    let next : ℕ = (shift_left hash 4 + promote c) % 2 ^ 32 in
    let x : ℕ = bit_and next 0xf0000000 in
    elf_loop (if x == 0 then next else bit_and (bit_xor next (x / 2 ^ 24)) (complement x)) str

unfoldable pub elf_hash : List ℕ → ℕ
unfolding elf_loop
elf_hash str = masked (elf_loop 0 str)

unfoldable pub bkdr_loop : ℕ → List ℕ → ℕ
bkdr_loop hash [] = hash
bkdr_loop hash (c ∷ str) = bkdr_loop ((hash * 131 + promote c) % 2 ^ 32) str

unfoldable pub bkdr_hash : List ℕ → ℕ
unfolding bkdr_loop
bkdr_hash str = masked (bkdr_loop 0 str)

unfoldable pub djb_loop : ℕ → List ℕ → ℕ
djb_loop hash [] = hash
djb_loop hash (c ∷ str) = djb_loop ((hash + (shift_left hash 5 + promote c)) % 2 ^ 32) str

unfoldable pub djb_hash : List ℕ → ℕ
unfolding djb_loop
djb_hash str = masked (djb_loop 5381 str)

-- `i & 1` tells the rounds apart.
unfoldable pub ap_loop : ℕ → ℕ → List ℕ → ℕ
ap_loop i hash [] = hash
ap_loop i hash (c ∷ str) =
    ap_loop (suc i)
      (bit_xor hash (
        if bit_and i 1 == 0
        then bit_xor (bit_xor (shift_left hash 7) (promote c)) (hash / 8)
        else complement (bit_xor (bit_xor (shift_left hash 11) (promote c)) (hash / 32))))
      str

unfoldable pub ap_hash : List ℕ → ℕ
unfolding ap_loop
ap_hash str = masked (ap_loop 0 0 str)

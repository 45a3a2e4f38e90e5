-- ===== src/Util.antt =====
-- common/util.c: case-blind comparison, hexadecimal digits and base64. A char is its byte.
pub mod Base64
pub mod Characters
pub mod Compare
mod Tests
use poplar.Prelude.{
  ℕ, zero, suc, ◌+◌, ◌-◌, ◌*◌, ◌/◌, ◌%◌, ◌^◌, Bool, true, false, ◌&&◌, ◌||◌, List, [], ◌∷◌, ◌++◌,
  get_or, bit_and, bit_or, ltb, leb, if◌then◌else◌,
}
use poplar.Prelude.Int.{ℤ, pos, negsuc}
use poplar.Run.{Run, ok, fault, out_of_bounds, int_overflow, ◌>>=◌}

unfoldable pub lwr : ℕ → ℕ
lwr a = if leb 65 a && leb a 90 then bit_or a 0x20 else a

-- `a < b` of two chars, which are signed.
abbrev pub char_lt : ℕ → ℕ → Bool
char_lt a b = ltb ((a + 128) % 256) ((b + 128) % 256)

-- The loop, from the place of the list on.
unfoldable pub lwrcmp : List ℕ → List ℕ → ℕ → Run ℤ
unfolding lwr
lwrcmp xs ys zero = ok (pos 0)
lwrcmp [] ys (suc n) = fault out_of_bounds
lwrcmp (a ∷ xs) [] (suc n) = fault out_of_bounds
lwrcmp (a ∷ xs) (b ∷ ys) (suc n) =
    let rest = lwrcmp xs ys n in
    if char_lt (lwr a) (lwr b)
    then ok (negsuc 0)
    else if char_lt (lwr b) (lwr a)
    then ok (pos 1)
    else rest

unfoldable pub i2h : ℤ → ℕ
i2h (negsuc n) = 63
i2h (pos i) = if leb 16 i then 63 else if ltb i 10 then i + 48 else i - 10 + 65

-- "ABCDEFGHIJKLMNOPQRSTUVWXYZabcdefghijklmnopqrstuvwxyz0123456789+/"
abbrev pub b64 : List ℕ
b64 =
    65 ∷ 66 ∷ 67 ∷ 68 ∷ 69 ∷ 70 ∷ 71 ∷ 72 ∷ 73 ∷ 74 ∷ 75 ∷ 76 ∷ 77 ∷ 78 ∷ 79 ∷ 80 ∷ 81 ∷ 82 ∷ 83
    ∷ 84 ∷ 85 ∷ 86 ∷ 87 ∷ 88 ∷ 89 ∷ 90 ∷ 97 ∷ 98 ∷ 99 ∷ 100 ∷ 101 ∷ 102 ∷ 103 ∷ 104 ∷ 105 ∷ 106
    ∷ 107 ∷ 108 ∷ 109 ∷ 110 ∷ 111 ∷ 112 ∷ 113 ∷ 114 ∷ 115 ∷ 116 ∷ 117 ∷ 118 ∷ 119 ∷ 120 ∷ 121 ∷ 122
    ∷ 48 ∷ 49 ∷ 50 ∷ 51 ∷ 52 ∷ 53 ∷ 54 ∷ 55 ∷ 56 ∷ 57 ∷ 43 ∷ 47 ∷ []

-- The same with "-" for "/".
abbrev pub b64fss : List ℕ
b64fss =
    65 ∷ 66 ∷ 67 ∷ 68 ∷ 69 ∷ 70 ∷ 71 ∷ 72 ∷ 73 ∷ 74 ∷ 75 ∷ 76 ∷ 77 ∷ 78 ∷ 79 ∷ 80 ∷ 81 ∷ 82 ∷ 83
    ∷ 84 ∷ 85 ∷ 86 ∷ 87 ∷ 88 ∷ 89 ∷ 90 ∷ 97 ∷ 98 ∷ 99 ∷ 100 ∷ 101 ∷ 102 ∷ 103 ∷ 104 ∷ 105 ∷ 106
    ∷ 107 ∷ 108 ∷ 109 ∷ 110 ∷ 111 ∷ 112 ∷ 113 ∷ 114 ∷ 115 ∷ 116 ∷ 117 ∷ 118 ∷ 119 ∷ 120 ∷ 121 ∷ 122
    ∷ 48 ∷ 49 ∷ 50 ∷ 51 ∷ 52 ∷ 53 ∷ 54 ∷ 55 ∷ 56 ∷ 57 ∷ 43 ∷ 45 ∷ []

-- One round of the loop of b64cpy: `more` is `i < n - 1` and `most` is `i < n - 2`. A byte shifted
-- left is cut by the mask that follows.
unfoldable pub b64_round : List ℕ → ℕ → ℕ → ℕ → Bool → Bool → List ℕ
b64_round b a0 a1 a2 more most =
    get_or b (bit_and (a0 / 4) 0x3f) 0
    ∷ get_or b (bit_or (bit_and (a0 * 16) 0x30) (bit_and (a1 / 16) 0x0f)) 0
    ∷ (if more then get_or b (bit_or (bit_and (a1 * 4) 0x3c) (bit_and (a2 / 64) 0x03)) 0 else 61)
    ∷ (if most then get_or b (bit_and a2 0x3f) 0 else 61)
    ∷ []

-- The four `j++` of a round, on an int.
unfoldable pub four_on : ℕ → Run ℕ
four_on j = if ltb (j + 4) (2 ^ 31) then ok (j + 4) else fault int_overflow

-- The loop, from `j` on: the chars that it stores, and the `j` that it ends with. `i` grows by three
-- where `j` grows by four, and does not overflow before it.
unfoldable pub b64_loop : List ℕ → ℕ → List ℕ → Run (List ℕ × ℕ)
unfolding b64_round four_on
b64_loop b j [] = ok ([], j)
b64_loop b j (a0 ∷ []) = do k ← four_on j; ok (b64_round b a0 0 0 false false, k)
b64_loop b j (a0 ∷ a1 ∷ []) = do k ← four_on j; ok (b64_round b a0 a1 0 true false, k)
b64_loop b j (a0 ∷ a1 ∷ a2 ∷ src) = do
  k ← four_on j
  (rest, end) ← b64_loop b k src
  ok (b64_round b a0 a1 a2 true true ++ rest, end)

-- `src` is the `n` bytes; the result is the bytes stored from dst[0] on, with the number returned.
unfoldable pub b64cpy : List ℕ → Bool → Run (List ℕ × ℕ)
unfolding b64_loop
b64cpy src fss = b64_loop (if fss then b64fss else b64) 0 src

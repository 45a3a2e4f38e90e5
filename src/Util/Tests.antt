-- ===== src/Util/Tests.antt =====
-- "Man" and its neighbours in base64, and header names that differ in case.
use poplar.Prelude.{ℕ, ◌≡◌, refl, List, true, false, [], ◌∷◌, some, arith, length}
use poplar.Run.{ok}
use poplar.Util.{b64cpy}
use poplar.Util.Base64.{decode, decode-b64cpy}
use poplar.Util.Characters.{Printable, b64cpy-Printable}

-- "Man" is "TWFu", and "M" is "TQ==".
man : b64cpy (77 ∷ 97 ∷ 110 ∷ 77 ∷ []) false ≡ ok (84 ∷ 87 ∷ 70 ∷ 117 ∷ 84 ∷ 81 ∷ 61 ∷ 61 ∷ [], 8)
unfolding b64cpy
man = refl

decode-b64cpy_example :
    (dst : List ℕ) × (b64cpy (255 ∷ 254 ∷ 253 ∷ 0 ∷ 9 ∷ []) true ≡ ok (dst, length dst))
    × (decode true dst ≡ some (255 ∷ 254 ∷ 253 ∷ 0 ∷ 9 ∷ []))
decode-b64cpy_example =
    decode-b64cpy true (255 ∷ 254 ∷ 253 ∷ 0 ∷ 9 ∷ [])
      (omega arith, (omega arith, (omega arith, (omega arith, (omega arith, tt))))) (omega arith)

b64cpy-Printable_example :
    (dst : List ℕ) × (b64cpy (255 ∷ 255 ∷ []) true ≡ ok (dst, 4))
    × (length dst ≡ 4)
    × Printable true dst
b64cpy-Printable_example =
    b64cpy-Printable true (255 ∷ 255 ∷ []) (omega arith, (omega arith, tt)) (omega arith)

-- ===== src/HashKey/Tests.antt =====
-- "abc" and a string with a char above 127.
use poplar.Prelude.{ℕ, ◌≡◌, ◌%◌, ◌^◌, refl, List, [], ◌∷◌, ◌++◌, ◌*◌, ◌+◌}
use poplar.HashKey.{sdbm_hash, pjw_hash, elf_hash, bkdr_hash, djb_hash}
use poplar.HashKey.Polynomial.{horner, hash-horner}

abbrev letters : List ℕ
letters = 97 ∷ 98 ∷ 99 ∷ []

bkdr_letters : bkdr_hash letters ≡ 97 * 131 * 131 + 98 * 131 + 99
unfolding bkdr_hash
bkdr_letters = refl

elf-pjw :
    elf_hash (250 ∷ letters ++ (letters ++ letters))
    ≡ pjw_hash (250 ∷ letters ++ (letters ++ letters))
unfolding elf_hash pjw_hash
elf-pjw = refl

hash-horner_example :
    (bkdr_hash letters ≡ horner 131 0 letters % 2 ^ 31)
    × (djb_hash letters ≡ horner 33 5381 letters % 2 ^ 31)
    × (sdbm_hash letters ≡ horner 65599 0 letters % 2 ^ 31)
hash-horner_example = hash-horner letters

-- ===== src/Hash/Tests.antt =====
-- A table of four chains of numbers, which are their own keys.
use poplar.Prelude.{
  ℕ, ◌≡◌, ◌≢◌, ◌⊎◌, refl, Bool, suc, [], ◌∷◌, Option, none, some, arith, ◌==◌, ==-refl,
  if◌then◌else◌,
}
use poplar.Run.{ok}
use poplar.Hash.{Hash, find, hash_get, hash_lookup, hash_release, hash_clean, hash_alloc_intern}
use poplar.Hash.Valid.{CmpLaws, IsValid}
use poplar.Hash.Lookup.{get-lookup}
use poplar.Hash.Release.{release-lookup}

abbrev self : ℕ → ℕ
self n = n

abbrev same : ℕ → ℕ → Bool
same a b = a == b

same-laws : CmpLaws self same
same-laws = record {
  reflexive = λ a. ==-refl a;
  symmetric = λ a b e. ground arith;
  transitive = λ a b c e f. ground arith;
  same_key = λ a b e. ground arith;
}

-- 5 and 1 share a chain.
abbrev three : Hash ℕ
three = record {
  index =
      []
      ∷ ((record { key = 5; value = 5 } ∷ record { key = 1; value = 1 } ∷ [])
          ∷ ([] ∷ ((record { key = 7; value = 7 } ∷ []) ∷ [])));
  size = 4;
  hash_key = self;
  hash_cmp = same;
  count = 3;
}

three-IsValid : IsValid three
unfolding find
three-IsValid = record {
  sized = refl;
  positive = omega arith;
  count = refl;
  unique = (tt, (((refl, (refl, tt)), (tt, ((refl, tt), tt)))));
}

get-lookup_example :
    (r : ℕ) × (u : Hash ℕ) × (hash_get three 9 (some hash_alloc_intern) ≡ ok (some r, u))
    × IsValid u
    × (hash_lookup u 5 ≡ (if three.hash_cmp 9 5 then ok (some r) else hash_lookup three 5))
    × (((hash_lookup three 9 ≡ ok (some r)) × (u ≡ three))
        ⊎ ((hash_lookup three 9 ≡ ok none) × (r ≡ 9) × (u.count ≡ suc three.count)))
get-lookup_example =
    get-lookup three same-laws 9 9 5 hash_alloc_intern three-IsValid refl refl (omega arith)

release-lookup_example :
    (r : Option ℕ) × (u : Hash ℕ) × (hash_release three 1 ≡ ok (r, u))
    × (hash_lookup three 1 ≡ ok r)
    × IsValid u
    × (hash_lookup u 5 ≡ (if three.hash_cmp 1 5 then ok none else hash_lookup three 5))
    × (((r ≡ none) × (u ≡ three)) ⊎ ((r ≢ none) × (suc u.count ≡ three.count)))
release-lookup_example = release-lookup three same-laws 1 5 three-IsValid (omega arith)

clean_order : (hash_clean three).0 ≡ 5 ∷ 1 ∷ 7 ∷ []
unfolding hash_clean
clean_order = refl

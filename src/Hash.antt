-- ===== src/Hash.antt =====
-- common/hash.c and common/hash.h: a table of chains. No two chains share a backet and nothing else
-- points to one, so the array `index` is a list of chains, and a chain a list of backets. NULL for
-- a pointer to data is `none`; the field and the arguments `data` are `value` here.
pub mod Valid
pub mod Lookup
pub mod Release
pub mod Whole
mod Tests
use poplar.Prelude.{
  ℕ, zero, suc, ◌+◌, ◌-◌, ◌%◌, ◌^◌, Bool, ◌&&◌, List, [], ◌∷◌, ◌++◌, Option, none, some, get_elem?,
  set, replicate, ◌==◌, if◌then◌else◌,
}
use poplar.Run.{Run, ok, fault, out_of_bounds, division_by_zero, ◌>>=◌}

-- struct hash_backet
pub record Backet {ℓ} (A : Type ℓ) : Type ℓ where
  pub key : ℕ
  pub value : A

-- struct hash
pub record Hash {ℓ} (A : Type ℓ) : Type ℓ where
  pub index : List (List (Backet A))
  pub size : ℕ
  pub hash_key : A → ℕ
  pub hash_cmp : A → A → Bool
  pub count : ℕ

abbrev pub default_size : ℕ
default_size = 1024

-- `key % size`
abbrev pub modulo : ℕ → ℕ → Run ℕ
modulo key size = if size == 0 then fault division_by_zero else ok (key % size)

module _ {ℓ} {A : Type ℓ} where
  unfoldable pub hash_create_size : ℕ → (A → ℕ) → (A → A → Bool) → Hash A
  hash_create_size size hash_key hash_cmp = record {
    index = replicate size [];
    size = size;
    hash_key = hash_key;
    hash_cmp = hash_cmp;
    count = 0;
  }

  unfoldable pub hash_create : (A → ℕ) → (A → A → Bool) → Hash A
  unfolding hash_create_size
  hash_create hash_key hash_cmp = hash_create_size default_size hash_key hash_cmp

  abbrev pub hash_alloc_intern : A → Option A
  hash_alloc_intern arg = some arg

  -- `hash->index[i]`
  abbrev pub chain_at : List (List (Backet A)) → ℕ → Run (List (Backet A))
  chain_at index i = elim (get_elem? index i) [ none ↦ fault out_of_bounds | some c ↦ ok c ]

  -- The test that hash_get and hash_release make on a backet.
  abbrev pub is_match : (A → A → Bool) → ℕ → A → Backet A → Bool
  is_match cmp key value b = (b.key == key) && cmp b.value value

  -- The loop of hash_get.
  unfoldable pub find : (A → A → Bool) → ℕ → A → List (Backet A) → Option A
  find cmp key value [] = none
  find cmp key value (b ∷ bs) =
      if is_match cmp key value b then some b.value else find cmp key value bs

  -- alloc_func is a function pointer that may be NULL; it may return NULL.
  unfoldable pub hash_get : Hash A → A → Option (A → Option A) → Run (Option A × Hash A)
  unfolding find
  hash_get hash value alloc_func = do
    let key = hash.hash_key value
    i ← modulo key hash.size
    chain ← chain_at hash.index i
    elim (find hash.hash_cmp key value chain) [
      | some found ↦ ok (some found, hash)
      | none ↦ elim alloc_func [
        | none ↦ ok (none, hash)
        | some alloc ↦ elim (alloc value) [
          | none ↦ ok (none, hash)
          | some newdata ↦ ok (
            some newdata,
            record hash {
              index = set hash.index i (record { key = key; value = newdata } ∷ chain);
              count = (hash.count + 1) % 2 ^ 64;
            },
          )
        ]
      ]
    ]

  unfoldable pub hash_lookup : Hash A → A → Run (Option A)
  unfolding hash_get
  hash_lookup hash value = hash_get hash value none >>= λ (found, h). ok found

  -- The loop of hash_release: the data of the first match, and the chain without it.
  unfoldable pub unlink : (A → A → Bool) → ℕ → A → List (Backet A) → Option (A × List (Backet A))
  unlink cmp key value [] = none
  unlink cmp key value (b ∷ bs) =
      let rest = unlink cmp key value bs in
      if is_match cmp key value b
      then some (b.value, bs)
      else elim rest [ none ↦ none | some (ret, bs') ↦ some (ret, b ∷ bs') ]

  unfoldable pub hash_release : Hash A → A → Run (Option A × Hash A)
  unfolding unlink
  hash_release hash value = do
    let key = hash.hash_key value
    i ← modulo key hash.size
    chain ← chain_at hash.index i
    elim (unlink hash.hash_cmp key value chain) [
      | none ↦ ok (none, hash)
      | some (ret, chain') ↦ ok (
        some ret,
        record hash { index = set hash.index i chain'; count = (hash.count + 2 ^ 64 - 1) % 2 ^ 64 },
      )
    ]

  -- The inner loop of hash_iterate: what func does is a step on the state it reaches.
  unfoldable pub iterate_chain {κ} : {S : Type κ} → (Backet A → S → S) → List (Backet A) → S → S
  iterate_chain func [] st = st
  iterate_chain func (b ∷ bs) st = iterate_chain func bs (func b st)

  -- For a func that leaves the table alone.
  unfoldable pub iterate_index {κ} :
      {S : Type κ} → (Backet A → S → S) → List (List (Backet A)) → S → S
  unfolding iterate_chain
  iterate_index func [] st = st
  iterate_index func (c ∷ cs) st = iterate_index func cs (iterate_chain func c st)

  unfoldable pub hash_iterate {κ} : {S : Type κ} → Hash A → (Backet A → S → S) → S → S
  unfolding iterate_index
  hash_iterate hash func st = iterate_index func hash.index st

  -- The inner loop of hash_clean: what free_func is called on, and the count that is left.
  unfoldable pub clean_chain : List (Backet A) → List A → ℕ → List A × ℕ
  clean_chain [] freed count = (freed, count)
  clean_chain (b ∷ bs) freed count =
      clean_chain bs (freed ++ (b.value ∷ [])) ((count + 2 ^ 64 - 1) % 2 ^ 64)

  unfoldable pub clean_index :
      List (List (Backet A)) → List A → ℕ → List (List (Backet A)) × List A × ℕ
  unfolding clean_chain
  clean_index [] freed count = ([], freed, count)
  clean_index (c ∷ cs) freed count =
      let (f, n) = clean_chain c freed count in
      let (cs', f', n') = clean_index cs f n in ([] ∷ cs', f', n')

  -- With the data that free_func is called on, in order.
  unfoldable pub hash_clean : Hash A → List A × Hash A
  unfolding clean_index
  hash_clean hash =
      let (index, freed, count) = clean_index hash.index [] hash.count in
      (freed, record hash { index = index; count = count })

-- ===== src/Hash/Whole.antt =====
-- Whole tables: hash_create, hash_iterate and hash_clean.
use poplar.Prelude.{
  ℕ, zero, suc, ◌+◌, ◌-◌, ◌%◌, ◌^◌, ◌≤◌, ◌<◌, ◌≡◌, refl, ap, sym, ◌∙◌, Bool, List, [], ◌∷◌, ◌++◌,
  none, arith, length, get_or, replicate, length-replicate, length-append,
}
use mathlib.Core.List.{append_assoc, append-nil}
use poplar.Run.{ok}
use poplar.Hash.{
  Backet, Hash, find, hash_create_size, hash_create, hash_lookup, iterate_chain, iterate_index,
  hash_iterate, clean_chain, clean_index, hash_clean,
}
use poplar.Hash.Valid.{total, AllUnique, IsValid}
use poplar.Hash.Lookup.{lookup_lem}

total-replicate {ℓ} : (A : Type ℓ) (n : ℕ) → total (replicate {A = List (Backet A)} n []) ≡ 0
total-replicate A zero = refl
total-replicate A (suc n) = omega (arith, total-replicate A n)

module _ {ℓ} {A : Type ℓ} where
  abbrev pub values : List (Backet A) → List A
  values [] = []
  values (b ∷ bs) = b.value ∷ values bs

  -- The data of a table, chain after chain.
  abbrev pub entries : List (List (Backet A)) → List A
  entries [] = []
  entries (c ∷ cs) = values c ++ entries cs

  get_or-replicate : (n i : ℕ) → get_or (replicate {A = List (Backet A)} n []) i [] ≡ []
  get_or-replicate zero i = refl
  get_or-replicate (suc n) zero = refl
  get_or-replicate (suc n) (suc i) = get_or-replicate n i

  AllUnique-replicate :
      (cmp : A → A → Bool) (n : ℕ) → AllUnique cmp (replicate {A = List (Backet A)} n [])
  AllUnique-replicate cmp zero = tt
  AllUnique-replicate cmp (suc n) = (tt, AllUnique-replicate cmp n)

  -- A table whose chains are all empty.
  empty-IsValid :
      (h : Hash A) → h.index ≡ replicate h.size [] → 0 < h.size → h.count ≡ 0 → IsValid h
  empty-IsValid h e p c = record {
    sized = rw e (length-replicate h.size []);
    positive = p;
    count = rw e (c ∙ sym (total-replicate A h.size));
    unique = rw e (AllUnique-replicate h.hash_cmp h.size);
  }

  empty-lookup :
      (h : Hash A) (a : A) → h.index ≡ replicate h.size [] → 0 < h.size → hash_lookup h a ≡ ok none
  unfolding find
  empty-lookup h a e p =
      lookup_lem h a (rw e (length-replicate h.size [])) p
      ∙ rw (e, get_or-replicate h.size (h.hash_key a % h.size))

  -- A table made with a size that is not zero is valid and a lookup in it finds nothing; hash_create
  -- makes one.
  create-lookup :
      (size : ℕ) (key : A → ℕ) (cmp : A → A → Bool) (a : A)
      → 0 < size
      → IsValid (hash_create_size size key cmp)
        × (hash_lookup (hash_create_size size key cmp) a ≡ ok none)
        × IsValid (hash_create key cmp)
        × (hash_lookup (hash_create key cmp) a ≡ ok none)
  unfolding hash_create hash_create_size
  create-lookup size key cmp a p =
      let h = hash_create_size size key cmp in
      let g = hash_create key cmp in
      (
        empty-IsValid h refl p refl,
        empty-lookup h a refl p,
        empty-IsValid g refl (omega arith) refl,
        empty-lookup g a refl (omega arith),
      )

  clean_chain_lem :
      (c : List (Backet A)) (freed : List A) (n : ℕ)
      → length c ≤ n
      → n < 2 ^ 64
      → clean_chain c freed n ≡ (freed ++ values c, n - length c)
  unfolding clean_chain
  clean_chain_lem [] freed n h small =
      rw (append-nil freed) (ap (λ (t : ℕ). (freed, t)) (omega arith))
  clean_chain_lem (b ∷ bs) freed n h small =
      let wrapped : (n + 2 ^ 64 - 1) % 2 ^ 64 ≡ n - 1 = omega arith in
      let ih = clean_chain_lem bs (freed ++ (b.value ∷ [])) (n - 1) (omega arith) (omega arith) in
      let left : n - 1 - length bs ≡ n - suc (length bs) = omega arith in
      rw (wrapped, ih, append_assoc freed (b.value ∷ []) (values bs), left)

  clean_index_lem :
      (cs : List (List (Backet A))) (freed : List A) (n : ℕ)
      → total cs ≤ n
      → n < 2 ^ 64
      → clean_index cs freed n ≡ (replicate (length cs) [], freed ++ entries cs, n - total cs)
  unfolding clean_index
  clean_index_lem [] freed n h small =
      rw (append-nil freed) (ap (λ (t : ℕ). ([], freed, t)) (omega arith))
  clean_index_lem (c ∷ cs) freed n h small =
      let one = clean_chain_lem c freed n (omega arith) small in
      let ih = clean_index_lem cs (freed ++ values c) (n - length c) (omega arith) (omega arith) in
      let left : n - length c - total cs ≡ n - (length c + total cs) = omega arith in
      rw (one, ih, append_assoc freed (values c) (entries cs), left)

  clean_chain_freed :
      (c : List (Backet A)) (freed : List A) (n : ℕ) → (clean_chain c freed n).0 ≡ freed ++ values c
  unfolding clean_chain
  clean_chain_freed [] freed n = sym (append-nil freed)
  clean_chain_freed (b ∷ bs) freed n =
      clean_chain_freed bs (freed ++ (b.value ∷ [])) ((n + 2 ^ 64 - 1) % 2 ^ 64)
      ∙ append_assoc freed (b.value ∷ []) (values bs)

  clean_index_freed :
      (cs : List (List (Backet A))) (freed : List A) (n : ℕ)
      → (clean_index cs freed n).1 ≡ freed ++ entries cs
  unfolding clean_index
  clean_index_freed [] freed n = sym (append-nil freed)
  clean_index_freed (c ∷ cs) freed n =
      clean_index_freed cs (clean_chain c freed n).0 (clean_chain c freed n).1
      ∙ ap (λ (xs : List A). xs ++ entries cs) (clean_chain_freed c freed n)
      ∙ append_assoc freed (values c) (entries cs)

  -- Whatever the count says, hash_clean calls free_func on the data of the table.
  pub clean-entries : (h : Hash A) → (hash_clean h).0 ≡ entries h.index
  unfolding hash_clean
  clean-entries h = clean_index_freed h.index [] h.count

  iterate_chain_lem :
      (c : List (Backet A)) (seen : List A)
      → iterate_chain (λ b xs. xs ++ (b.value ∷ [])) c seen ≡ seen ++ values c
  unfolding iterate_chain
  iterate_chain_lem [] seen = sym (append-nil seen)
  iterate_chain_lem (b ∷ bs) seen =
      iterate_chain_lem bs (seen ++ (b.value ∷ [])) ∙ append_assoc seen (b.value ∷ []) (values bs)

  iterate_index_lem :
      (cs : List (List (Backet A))) (seen : List A)
      → iterate_index (λ b xs. xs ++ (b.value ∷ [])) cs seen ≡ seen ++ entries cs
  unfolding iterate_index
  iterate_index_lem [] seen = sym (append-nil seen)
  iterate_index_lem (c ∷ cs) seen =
      rw (iterate_chain_lem c seen)
        (iterate_index_lem cs (seen ++ values c) ∙ append_assoc seen (values c) (entries cs))

  length-values : (c : List (Backet A)) → length (values c) ≡ length c
  length-values [] = refl
  length-values (b ∷ bs) = ap suc (length-values bs)

  length-entries : (cs : List (List (Backet A))) → length (entries cs) ≡ total cs
  length-entries [] = refl
  length-entries (c ∷ cs) =
      omega (arith, length-append (values c) (entries cs), length-values c, length-entries cs)

  -- hash_clean on a valid table calls free_func on exactly the data that hash_iterate visits, in
  -- that order and as many as the count says, and leaves a valid table with count 0 in which a
  -- lookup finds nothing.
  clean-iterate :
      (h : Hash A) (a : A)
      → IsValid h
      → h.count < 2 ^ 64
      → (u : Hash A) × (hash_clean h ≡ (hash_iterate h (λ b xs. xs ++ (b.value ∷ [])) [], u))
        × (length (hash_iterate h (λ b xs. xs ++ (b.value ∷ [])) []) ≡ h.count)
        × IsValid u
        × (u.count ≡ 0)
        × (hash_lookup u a ≡ ok none)
  unfolding hash_clean hash_iterate
  clean-iterate h a w small =
      let u : Hash A = record h { index = replicate h.size []; count = 0 } in
      let seen = iterate_index_lem h.index [] in
      (
        u,
        rw (seen, clean_index_lem h.index [] h.count (omega (arith, w.count)) small, w.sized)
            (ap (λ (t : ℕ). (entries h.index, record h { index = replicate h.size []; count = t }))
              (omega (arith, w.count))),
        ap length seen ∙ length-entries h.index ∙ sym w.count,
        empty-IsValid u refl w.positive refl,
        refl,
        empty-lookup u a refl w.positive,
      )

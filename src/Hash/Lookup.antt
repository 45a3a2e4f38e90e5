-- ===== src/Hash/Lookup.antt =====
-- hash_get and hash_lookup: what a lookup finds before and after an insertion.
use poplar.Prelude.{
  ℕ, suc, ◌+◌, ◌%◌, ◌^◌, ◌<◌, ◌≡◌, ◌⊎◌, inl, inr, refl, ap, sym, ◌∙◌, true, List, [], ◌∷◌, Option,
  none, some, arith, length, get_or, set, Bool-cases, Option-cases, eq_cases, get_or-set_at,
  get_or-set_ne, get_elem?-eq-get_or, if◌then◌else◌, length-set,
}
use native.Mathlib.Nat.{mod-lt}
use poplar.Run.{ok, ◌>>=◌}
use poplar.Hash.{Backet, Hash, find, hash_get, hash_lookup, modulo, chain_at}
use poplar.Hash.Valid.{
  CmpLaws, total, IsValid, total-set, AllUnique-set, AllUnique-get_or, find_same, cmp_right,
}

module _ {ℓ} {A : Type ℓ} where
  -- The chain of the keys that share a place with the key of `a`.
  abbrev pub chain : Hash A → A → List (Backet A)
  chain h a = get_or h.index (h.hash_key a % h.size) []

  -- What a lookup finds in a table of its size.
  abbrev pub held : Hash A → A → Option A
  held h a = find h.hash_cmp (h.hash_key a) a (chain h a)

  pub place_lt :
      (h : Hash A) (k : ℕ) → length h.index ≡ h.size → 0 < h.size → k % h.size < length h.index
  place_lt h k e p = omega (arith, mod-lt k p)

  pub modulo_lem : (h : Hash A) (k : ℕ) → 0 < h.size → modulo k h.size ≡ ok (k % h.size)
  modulo_lem h k p = ground arith

  pub chain_at_lem :
      (h : Hash A) (a : A)
      → length h.index ≡ h.size
      → 0 < h.size
      → chain_at h.index (h.hash_key a % h.size) ≡ ok (chain h a)
  chain_at_lem h a e p = rw (
    chain_at,
    get_elem?-eq-get_or h.index (h.hash_key a % h.size) [] (place_lt h (h.hash_key a) e p),
  )

  pub lookup_lem :
      (h : Hash A) (a : A) → length h.index ≡ h.size → 0 < h.size → hash_lookup h a ≡ ok (held h a)
  unfolding hash_lookup
  lookup_lem h a e p =
      rw (modulo_lem h (h.hash_key a) p, ◌>>=◌, chain_at_lem h a e p, ◌>>=◌) (ground arith)

  -- The table with a new backet in front of the chain of `a`.
  abbrev pub inserted : Hash A → A → A → Hash A
  inserted h a v = record h {
    index =
        set h.index (h.hash_key a % h.size) (record { key = h.hash_key a; value = v } ∷ chain h a);
    count = (h.count + 1) % 2 ^ 64;
  }

  pub get_new :
      (h : Hash A) (a v : A) (alloc : A → Option A)
      → IsValid h
      → held h a ≡ none
      → alloc a ≡ some v
      → hash_get h a (some alloc) ≡ ok (some v, inserted h a v)
  unfolding hash_get
  get_new h a v alloc w n s = rw (
    modulo_lem h (h.hash_key a) w.positive,
    ◌>>=◌,
    chain_at_lem h a w.sized w.positive,
    ◌>>=◌,
    n,
    s,
  )

  get_old :
      (h : Hash A) (a v : A) (alloc : Option (A → Option A))
      → IsValid h
      → held h a ≡ some v
      → hash_get h a alloc ≡ ok (some v, h)
  unfolding hash_get
  get_old h a v alloc w s =
      rw (
        modulo_lem h (h.hash_key a) w.positive,
        ◌>>=◌,
        chain_at_lem h a w.sized w.positive,
        ◌>>=◌,
        s,
      )

module _ {ℓ} {A : Type ℓ} (h : Hash A) (laws : CmpLaws h.hash_key h.hash_cmp) where
  pub held_same : (a b : A) → h.hash_cmp a b ≡ true → held h a ≡ held h b
  held_same a b s =
      let k = laws.same_key a b s in
      find_same h.hash_key h.hash_cmp laws _ _ a b (chain h a) k s
      ∙ ap (λ (t : ℕ). find h.hash_cmp (h.hash_key b) b (get_or h.index (t % h.size) [])) k

  pub inserted-IsValid :
      (a v : A)
      → IsValid h
      → held h a ≡ none
      → h.hash_cmp a v ≡ true
      → total h.index + 1 < 2 ^ 64
      → IsValid (inserted h a v)
  inserted-IsValid a v w n s small =
      let i : ℕ = h.hash_key a % h.size in
      let c : List (Backet A) = record { key = h.hash_key a; value = v } ∷ chain h a in
      let lt = place_lt h (h.hash_key a) w.sized w.positive in
      record {
        sized = length-set h.index i c ∙ w.sized;
        positive = w.positive;
        count = omega (arith, w.count, total-set h.index i c lt);
        unique = AllUnique-set h.hash_cmp h.index i c w.unique (
          sym (find_same h.hash_key h.hash_cmp laws _ _ a v (chain h a) refl s) ∙ n,
          AllUnique-get_or h.hash_cmp h.index i w.unique,
        );
      }

  pub held-inserted :
      (a v b : A)
      → IsValid h
      → h.hash_cmp a v ≡ true
      → held (inserted h a v) b ≡ (if h.hash_cmp a b then some v else held h b)
  unfolding find
  held-inserted a v b w s =
      let i : ℕ = h.hash_key a % h.size in
      let j : ℕ = h.hash_key b % h.size in
      let c : List (Backet A) = record { key = h.hash_key a; value = v } ∷ chain h a in
      let lt : i < length h.index = place_lt h (h.hash_key a) w.sized w.positive in
      let vb = cmp_right h.hash_key h.hash_cmp laws a v b s in
      elim (Bool-cases (h.hash_cmp a b)) [
        | inl y ↦
            let k = laws.same_key a b y in
            let e : i ≡ j = ap (λ (t : ℕ). t % h.size) k in
            let here = get_or-set_at h.index i j c [] e lt in rw (here, y, vb, k) (ground arith)
        | inr n ↦ elim (eq_cases i j) [
          | inl e ↦
              let here = get_or-set_at h.index i j c [] e lt in
              rw (here, n, vb, e) (ground (arith, n))
          | inr ne ↦ rw (get_or-set_ne h.index i j c [] ne, n)
        ]
      ]

  -- On a valid table whose hash_cmp is an equivalence that respects hash_key, and that has room in
  -- its count, hash_get with an alloc_func that returns data equal to its argument returns the data
  -- that a lookup found before, with the table unchanged, or else the new data, with one more in the
  -- count. The table stays valid; every later lookup finds that data for what equals the argument
  -- and what it found before for the rest.
  pub get-lookup :
      (a v b : A) (alloc : A → Option A)
      → IsValid h
      → alloc a ≡ some v
      → h.hash_cmp a v ≡ true
      → h.count + 1 < 2 ^ 64
      → (r : A) × (u : Hash A) × (hash_get h a (some alloc) ≡ ok (some r, u))
        × IsValid u
        × (hash_lookup u b ≡ (if h.hash_cmp a b then ok (some r) else hash_lookup h b))
        × (((hash_lookup h a ≡ ok (some r)) × (u ≡ h))
            ⊎ ((hash_lookup h a ≡ ok none) × (r ≡ v) × (u.count ≡ suc h.count)))
  get-lookup a v b alloc w s same small =
      let look = λ (x : A). lookup_lem h x w.sized w.positive in
      elim (Option-cases (held h a)) [
        | inr (r, f) ↦ (
          r,
          h,
          get_old h a r (some alloc) w f,
          w,
          elim (Bool-cases (h.hash_cmp a b)) [
            | inl y ↦ rw y (look b ∙ ap ok (sym (held_same a b y) ∙ f))
            | inr n ↦ rw n
          ],
          inl (look a ∙ ap ok f, refl),
        )
        | inl n ↦
            let u = inserted-IsValid a v w n same (omega (arith, w.count)) in
            (
              v,
              inserted h a v,
              get_new h a v alloc w n s,
              u,
              lookup_lem (inserted h a v) b u.sized u.positive
                  ∙ ap ok (held-inserted a v b w same)
                  ∙ rw (look b) (ground arith),
              inr (look a ∙ ap ok n, refl, omega arith),
            )
      ]

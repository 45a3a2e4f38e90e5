-- ===== src/Hash/Valid.antt =====
-- The representation invariant of a hash table, what a comparison function owes, and the loops on
-- one chain.
use poplar.Prelude.{
  ℕ, zero, suc, ◌+◌, ◌<◌, ◌≡◌, inl, inr, refl, sym, ◌∙◌, Bool, true, List, [], ◌∷◌, none, arith,
  length, get_or, set, Bool-cases,
}
use poplar.Hash.{Backet, Hash, find}

-- hash_cmp tells equal data from unequal; equal data have equal keys.
pub record CmpLaws {ℓ} {A : Type ℓ} (key : A → ℕ) (cmp : A → A → Bool) : Type ℓ where
  pub reflexive : (a : A) → cmp a a ≡ true
  pub symmetric : (a b : A) → cmp a b ≡ true → cmp b a ≡ true
  pub transitive : (a b c : A) → cmp a b ≡ true → cmp b c ≡ true → cmp a c ≡ true
  pub same_key : (a b : A) → cmp a b ≡ true → key a ≡ key b

module _ {ℓ} {A : Type ℓ} where
  abbrev pub total : List (List (Backet A)) → ℕ
  total [] = 0
  total (c ∷ cs) = length c + total cs

  -- No backet of a chain matches an earlier one.
  abbrev pub Unique : (A → A → Bool) → List (Backet A) → Type ℓ
  Unique cmp [] = Unit
  Unique cmp (b ∷ bs) = (find cmp b.key b.value bs ≡ none) × Unique cmp bs

  abbrev pub AllUnique : (A → A → Bool) → List (List (Backet A)) → Type ℓ
  AllUnique cmp [] = Unit
  AllUnique cmp (c ∷ cs) = Unique cmp c × AllUnique cmp cs

  pub record IsValid (h : Hash A) : Type ℓ where
    pub sized : length h.index ≡ h.size
    pub positive : 0 < h.size
    pub count : h.count ≡ total h.index
    pub unique : AllUnique h.hash_cmp h.index

  pub total-set :
      (cs : List (List (Backet A))) (i : ℕ) (c : List (Backet A))
      → i < length cs
      → total (set cs i c) + length (get_or cs i []) ≡ total cs + length c
  total-set [] i c h = absurd (omega arith)
  total-set (d ∷ cs) zero c h = omega arith
  total-set (d ∷ cs) (suc i) c h = omega (arith, total-set cs i c (omega arith))

  pub AllUnique-set :
      (cmp : A → A → Bool) (cs : List (List (Backet A))) (i : ℕ) (c : List (Backet A))
      → AllUnique cmp cs
      → Unique cmp c
      → AllUnique cmp (set cs i c)
  AllUnique-set cmp [] i c u v = tt
  AllUnique-set cmp (d ∷ cs) zero c u v = (v, u.1)
  AllUnique-set cmp (d ∷ cs) (suc i) c u v = (u.0, AllUnique-set cmp cs i c u.1 v)

  pub AllUnique-get_or :
      (cmp : A → A → Bool) (cs : List (List (Backet A))) (i : ℕ)
      → AllUnique cmp cs
      → Unique cmp (get_or cs i [])
  AllUnique-get_or cmp [] i u = tt
  AllUnique-get_or cmp (c ∷ cs) zero u = u.0
  AllUnique-get_or cmp (c ∷ cs) (suc i) u = AllUnique-get_or cmp cs i u.1

module _ {ℓ} {A : Type ℓ} (key : A → ℕ) (cmp : A → A → Bool) (laws : CmpLaws key cmp) where
  cmp_left : (a b c : A) → cmp a b ≡ true → cmp c a ≡ cmp c b
  cmp_left a b c e = elim (Bool-cases (cmp c a)) [
    | inl y ↦ y ∙ sym (laws.transitive c a b y e)
    | inr n ↦ elim (Bool-cases (cmp c b)) [
      | inl y ↦ cc (laws.transitive c b a y (laws.symmetric a b e))
      | inr m ↦ n ∙ sym m
    ]
  ]

  pub cmp_right : (a b c : A) → cmp a b ≡ true → cmp b c ≡ cmp a c
  cmp_right a b c e = elim (Bool-cases (cmp a c)) [
    | inl y ↦ laws.transitive b a c (laws.symmetric a b e) y ∙ sym y
    | inr n ↦ elim (Bool-cases (cmp b c)) [
      | inl y ↦ cc (laws.transitive a b c e y)
      | inr m ↦ m ∙ sym n
    ]
  ]

  -- Equal data find the same backet.
  pub find_same :
      (k l : ℕ) (a b : A) (bs : List (Backet A))
      → k ≡ l
      → cmp a b ≡ true
      → find cmp k a bs ≡ find cmp l b bs
  unfolding find
  find_same k l a b [] e s = refl
  find_same k l a b (x ∷ bs) e s = rw (e, cmp_left a b x.value s, find_same k l a b bs e s)

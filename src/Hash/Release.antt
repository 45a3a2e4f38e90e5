-- ===== src/Hash/Release.antt =====
-- hash_release: what it returns and what the table holds afterwards.
use poplar.Prelude.{
  ℕ, suc, ◌+◌, ◌-◌, ◌%◌, ◌^◌, ◌<◌, ◌≡◌, ◌≢◌, ◌⊎◌, inl, inr, refl, ap, sym, subst, ◌∙◌, Bool, true,
  false, List, [], ◌∷◌, Option, none, some, arith, length, get_or, set, Bool-cases, Option-cases,
  eq_cases, get_or-set_at, get_or-set_ne, length-set, if◌then◌else◌,
}
use poplar.Run.{ok, ◌>>=◌}
use poplar.Hash.{Backet, Hash, is_match, find, unlink, hash_lookup, hash_release}
use poplar.Hash.Valid.{
  CmpLaws, Unique, IsValid, total-set, AllUnique-set, AllUnique-get_or, find_same, cmp_right,
}
use poplar.Hash.Lookup.{chain, held, lookup_lem, modulo_lem, chain_at_lem, place_lt, held_same}

module _ {ℓ} {A : Type ℓ} (key : A → ℕ) (cmp : A → A → Bool) (laws : CmpLaws key cmp) where
  -- What unlink leaves of a chain in which it finds `v`.
  pub record Unlinks (k : ℕ) (a : A) (bs : List (Backet A)) (v : A) (bs' : List (Backet A))
      : Type ℓ where
    pub runs : unlink cmp k a bs ≡ some (v, bs')
    pub gone : find cmp k a bs' ≡ none
    pub others : (l : ℕ) (b : A) → cmp a b ≡ false → find cmp l b bs' ≡ find cmp l b bs
    pub absent : (l : ℕ) (b : A) → find cmp l b bs ≡ none → find cmp l b bs' ≡ none
    pub unique : Unique cmp bs'
    pub shorter : suc (length bs') ≡ length bs

  match_parts :
      (k : ℕ) (a : A) (b : Backet A)
      → is_match cmp k a b ≡ true
      → (b.key ≡ k) × (cmp b.value a ≡ true)
  match_parts k a b m = ground arith

  unlink_head :
      (k : ℕ) (a : A) (b : Backet A) (bs : List (Backet A))
      → Unique cmp (b ∷ bs)
      → is_match cmp k a b ≡ true
      → Unlinks k a (b ∷ bs) b.value bs
  unfolding unlink find
  unlink_head k a b bs u m =
      let (e, s) = match_parts k a b m in
      record {
        runs = rw m;
        gone = sym (find_same key cmp laws _ _ b.value a bs e s) ∙ u.0;
        others = λ l c n. ground (arith, cmp_right key cmp laws b.value a c s, n);
        absent = λ l c n. ground (arith, n);
        unique = u.1;
        shorter = refl;
      }

  find-none :
      (l : ℕ) (c : A) (b : Backet A) (bs : List (Backet A))
      → find cmp l c (b ∷ bs) ≡ none
      → (is_match cmp l c b ≡ false) × (find cmp l c bs ≡ none)
  unfolding find
  find-none l c b bs n = ground (arith, n)

  find_head :
      (k : ℕ) (a v : A) (b : Backet A) (bs : List (Backet A))
      → is_match cmp k a b ≡ true
      → find cmp k a (b ∷ bs) ≡ some v
      → b.value ≡ v
  unfolding find
  find_head k a v b bs m f = ground (arith, m, f)

  find_tail :
      (k : ℕ) (a v : A) (b : Backet A) (bs : List (Backet A))
      → is_match cmp k a b ≡ false
      → find cmp k a (b ∷ bs) ≡ some v
      → find cmp k a bs ≡ some v
  unfolding find
  find_tail k a v b bs m f = ground (arith, m, f)

  unlink_tail :
      (k : ℕ) (a v : A) (b : Backet A) (bs bs' : List (Backet A))
      → Unique cmp (b ∷ bs)
      → is_match cmp k a b ≡ false
      → Unlinks k a bs v bs'
      → Unlinks k a (b ∷ bs) v (b ∷ bs')
  unfolding unlink find
  unlink_tail k a v b bs bs' u m r = record {
    runs = rw (r.runs, m);
    gone = rw m r.gone;
    others = λ l c n. rw (r.others l c n);
    absent = λ l c n. let (q, e) = find-none l c b bs n in rw q (r.absent l c e);
    unique = (r.absent b.key b.value u.0, r.unique);
    shorter = ap suc r.shorter;
  }

  pub unlink_found :
      (k : ℕ) (a v : A) (bs : List (Backet A))
      → Unique cmp bs
      → find cmp k a bs ≡ some v
      → (bs' : List (Backet A)) × Unlinks k a bs v bs'
  unfolding find
  unlink_found k a v [] u f = cc
  unlink_found k a v (b ∷ bs) u f = elim (Bool-cases (is_match cmp k a b)) [
    | inl m ↦ (
      bs,
      subst (λ t. Unlinks k a (b ∷ bs) t bs) (find_head k a v b bs m f) (unlink_head k a b bs u m),
    )
    | inr m ↦
        let (bs', r) = unlink_found k a v bs u.1 (find_tail k a v b bs m f) in
        (b ∷ bs', unlink_tail k a v b bs bs' u m r)
  ]

  pub unlink-none :
      (k : ℕ) (a : A) (bs : List (Backet A)) → find cmp k a bs ≡ none → unlink cmp k a bs ≡ none
  unfolding find unlink
  unlink-none k a [] f = refl
  unlink-none k a (b ∷ bs) f = ground (arith, unlink-none k a bs)

module _ {ℓ} {A : Type ℓ} (h : Hash A) (laws : CmpLaws h.hash_key h.hash_cmp) where
  -- The table with the chain of `a` replaced.
  unfoldable pub without : A → List (Backet A) → Hash A
  without a bs = record h {
    index = set h.index (h.hash_key a % h.size) bs;
    count = (h.count + 2 ^ 64 - 1) % 2 ^ 64;
  }

  pub release_found :
      (a v : A) (bs : List (Backet A))
      → IsValid h
      → unlink h.hash_cmp (h.hash_key a) a (chain h a) ≡ some (v, bs)
      → hash_release h a ≡ ok (some v, without a bs)
  unfolding hash_release without
  release_found a v bs w e =
      rw (
        modulo_lem h (h.hash_key a) w.positive,
        ◌>>=◌,
        chain_at_lem h a w.sized w.positive,
        ◌>>=◌,
        e,
      )

  release_none :
      (a : A)
      → IsValid h
      → unlink h.hash_cmp (h.hash_key a) a (chain h a) ≡ none
      → hash_release h a ≡ ok (none, h)
  unfolding hash_release
  release_none a w e =
      rw (
        modulo_lem h (h.hash_key a) w.positive,
        ◌>>=◌,
        chain_at_lem h a w.sized w.positive,
        ◌>>=◌,
        e,
      )

  pub without-IsValid :
      (a v : A) (bs : List (Backet A))
      → IsValid h
      → h.count < 2 ^ 64
      → Unlinks h.hash_key h.hash_cmp laws (h.hash_key a) a (chain h a) v bs
      → IsValid (without a bs)
  unfolding without
  without-IsValid a v bs w small r =
      let i : ℕ = h.hash_key a % h.size in
      let lt = place_lt h (h.hash_key a) w.sized w.positive in
      record {
        sized = length-set h.index i bs ∙ w.sized;
        positive = w.positive;
        count = omega (arith, w.count, total-set h.index i bs lt, r.shorter);
        unique = AllUnique-set h.hash_cmp h.index i bs w.unique r.unique;
      }

  pub count-without :
      (a v : A) (bs : List (Backet A))
      → IsValid h
      → h.count < 2 ^ 64
      → Unlinks h.hash_key h.hash_cmp laws (h.hash_key a) a (chain h a) v bs
      → suc (without a bs).count ≡ h.count
  unfolding without
  count-without a v bs w small r =
      let i : ℕ = h.hash_key a % h.size in
      let lt = place_lt h (h.hash_key a) w.sized w.positive in
      omega (arith, w.count, total-set h.index i bs lt, r.shorter)

  pub held-without :
      (a v b : A) (bs : List (Backet A))
      → IsValid h
      → Unlinks h.hash_key h.hash_cmp laws (h.hash_key a) a (chain h a) v bs
      → held (without a bs) b ≡ (if h.hash_cmp a b then none else held h b)
  unfolding without
  held-without a v b bs w r =
      let i : ℕ = h.hash_key a % h.size in
      let j : ℕ = h.hash_key b % h.size in
      let lt : i < length h.index = place_lt h (h.hash_key a) w.sized w.positive in
      elim (Bool-cases (h.hash_cmp a b)) [
        | inl y ↦
            let k = laws.same_key a b y in
            let e : i ≡ j = ap (λ (t : ℕ). t % h.size) k in
            rw (get_or-set_at h.index i j bs [] e lt, y)
              (sym (find_same h.hash_key h.hash_cmp laws _ _ a b bs k y) ∙ r.gone)
        | inr n ↦ elim (eq_cases i j) [
          | inl e ↦
              rw (get_or-set_at h.index i j bs [] e lt, n)
                (r.others (h.hash_key b) b n
                  ∙ ap (λ (t : ℕ). find h.hash_cmp (h.hash_key b) b (get_or h.index t [])) e)
          | inr ne ↦ rw (get_or-set_ne h.index i j bs [] ne, n)
        ]
      ]

  -- On a valid table whose hash_cmp is an equivalence that respects hash_key, hash_release returns
  -- the data that a lookup of its argument finds, or NULL when there is none. The table stays valid
  -- and its count goes down by one when something was found; every later lookup finds nothing for
  -- what equals the argument, and for the rest what it found before.
  pub release-lookup :
      (a b : A)
      → IsValid h
      → h.count < 2 ^ 64
      → (r : Option A) × (u : Hash A) × (hash_release h a ≡ ok (r, u))
        × (hash_lookup h a ≡ ok r)
        × IsValid u
        × (hash_lookup u b ≡ (if h.hash_cmp a b then ok none else hash_lookup h b))
        × (((r ≡ none) × (u ≡ h)) ⊎ ((r ≢ none) × (suc u.count ≡ h.count)))
  release-lookup a b w small =
      let look = λ (x : A). lookup_lem h x w.sized w.positive in
      elim (Option-cases (held h a)) [
        | inl n ↦ (
          none,
          h,
          release_none a w (unlink-none h.hash_key h.hash_cmp laws (h.hash_key a) a (chain h a) n),
          look a ∙ ap ok n,
          w,
          elim (Bool-cases (h.hash_cmp a b)) [
            | inl y ↦ rw y (look b ∙ ap ok (sym (held_same h laws a b y) ∙ n))
            | inr m ↦ rw m
          ],
          inl (refl, refl),
        )
        | inr (v, f) ↦
            let uniq = AllUnique-get_or h.hash_cmp h.index (h.hash_key a % h.size) w.unique in
            let (bs, r) =
              unlink_found h.hash_key h.hash_cmp laws (h.hash_key a) a v (chain h a) uniq f in
            let u = without-IsValid a v bs w small r in
            (
              some v,
              without a bs,
              release_found a v bs w r.runs,
              look a ∙ ap ok f,
              u,
              lookup_lem (without a bs) b u.sized u.positive
                  ∙ ap ok (held-without a v b bs w r)
                  ∙ rw (look b) (ground arith),
              inr (λ e. cc, count-without a v bs w small r),
            )
      ]

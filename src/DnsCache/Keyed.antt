-- ===== src/DnsCache/Keyed.antt =====
-- The backets of the table have the keys of their results, and so a name alone finds a result.
use poplar.Prelude.{
  ℕ, zero, suc, ◌≡◌, inl, inr, refl, ap, ap₂, sym, ◌∙◌, subst, Bool, true, false, ◌&&◌, List, [],
  ◌∷◌, Option, none, some, set, get_or, ◌==◌, ==_iff, if◌then◌else◌, Bool-cases, Option-cases,
}
use poplar.Hash.{Backet, is_match, find, unlink}
use poplar.HashKey.{bkdr_hash}
use poplar.DnsCache.{
  DnsQueryResult, is_same_name, name_at, dns_cache_map_get_key, dns_cache_map_cmp, find_host,
}
use poplar.DnsCache.Names.{same_name-eq}

module _ (results : ℕ → DnsQueryResult) where
  abbrev pub Keyed : List (Backet ℕ) → Type 0
  Keyed [] = Unit
  Keyed (b ∷ bs) = (b.key ≡ dns_cache_map_get_key results b.value) × Keyed bs

  abbrev pub AllKeyed : List (List (Backet ℕ)) → Type 0
  AllKeyed [] = Unit
  AllKeyed (c ∷ cs) = Keyed c × AllKeyed cs

  pub AllKeyed-set :
      (cs : List (List (Backet ℕ))) (i : ℕ) (c : List (Backet ℕ))
      → AllKeyed cs
      → Keyed c
      → AllKeyed (set cs i c)
  AllKeyed-set [] i c k l = tt
  AllKeyed-set (d ∷ cs) zero c k l = (l, k.1)
  AllKeyed-set (d ∷ cs) (suc i) c k l = (k.0, AllKeyed-set cs i c k.1 l)

  pub AllKeyed-get_or : (cs : List (List (Backet ℕ))) (i : ℕ) → AllKeyed cs → Keyed (get_or cs i [])
  AllKeyed-get_or [] i k = tt
  AllKeyed-get_or (c ∷ cs) zero k = k.0
  AllKeyed-get_or (c ∷ cs) (suc i) k = AllKeyed-get_or cs i k.1

  abbrev pub left_of : Option (ℕ × List (Backet ℕ)) → List (Backet ℕ)
  left_of none = []
  left_of (some w) = w.1

  abbrev behind : Backet ℕ → Option (ℕ × List (Backet ℕ)) → Option (ℕ × List (Backet ℕ))
  behind b none = none
  behind b (some w) = some (w.0, b ∷ w.1)

  unlink_hit :
      (cmp : ℕ → ℕ → Bool) (k a : ℕ) (b : Backet ℕ) (bs : List (Backet ℕ))
      → is_match cmp k a b ≡ true
      → unlink cmp k a (b ∷ bs) ≡ some (b.value, bs)
  unfolding unlink
  unlink_hit cmp k a b bs m = rw m

  unlink_miss :
      (cmp : ℕ → ℕ → Bool) (k a : ℕ) (b : Backet ℕ) (bs : List (Backet ℕ))
      (o : Option (ℕ × List (Backet ℕ)))
      → is_match cmp k a b ≡ false
      → unlink cmp k a bs ≡ o
      → unlink cmp k a (b ∷ bs) ≡ behind b o
  unfolding unlink
  unlink_miss cmp k a b bs none m e = rw (e, m)
  unlink_miss cmp k a b bs (some w) m e = rw (e, m)

  pub unlink-Keyed :
      (cmp : ℕ → ℕ → Bool) (k a : ℕ) (bs : List (Backet ℕ))
      → Keyed bs
      → Keyed (left_of (unlink cmp k a bs))
  unfolding unlink
  unlink-Keyed cmp k a [] h = tt
  unlink-Keyed cmp k a (b ∷ bs) h = elim (Bool-cases (is_match cmp k a b)) [
    | inl m ↦ subst (λ o. Keyed (left_of o)) (sym (unlink_hit cmp k a b bs m)) h.1
    | inr m ↦ elim (Option-cases (unlink cmp k a bs)) [
      | inl e ↦ subst (λ o. Keyed (left_of o)) (sym (unlink_miss cmp k a b bs none m e)) tt
      | inr (w, e) ↦
          subst (λ o. Keyed (left_of o)) (sym (unlink_miss cmp k a b bs (some w) m e))
            (h.0, subst (λ o. Keyed (left_of o)) e (unlink-Keyed cmp k a bs h.1))
    ]
  ]

  -- The test on keys and names is the test on names.
  match_name :
      (p : ℕ) (b : Backet ℕ)
      → b.key ≡ dns_cache_map_get_key results b.value
      → is_match (dns_cache_map_cmp results) (dns_cache_map_get_key results p) p b
        ≡ is_same_name (name_at results b.value) (name_at results p)
  unfolding dns_cache_map_get_key dns_cache_map_cmp
  match_name p b e =
      elim (Bool-cases (is_same_name (name_at results b.value) (name_at results p))) [
        | inl y ↦
            let same : b.key ≡ bkdr_hash (name_at results p) =
              e ∙ ap bkdr_hash (same_name-eq (name_at results b.value) (name_at results p) y) in
            rw ((==_iff _ _).1 same, y) refl
        | inr n ↦ rw n (and_false (b.key == bkdr_hash (name_at results p)))
      ]
    where
      and_false : (t : Bool) → (t && false) ≡ false
      and_false true = refl
      and_false false = refl

  find_step :
      (cmp : ℕ → ℕ → Bool) (k p : ℕ) (b : Backet ℕ) (bs : List (Backet ℕ))
      → find cmp k p (b ∷ bs) ≡ (if is_match cmp k p b then some b.value else find cmp k p bs)
  unfolding find
  find_step cmp k p b bs = refl

  host_step :
      (name : List ℕ) (b : Backet ℕ) (bs : List (Backet ℕ))
      → find_host results name (b ∷ bs) ≡ (
          if is_same_name (name_at results b.value) name
          then some b.value
          else find_host results name bs)
  unfolding find_host
  host_step name b bs = elim (Bool-cases (is_same_name (name_at results b.value) name)) [
    | inl y ↦ rw (find_host, y) refl
    | inr n ↦ rw (find_host, n) refl
  ]

  pub find-find_host :
      (p : ℕ) (bs : List (Backet ℕ))
      → Keyed bs
      → find (dns_cache_map_cmp results) (dns_cache_map_get_key results p) p bs
        ≡ find_host results (name_at results p) bs
  unfolding find find_host
  find-find_host p [] h = refl
  find-find_host p (b ∷ bs) h =
      find_step (dns_cache_map_cmp results) (dns_cache_map_get_key results p) p b bs
      ∙ ap₂ (λ (t : Bool) (o : Option ℕ). if t then some b.value else o) (match_name p b h.0)
          (find-find_host p bs h.1)
      ∙ sym (host_step (name_at results p) b bs)

  -- What is found has the name.
  pub find_host-name :
      (name : List ℕ) (bs : List (Backet ℕ)) (r : ℕ)
      → find_host results name bs ≡ some r
      → name_at results r ≡ name
  unfolding find_host
  find_host-name name [] r h = cc
  find_host-name name (b ∷ bs) r h =
      elim (Bool-cases (is_same_name (name_at results b.value) name)) [
        | inl y ↦
            let found : some b.value ≡ some r =
              sym (
                host_step name b bs
                ∙ ap (λ (t : Bool). if t then some b.value else find_host results name bs) y)
              ∙ h in
            subst (λ (q : ℕ). name_at results q ≡ name) (ap value_of found)
              (same_name-eq (name_at results b.value) name y)
        | inr n ↦ find_host-name name bs r (
            sym (
              host_step name b bs
              ∙ ap (λ (t : Bool). if t then some b.value else find_host results name bs) n)
            ∙ h)
      ]
    where
      value_of : Option ℕ → ℕ
      value_of none = 0
      value_of (some v) = v

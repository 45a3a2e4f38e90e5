-- ===== src/DnsCache/Agreement.antt =====
-- What the table and the queue of a cache have to do with each other.
use poplar.Prelude.{
  ℕ, ◌≡◌, inl, inr, refl, ap, sym, ◌∙◌, subst, Bool, true, false, List, [], ◌∷◌, ◌++◌, map, Option,
  none, some, arith, length, ◌==◌, ==_iff, if◌then◌else◌, Bool-cases,
}
use poplar.Hash.{Hash}
use poplar.Hash.Valid.{CmpLaws}
use poplar.Hash.Lookup.{held}
use poplar.Hash.Valid
use poplar.LinkedList.Added.{Stores}
use poplar.LinkedList.Removed.{remove_first}
use poplar.DnsCache.{
  DnsQueryResult, DnsCache, is_same_name, name_at, dns_cache_map_get_key, dns_cache_map_cmp,
}
use poplar.DnsCache.Keyed.{AllKeyed}
use poplar.DnsCache.Names.{same_name_refl, same_name-eq, cmp-CmpLaws}

module _ (results : ℕ → DnsQueryResult) where
  -- The first result with a name.
  abbrev pub first_named : List ℕ → List ℕ → Option ℕ
  first_named name [] = none
  first_named name (r ∷ rs) =
      if is_same_name (name_at results r) name then some r else first_named name rs

  -- No two of the results have one name.
  abbrev pub Unlike : List ℕ → Type 0
  Unlike [] = Unit
  Unlike (r ∷ rs) = (first_named (name_at results r) rs ≡ none) × Unlike rs

  -- The queue holds the results, the stalest first, and the table finds each by its name and nothing
  -- else.
  pub record Agrees (nodes rs : List ℕ) (cache : DnsCache) : Type 0 where
    pub valid : poplar.Hash.Valid.IsValid cache.map
    pub keys : cache.map.hash_key ≡ dns_cache_map_get_key results
    pub tests : cache.map.hash_cmp ≡ dns_cache_map_cmp results
    pub queued : Stores nodes (map some rs) cache.queue
    pub found : (p : ℕ) → held cache.map p ≡ first_named (name_at results p) rs
    pub unlike : Unlike rs
    pub keyed : AllKeyed results cache.map.index
    pub counts : cache.map.count ≡ length rs

  pub laws_of :
      (h : Hash ℕ)
      → h.hash_key ≡ dns_cache_map_get_key results
      → h.hash_cmp ≡ dns_cache_map_cmp results
      → CmpLaws h.hash_key h.hash_cmp
  laws_of h e f = rw (e, f) (cmp-CmpLaws results)

  same_name_sym : (xs ys : List ℕ) → is_same_name xs ys ≡ false → is_same_name ys xs ≡ false
  same_name_sym xs ys h = elim (Bool-cases (is_same_name ys xs)) [
    | inl y ↦
        cc (subst (λ name. is_same_name name ys ≡ true) (same_name-eq ys xs y) (same_name_refl ys))
    | inr n ↦ n
  ]

  pub none_parts :
      (b : Bool) (r : ℕ) (o : Option ℕ)
      → (if b then some r else o) ≡ none
      → (b ≡ false) × (o ≡ none)
  none_parts true r o h = cc
  none_parts false r o h = (refl, h)

  -- A result behind the others.
  pub first_named-last :
      (name : List ℕ) (rs : List ℕ) (p : ℕ)
      → first_named (name_at results p) rs ≡ none
      → first_named name (rs ++ p ∷ [])
        ≡ (if is_same_name (name_at results p) name then some p else first_named name rs)
  first_named-last name [] p h = refl
  first_named-last name (r ∷ rs) p h =
      let (other, rest) = none_parts _ r _ h in
      elim (Bool-cases (is_same_name (name_at results r) name)) [
        | inl y ↦
            let e = same_name-eq (name_at results r) name y in
            let no : is_same_name (name_at results p) name ≡ false =
              subst (λ n. is_same_name (name_at results p) n ≡ false) e
                (same_name_sym (name_at results r) (name_at results p) other) in
            rw (y, no) refl
        | inr n ↦ rw n (first_named-last name rs p rest)
      ]

  pub Unlike-last :
      (rs : List ℕ) (p : ℕ)
      → Unlike rs
      → first_named (name_at results p) rs ≡ none
      → Unlike (rs ++ p ∷ [])
  Unlike-last [] p u h = (refl, tt)
  Unlike-last (r ∷ rs) p (v, u) h =
      let (other, rest) = none_parts _ r _ h in
      (
        first_named-last (name_at results r) rs p rest
            ∙ rw (same_name_sym (name_at results r) (name_at results p) other) v,
        Unlike-last rs p u rest,
      )

  -- A result among the others.
  pub record Among (as' : List ℕ) (p : ℕ) (bs : List ℕ) : Type 0 where
    pub before : first_named (name_at results p) as' ≡ none
    pub behind : first_named (name_at results p) bs ≡ none
    pub others : Unlike (as' ++ bs)

  lacks_split :
      (name : List ℕ) (as' : List ℕ) (p : ℕ) (bs : List ℕ)
      → first_named name (as' ++ p ∷ bs) ≡ none
      → (is_same_name (name_at results p) name ≡ false) × (first_named name (as' ++ bs) ≡ none)
  lacks_split name [] p bs h = none_parts _ p _ h
  lacks_split name (r ∷ as') p bs h =
      let (other, rest) =
        none_parts (is_same_name (name_at results r) name) r (first_named name (as' ++ p ∷ bs)) h in
      let (q, e) = lacks_split name as' p bs rest in (q, rw other e)

  pub among : (as' : List ℕ) (p : ℕ) (bs : List ℕ) → Unlike (as' ++ p ∷ bs) → Among as' p bs
  among [] p bs (v, u) = record { before = refl; behind = v; others = u }
  among (r ∷ as') p bs (v, u) =
      let k = among as' p bs u in
      let (other, rest) = lacks_split (name_at results r) as' p bs v in
      record {
        before = rw (same_name_sym (name_at results p) (name_at results r) other) k.before;
        behind = k.behind;
        others = (rest, k.others);
      }

  pub first_named-there :
      (as' : List ℕ) (p : ℕ) (bs : List ℕ)
      → first_named (name_at results p) as' ≡ none
      → first_named (name_at results p) (as' ++ p ∷ bs) ≡ some p
  first_named-there [] p bs h = rw (same_name_refl (name_at results p)) refl
  first_named-there (r ∷ as') p bs h =
      let (other, rest) =
        none_parts (is_same_name (name_at results r) (name_at results p)) r
          (first_named (name_at results p) as') h in
      rw other (first_named-there as' p bs rest)

  -- Without it, its name is not found, and the others are.
  pub first_named-without :
      (name : List ℕ) (as' : List ℕ) (p : ℕ) (bs : List ℕ)
      → first_named (name_at results p) as' ≡ none
      → first_named (name_at results p) bs ≡ none
      → (if is_same_name (name_at results p) name then none else first_named name (as' ++ p ∷ bs))
        ≡ first_named name (as' ++ bs)
  first_named-without name [] p bs h k = elim (Bool-cases (is_same_name (name_at results p) name)) [
    | inl y ↦
        rw y
          (sym (subst (λ n. first_named n bs ≡ none) (same_name-eq (name_at results p) name y) k))
    | inr n ↦ rw n refl
  ]
  first_named-without name (r ∷ as') p bs h k =
      let (other, rest) = none_parts _ r _ h in
      elim (Bool-cases (is_same_name (name_at results p) name)) [
        | inl y ↦
            let no : is_same_name (name_at results r) name ≡ false =
              subst (λ n. is_same_name (name_at results r) n ≡ false)
                (same_name-eq (name_at results p) name y) other in
            rw (y, no)
              (subst
                (λ (b : Bool).
                  (if b then none else first_named name (as' ++ p ∷ bs))
                  ≡ first_named name (as' ++ bs))
                y (first_named-without name as' p bs rest k))
        | inr n ↦
            let eq =
              subst
                (λ (b : Bool).
                  (if b then none else first_named name (as' ++ p ∷ bs))
                  ≡ first_named name (as' ++ bs))
                n (first_named-without name as' p bs rest k) in
            rw n (
              ap (λ (o : Option ℕ). if is_same_name (name_at results r) name then some r else o) eq)
      ]

  pub remove_first-there :
      (as' : List ℕ) (p : ℕ) (bs : List ℕ)
      → first_named (name_at results p) as' ≡ none
      → remove_first (some p) (map some (as' ++ p ∷ bs)) ≡ map some (as' ++ bs)
  remove_first-there [] p bs h = let itself : (p == p) ≡ true = ground arith in rw itself refl
  remove_first-there (r ∷ as') p bs h =
      let (other, rest) = none_parts _ r _ h in
      let no : (r == p) ≡ false = unlike_address r p other in
      rw no (ap (λ m. some r ∷ m) (remove_first-there as' p bs rest))
    where
      unlike_address :
          (r p : ℕ)
          → is_same_name (name_at results r) (name_at results p) ≡ false
          → (r == p) ≡ false
      unlike_address r p h = elim (Bool-cases (r == p)) [
        | inl y ↦ cc (
            subst (λ (q : ℕ). is_same_name (name_at results r) (name_at results q) ≡ true)
              ((==_iff r p).0 y) (same_name_refl (name_at results r)))
        | inr n ↦ n
      ]

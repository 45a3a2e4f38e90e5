-- ===== src/DnsCache/Names.antt =====
-- The test of two names is their equality, and so the table may rely on it.
use poplar.Prelude.{
  ℕ, ◌≡◌, refl, ap, ap₂, subst, Bool, true, ◌&&◌, List, [], ◌∷◌, arith, length, ◌==◌, ==_iff,
  ==-refl,
}
use poplar.HashKey.{bkdr_hash}
use poplar.Hash.Valid.{CmpLaws}
use poplar.DnsCache.{
  DnsQueryResult, same_chars, is_same_name, name_at, dns_cache_map_get_key, dns_cache_map_cmp,
}

and_parts : (p q : Bool) → (p && q) ≡ true → (p ≡ true) × (q ≡ true)
and_parts p q h = ground arith

same_chars_refl : (xs : List ℕ) → same_chars xs xs ≡ true
same_chars_refl [] = refl
same_chars_refl (x ∷ xs) = rw (==-refl x) (same_chars_refl xs)

same_chars-eq : (xs ys : List ℕ) → same_chars xs ys ≡ true → xs ≡ ys
same_chars-eq [] [] h = refl
same_chars-eq [] (y ∷ ys) h = cc
same_chars-eq (x ∷ xs) [] h = cc
same_chars-eq (x ∷ xs) (y ∷ ys) h =
    let (a, b) = and_parts (x == y) (same_chars xs ys) h in
    ap₂ (λ c cs. c ∷ cs) ((==_iff x y).0 a) (same_chars-eq xs ys b)

pub same_name_refl : (xs : List ℕ) → is_same_name xs xs ≡ true
unfolding is_same_name
same_name_refl xs = rw (==-refl (length xs)) (same_chars_refl xs)

pub same_name-eq : (xs ys : List ℕ) → is_same_name xs ys ≡ true → xs ≡ ys
unfolding is_same_name
same_name-eq xs ys h = same_chars-eq xs ys (and_parts _ _ h).1

-- DnsCacheMapCmp is an equivalence, and results that it takes for the same have the same key.
pub cmp-CmpLaws :
    (results : ℕ → DnsQueryResult)
    → CmpLaws (dns_cache_map_get_key results) (dns_cache_map_cmp results)
unfolding dns_cache_map_get_key dns_cache_map_cmp
cmp-CmpLaws results = record {
  reflexive = λ p. same_name_refl (name_at results p);
  symmetric = λ p q e.
      subst (λ name. is_same_name name (name_at results p) ≡ true)
        (same_name-eq (name_at results p) (name_at results q) e)
        (same_name_refl (name_at results p));
  transitive = λ p q r e f.
      subst (λ name. is_same_name (name_at results p) name ≡ true)
        (same_name-eq (name_at results q) (name_at results r) f) e;
  same_key = λ p q e. ap bkdr_hash (same_name-eq (name_at results p) (name_at results q) e);
}

-- ===== src/Dns/Checking.antt =====
-- What check_dns_name_pkt_format accepts, and what it never gets past.
use poplar.Prelude.{
  ℕ, zero, suc, ◌+◌, ◌<◌, ◌≤◌, ◌≡◌, refl, sym, ap, subst, ◌∙◌, true, false, List, [], ◌∷◌, ◌++◌,
  none, some, arith, length, ltb, ◌==◌,
}
use poplar.Prelude.Lists.{length-append}
use mathlib.Core.List.{append_assoc}
use poplar.Run.{ok, load}
use poplar.Dns.{stride, check_from, check_dns_name_pkt_format}
use poplar.Dns.Names.{Labels, encode, load_at}

at_length :
    (fuel : ℕ) (name : List ℕ) (len ptr c : ℕ)
    → ltb ptr len ≡ true
    → load name ptr ≡ ok c
    → check_from (suc fuel) name len ptr ≡ check_from fuel name len (ptr + stride c)
unfolding check_from
at_length fuel name len ptr c h e = rw (check_from, h, e) refl

at_last :
    (fuel : ℕ) (name : List ℕ) (len ptr : ℕ)
    → ptr ≡ len
    → check_from fuel name len ptr ≡ some (ok true)
unfolding check_from
at_last zero name len ptr e =
    let over : ltb ptr len ≡ false = ground (arith, e) in
    let same : (ptr == len) ≡ true = ground (arith, e) in rw (check_from, over, same) refl
at_last (suc fuel) name len ptr e =
    let over : ltb ptr len ≡ false = ground (arith, e) in
    let same : (ptr == len) ≡ true = ground (arith, e) in rw (check_from, over, same) refl

not_empty : (ls : List (List ℕ)) → 0 < length (encode ls)
not_empty [] = omega arith
not_empty (l ∷ ls) = omega arith

accepts_all :
    (ls : List (List ℕ)) (pre name : List ℕ) (fuel len : ℕ)
    → Labels 128 ls
    → name ≡ pre ++ encode ls
    → length name ≡ len + 1
    → length ls ≤ fuel
    → check_from fuel name len (length pre) ≡ some (ok true)
accepts_all [] pre name fuel len h e same enough =
    at_last fuel name len (length pre)
      (omega (arith, same, ap length e, length-append pre (0 ∷ [])))
accepts_all (l ∷ ls) pre name zero len h e same enough = ground arith
accepts_all (l ∷ ls) pre name (suc fuel) len (p, small, h) e same enough =
    let rest = l ++ encode ls in
    let total = ap length e ∙ length-append pre (length l ∷ rest) in
    let more = length-append l (encode ls) in
    let behind = pre ++ length l ∷ l in
    let there = length-append pre (length l ∷ l) in
    let left = not_empty ls in
    let inside : ltb (length pre) len ≡ true = ground (arith, same, total, more, left) in
    let walk : stride (length l) ≡ length l + 1 = ground (arith, small) in
    at_length fuel name len (length pre) (length l) inside
      (subst (λ as'. load as' (length pre) ≡ ok (length l)) (sym e) (load_at pre (length l) rest))
    ∙ ap (λ k. check_from fuel name len k) (ap (λ k. length pre + k) walk ∙ omega (arith, there))
    ∙ accepts_all ls behind name fuel len h (e ∙ sym (append_assoc pre (length l ∷ l) (encode ls)))
        same (omega arith)

-- On what encode gives for labels without dots and zeros, shorter than 128, less the 0 at the end,
-- check_dns_name_pkt_format ends, with fuel for every label, reads inside the name and accepts it.
pub check-encode :
    (ls : List (List ℕ)) (fuel len : ℕ)
    → Labels 128 ls
    → length (encode ls) ≡ len + 1
    → length ls ≤ fuel
    → check_dns_name_pkt_format fuel (encode ls) len ≡ some (ok true)
unfolding check_dns_name_pkt_format
check-encode ls fuel len h same enough = accepts_all ls [] (encode ls) fuel len h refl same enough

-- The pointer stays at a char 255, which is -1 as a number.
stays :
    (fuel len : ℕ) (pre rest : List ℕ)
    → length pre < len
    → check_from fuel (pre ++ 255 ∷ rest) len (length pre) ≡ none
unfolding check_from
stays zero len pre rest h =
    let inside : ltb (length pre) len ≡ true = ground (arith, h) in rw (check_from, inside) refl
stays (suc fuel) len pre rest h =
    let inside : ltb (length pre) len ≡ true = ground (arith, h) in
    at_length fuel (pre ++ 255 ∷ rest) len (length pre) 255 inside (load_at pre 255 rest)
    ∙ ap (λ k. check_from fuel (pre ++ 255 ∷ rest) len k) (omega arith)
    ∙ stays fuel len pre rest h

-- On a name that is not empty and starts with a char 255, check_dns_name_pkt_format does not end,
-- whatever fuel it has and whatever follows.
pub never_ends :
    (fuel len : ℕ) (rest : List ℕ)
    → 0 < len
    → check_dns_name_pkt_format fuel (255 ∷ rest) len ≡ none
unfolding check_dns_name_pkt_format
never_ends fuel len rest h = stays fuel len [] rest h

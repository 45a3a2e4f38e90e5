-- ===== src/HttpCache/Closing.antt =====
-- The end of urlDirname: the slash behind the host, and the NUL.
use poplar.Prelude.{
  ℕ, zero, suc, ◌+◌, ◌-◌, ◌≤◌, ◌<◌, ◌≡◌, ◌⊎◌, inl, inr, refl, ap, ◌∙◌, subst, Bool, true, false,
  List, [], ◌∷◌, ◌++◌, none, some, arith, length, set, take, ◌==◌, if◌then◌else◌, le→leb, lt→leb,
  get_or,
}
use poplar.Prelude.Lists.{length-append, length-set, get_or-set_self}
use poplar.Prelude.Int.{ℤ, pos, negsuc}
use poplar.Run.{ok}
use mathlib.Core.List.{append_assoc}
use poplar.HttpCache.{Written, close_dirname}
use poplar.HttpCache.Escape.{host_of, encode_host, dotdot, stored, grown}
use poplar.HttpCache.Step.{le_cases}
use poplar.HttpCache.Host.{Loops}

-- The root with a slash at its end.
abbrev pub slashed : List ℕ → List ℕ
slashed path = if get_or path (length path - 1) 0 == 47 then path else path ++ 47 ∷ []

-- The directory of a URL, of the chars behind "http://".
abbrev pub dirname : List ℕ → List ℕ → List ℕ
dirname path cs = slashed path ++ (encode_host (host_of cs) ++ 47 ∷ [])

-- The result is the length of the directory, which is in the buffer with a NUL behind it; or it is
-- -1, where the host has two dots in a row or the directory and the NUL do not fit.
abbrev pub Outcome : ℕ → ℕ → List ℕ → Bool → List ℕ × ℤ → Type 0
Outcome n size dir dots (out, r) =
    (length out ≡ size)
    × (((dots ≡ false)
          × (length dir < n)
          × (r ≡ pos (length dir))
          × (take (length dir) out ≡ dir)
          × (get_or out (length dir) 1 ≡ 0))
        ⊎ (((dots ≡ true) ⊎ (n ≤ length dir)) × (r ≡ negsuc 0)))

pub take-set_self : (xs : List ℕ) (n v : ℕ) → take n (set xs n v) ≡ take n xs
take-set_self [] zero v = refl
take-set_self [] (suc n) v = refl
take-set_self (x ∷ xs) zero v = refl
take-set_self (x ∷ xs) (suc n) v = ap (λ m. x ∷ m) (take-set_self xs n v)

pub length-dir :
    (q host : List ℕ)
    → length (q ++ (encode_host host ++ 47 ∷ [])) ≡ length q + length (encode_host host) + 1
length-dir q host = omega (
  arith,
  length-append q (encode_host host ++ 47 ∷ []),
  length-append (encode_host host) (47 ∷ []),
)

close_short :
    (n k : ℕ) (out : List ℕ)
    → k < length out
    → n ≤ k + 1
    → close_dirname n (out, some k) ≡ ok (set out k 47, negsuc 0)
unfolding close_dirname
close_short n k out h l = rw (close_dirname, stored out k 47 h, le→leb n (k + 1) l) refl

close_lem :
    (n k : ℕ) (out : List ℕ)
    → k + 1 < n
    → n ≤ length out
    → close_dirname n (out, some k) ≡ ok (set (set out k 47) (k + 1) 0, pos (k + 1))
unfolding close_dirname
close_lem n k out h l =
    rw
      (
        close_dirname,
        stored out k 47 (omega arith),
        lt→leb n (k + 1) h,
        stored (set out k 47) (k + 1) 0 (omega (arith, length-set out k 47)),
      )
      refl

pub close-Outcome :
    (n size j : ℕ) (q host : List ℕ) (w : Written)
    → j ≡ length q
    → n ≤ size
    → Loops n size j q host w
    → (r : List ℕ × ℤ) × (close_dirname n w ≡ ok r)
      × Outcome n size (q ++ (encode_host host ++ 47 ∷ [])) (dotdot host) r
unfolding close_dirname
close-Outcome n size j q host (out, none) e h (inl p, l) =
    ((out, negsuc 0), refl, (l, inr (inl p, refl)))
close-Outcome n size j q host (out, none) e h (inr p, l) =
    ((out, negsuc 0), refl, (l, inr (inr (omega (arith, length-dir q host)), refl)))
close-Outcome n size j q host (out, some k) e h (p, at, in', t, l) = elim (le_cases n (k + 1)) [
  | inl m ↦ (
    (set out k 47, negsuc 0),
    close_short n k out (omega arith) m,
    (length-set out k 47 ∙ l, inr (inr (omega (arith, length-dir q host)), refl)),
  )
  | inr m ↦
      let dir = q ++ (encode_host host ++ 47 ∷ []) in
      let o1 = set out k 47 in
      let o2 = set o1 (k + 1) 0 in
      let long : k + 1 ≡ length dir = omega (arith, length-dir q host) in
      let l1 : length o1 ≡ size = length-set out k 47 ∙ l in
      let chars : take (k + 1) o2 ≡ dir =
        take-set_self o1 (k + 1) 0
        ∙ grown out _ k (k + 1) 47 refl t (omega arith)
        ∙ append_assoc q (encode_host host) (47 ∷ []) in
      let nul : get_or o2 (k + 1) 1 ≡ 0 = get_or-set_self o1 (k + 1) 0 1 (omega (arith, l1)) in
      (
        (o2, pos (k + 1)),
        close_lem n k out m (omega arith),
        (
          length-set o1 (k + 1) 0 ∙ l1,
          inl (
            p,
            omega (arith, long),
            ap pos long,
            subst (λ (m : ℕ). take m o2 ≡ dir) long chars,
            subst (λ (m : ℕ). get_or o2 m 1 ≡ 0) long nul,
          ),
        ),
      )
]

-- ===== src/HttpCache/Escape.antt =====
-- How a char of the host is written, and the test for two dots.
use poplar.Prelude.{
  ℕ, zero, suc, ◌+◌, ◌/◌, ◌%◌, ◌≤◌, ◌<◌, ◌≡◌, inl, inr, refl, ap, ◌∙◌, Bool, true, false, ◌&&◌,
  ◌||◌, List, [], ◌∷◌, ◌++◌, none, some, arith, length, set, take, drop, ltb, not, ◌==◌, bit_and,
  if◌then◌else◌, Bool-cases, lt→ltb, ==_iff, get_or,
}
use poplar.Prelude.Lists.{slice, slice-set}
use poplar.Prelude.Bits.{holds_to, holds_to_at}
use poplar.Prelude.Int.{pos}
use poplar.Run.{ok, load, store}
use poplar.Util.{i2h}
use poplar.HttpCache.{Written, is_escaped, doubled}

abbrev pub hex : ℕ → ℕ
hex k = if ltb k 10 then k + 48 else k + 55

-- A char as it stands in the name of a directory.
abbrev pub escape : ℕ → List ℕ
escape c = if is_escaped c then 37 ∷ hex (c / 16) ∷ hex (c % 16) ∷ [] else c ∷ []

-- The chars up to the first slash.
abbrev pub host_of : List ℕ → List ℕ
host_of [] = []
host_of (c ∷ cs) = if c == 47 then [] else c ∷ host_of cs

abbrev pub encode_host : List ℕ → List ℕ
encode_host [] = []
encode_host (c ∷ cs) = escape c ++ encode_host cs

-- A dot before the first of the chars.
abbrev pub dot_pair : ℕ → List ℕ → Bool
dot_pair c [] = false
dot_pair c (d ∷ cs) = (c == 46) && (d == 46)

-- Somewhere two dots follow each other.
abbrev pub dotdot : List ℕ → Bool
dotdot [] = false
dotdot (c ∷ cs) = dot_pair c cs || dotdot cs

digit_table :
    holds_to
      (λ c.
        (i2h (pos (bit_and c 0xF0 / 16)) == hex (c / 16))
        && (i2h (pos (bit_and c 0x0F)) == hex (c % 16)))
      256
    ≡ true
unfolding holds_to i2h
digit_table = refl

pub digits :
    (c : ℕ)
    → c < 256
    → (i2h (pos (bit_and c 0xF0 / 16)) ≡ hex (c / 16)) × (i2h (pos (bit_and c 0x0F)) ≡ hex (c % 16))
digits c h =
    let t = holds_to_at _ 256 c h digit_table in
    let both : (p q : Bool) → (p && q) ≡ true → (p ≡ true) × (q ≡ true) =
      λ p q e. ground (arith, e) in
    ((==_iff _ _).0 (both _ _ t).0, (==_iff _ _).0 (both _ _ t).1)

pub stored : (out : List ℕ) (j v : ℕ) → j < length out → store out j v ≡ ok (set out j v)
unfolding store
stored out j v h = rw (lt→ltb j (length out) h)

-- A write just past the chars `q` adds to them.
pub grown :
    (out q : List ℕ) (j k v : ℕ)
    → k ≡ j + 1
    → take j out ≡ q
    → j < length out
    → take k (set out j v) ≡ q ++ v ∷ []
unfolding slice
grown out q j k v e t h =
    let next : k ≡ suc j = omega (arith, e) in
    ap (λ (m : ℕ). take m (set out j v)) next
    ∙ slice-set out 0 j j v (omega arith) h
    ∙ ap (λ m. m ++ v ∷ []) t

abbrev pub Puts : ℕ → ℕ → ℕ → List ℕ → ℕ → Written → Type 0
Puts n size j q c (out, none) = (n ≤ j + length (escape c)) × (length out ≡ size)
Puts n size j q c (out, some k) =
    (k ≡ j + length (escape c)) × (k < n) × (take k out ≡ q ++ escape c) × (length out ≡ size)

pub load-drop :
    (url : List ℕ) (i c : ℕ) (cs : List ℕ)
    → drop i url ≡ c ∷ cs
    → (load url i ≡ ok c) × (drop (suc i) url ≡ cs)
unfolding load
load-drop [] zero c cs e = cc
load-drop [] (suc i) c cs e = cc
load-drop (x ∷ url) zero c cs e = (ap (λ m. ok (get_or m 0 x)) e, ap (drop 1) e)
load-drop (x ∷ url) (suc i) c cs e = load-drop url i c cs e

-- The test for two dots looks at the next char where there is one.
pub doubled_lem :
    (url : List ℕ) (len i c : ℕ) (cs : List ℕ)
    → drop i url ≡ c ∷ cs
    → i + length (c ∷ cs) ≡ len
    → doubled url len i c ≡ ok (dot_pair c cs)
unfolding doubled
doubled_lem url len i c [] e h =
    let last : ((c == 46) && not (i + 1 == len)) ≡ false = ground (arith, h) in
    rw (doubled, last) refl
doubled_lem url len i c (d ∷ cs) e h = elim (Bool-cases (c == 46)) [
  | inl y ↦
      let more : not (i + 1 == len) ≡ true = ground (arith, h) in
      let k : i + 1 ≡ suc i = omega arith in
      let read : load url (i + 1) ≡ ok d =
        ap (load url) k ∙ (load-drop url (suc i) d cs (load-drop url i c (d ∷ cs) e).1).0 in
      rw (doubled, y, more, read) refl
  | inr y ↦ rw (doubled, y) refl
]

pub host_dot : (c : ℕ) (cs : List ℕ) → dot_pair c (host_of cs) ≡ dot_pair c cs
host_dot c [] = refl
host_dot c (d ∷ cs) = ground arith

-- ===== src/HttpCache/Encoding.antt =====
-- The names of directories: they tell hosts apart, and hold no slash, no NUL and no new pair of dots.
use poplar.Prelude.{
  ℕ, ◌+◌, ◌-◌, ◌*◌, ◌/◌, ◌%◌, ◌<◌, ◌≡◌, ◌≢◌, ◌↔◌, inl, inr, refl, ap, sym, ◌∙◌, true, false, List,
  [], ◌∷◌, ◌++◌, arith, length, drop, ltb, ◌==◌, if◌then◌else◌, Bool-cases,
}
use poplar.Util.Compare.{AllChars}
use poplar.Util.Characters.{SafeName}
use poplar.HttpCache.{fssafe, is_escaped}
use poplar.HttpCache.Escape.{hex, host_of, encode_host, dot_pair, dotdot}
use poplar.HttpCache.Closing.{dirname, slashed}

abbrev unhex : ℕ → ℕ
unhex d = if ltb d 58 then d - 48 else d - 55

-- The chars that a name of a directory stands for.
unfoldable decode_host : List ℕ → List ℕ
decode_host [] = []
decode_host (c ∷ []) = c ∷ []
decode_host (c ∷ d ∷ []) = c ∷ d ∷ []
decode_host (c ∷ d ∷ e ∷ cs) = elim (c == 37) [
  | true ↦ (unhex d * 16 + unhex e) ∷ decode_host cs
  | false ↦ c ∷ decode_host (d ∷ e ∷ cs)
]

decode_plain : (c : ℕ) (cs : List ℕ) → (c == 37) ≡ false → decode_host (c ∷ cs) ≡ c ∷ decode_host cs
unfolding decode_host
decode_plain c [] e = refl
decode_plain c (d ∷ []) e = refl
decode_plain c (d ∷ f ∷ cs) e = rw (decode_host, e) refl

decode_escaped :
    (c : ℕ) (cs : List ℕ)
    → c < 256
    → decode_host (37 ∷ hex (c / 16) ∷ hex (c % 16) ∷ cs) ≡ c ∷ decode_host cs
unfolding decode_host
decode_escaped c cs h = ap (λ (m : ℕ). m ∷ decode_host cs) same
  where
    same : unhex (hex (c / 16)) * 16 + unhex (hex (c % 16)) ≡ c
    same = ground (arith, h)

plain_other : (c : ℕ) → is_escaped c ≡ false → (c == 37) ≡ false
unfolding is_escaped
plain_other c e = ground arith

-- The name of a host in the cache is decoded to the host: no two hosts have one name.
decode-encode_host : (host : List ℕ) → AllChars host → decode_host (encode_host host) ≡ host
unfolding decode_host
decode-encode_host [] h = refl
decode-encode_host (c ∷ host) (small, h) = elim (Bool-cases (is_escaped c)) [
  | inl e ↦
      rw e (decode_escaped c (encode_host host) small ∙ ap (λ m. c ∷ m) (decode-encode_host host h))
  | inr e ↦ rw e (
      decode_plain c (encode_host host) (plain_other c e)
      ∙ ap (λ m. c ∷ m) (decode-encode_host host h))
]

encode_host_inj :
    (xs ys : List ℕ) → AllChars xs → AllChars ys → encode_host xs ≡ encode_host ys → xs ≡ ys
encode_host_inj xs ys h k e =
    sym (decode-encode_host xs h) ∙ ap decode_host e ∙ decode-encode_host ys k

-- The name of a directory is empty, or one dot, exactly where the host is.
pub encode_host-dots :
    (host : List ℕ)
    → AllChars host
    → ((encode_host host ≡ []) ↔ (host ≡ [])) × ((encode_host host ≡ 46 ∷ []) ↔ (host ≡ 46 ∷ []))
unfolding is_escaped fssafe
encode_host-dots host h = (
  (λ e. encode_host_inj host [] h tt e, λ e. ap encode_host e),
  (λ e. encode_host_inj host (46 ∷ []) h (omega arith, tt) e, λ e. ap encode_host e),
)

plain-SafeName : (c : ℕ) → is_escaped c ≡ false → (c ≢ 47) × (c ≢ 0)
unfolding is_escaped fssafe
plain-SafeName c e = (λ p. ground arith, λ p. ground arith)

pub encode_host-SafeName : (host : List ℕ) → AllChars host → SafeName (encode_host host)
encode_host-SafeName [] h = tt
encode_host-SafeName (c ∷ host) (small, h) = elim (Bool-cases (is_escaped c)) [
  | inl e ↦ rw e (
    (omega arith, omega arith),
    ((digit (c / 16) (omega arith)), ((digit (c % 16) (omega arith)), encode_host-SafeName host h)),
  )
  | inr e ↦ rw e (plain-SafeName c e, encode_host-SafeName host h)
]
  where
    digit : (k : ℕ) → k < 16 → (hex k ≢ 47) × (hex k ≢ 0)
    digit k h = (λ p. ground (arith, p, h), λ p. ground (arith, p, h))

not_dot : (c : ℕ) (cs : List ℕ) → (c == 46) ≡ false → dot_pair c cs ≡ false
not_dot c [] e = refl
not_dot c (d ∷ cs) e = rw e refl

escaped_other : (c : ℕ) → is_escaped c ≡ true → (c == 46) ≡ false
unfolding is_escaped fssafe
escaped_other c e = ground arith

dot_pair-encode : (c : ℕ) (host : List ℕ) → dot_pair c (encode_host host) ≡ dot_pair c host
dot_pair-encode c [] = refl
dot_pair-encode c (d ∷ host) = elim (Bool-cases (is_escaped d)) [
  | inl e ↦ rw e (rw (escaped_other d e) refl)
  | inr e ↦ rw e refl
]

pub dotdot-encode : (host : List ℕ) → AllChars host → dotdot (encode_host host) ≡ dotdot host
dotdot-encode [] h = refl
dotdot-encode (c ∷ host) (small, h) = elim (Bool-cases (is_escaped c)) [
  | inl e ↦
      let d1 : (hex (c / 16) == 46) ≡ false = digit (c / 16) in
      let d2 : (hex (c % 16) == 46) ≡ false = digit (c % 16) in
      rw (e, d1, not_dot (hex (c % 16)) (encode_host host) d2, not_dot c host (escaped_other c e))
        (dotdot-encode host h)
  | inr e ↦ rw (e, dot_pair-encode c host, dotdot-encode host h) refl
]
  where
    digit : (k : ℕ) → (hex k == 46) ≡ false
    digit k = ground arith

drop-append : (xs ys : List ℕ) → drop (length xs) (xs ++ ys) ≡ ys
drop-append [] ys = refl
drop-append (x ∷ xs) ys = drop-append xs ys

until_slash : (xs : List ℕ) → SafeName xs → host_of (xs ++ 47 ∷ []) ≡ xs
until_slash [] h = refl
until_slash (x ∷ xs) ((p, q), h) =
    let other : (x == 47) ≡ false = ground (arith, p) in
    rw other (ap (λ m. x ∷ m) (until_slash xs h))

pub host_of-AllChars : (cs : List ℕ) → AllChars cs → AllChars (host_of cs)
host_of-AllChars [] h = tt
host_of-AllChars (c ∷ cs) (small, h) = elim (Bool-cases (c == 47)) [
  | inl e ↦ rw e tt
  | inr e ↦ rw e (small, host_of-AllChars cs h)
]

-- Under one root, two URLs have the same directory exactly where they have the same host.
pub dirname-host_of :
    (path cs ds : List ℕ)
    → AllChars cs
    → AllChars ds
    → (dirname path cs ≡ dirname path ds) ↔ (host_of cs ≡ host_of ds)
dirname-host_of path cs ds hc hd = (
  λ e.
      let back = λ (as' : List ℕ) (h : AllChars as').
        ap host_of (drop-append (slashed path) (encode_host (host_of as') ++ 47 ∷ []))
        ∙ until_slash (encode_host (host_of as'))
            (encode_host-SafeName (host_of as') (host_of-AllChars as' h)) in
      let same : encode_host (host_of cs) ≡ encode_host (host_of ds) =
        sym (back cs hc) ∙ ap (λ m. host_of (drop (length (slashed path)) m)) e ∙ back ds hd in
      encode_host_inj (host_of cs) (host_of ds) (host_of-AllChars cs hc) (host_of-AllChars ds hd)
        same,
  λ e. ap (λ m. slashed path ++ (encode_host m ++ 47 ∷ [])) e,
)

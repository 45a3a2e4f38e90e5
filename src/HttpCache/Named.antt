-- ===== src/HttpCache/Named.antt =====
-- The URLs of which the cache makes a name, and that name as the string that the calls get.
use poplar.Prelude.{
  ℕ, zero, suc, ◌-◌, ◌≤◌, ◌<◌, ◌≡◌, ◌≢◌, inl, inr, refl, ap, ap₂, sym, ◌∙◌, subst, Bool, false,
  List, [], ◌∷◌, ◌++◌, arith, length, take, drop, map, ◌==◌, get_or, Bool-cases,
}
use poplar.Prelude.Int.{ℤ, pos}
use poplar.Run.{ok}
use poplar.Util.{lwr}
use poplar.Util.Compare.{AllChars}
use poplar.Util.Base64.{AllBytes}
use poplar.Util.Characters.{SafeName}
use poplar.HttpCache.{CacheRoot, Stat, http, url_filename}
use poplar.HttpCache.Escape.{host_of, encode_host, dotdot}
use poplar.HttpCache.Encoding.{encode_host-SafeName, host_of-AllChars}
use poplar.HttpCache.Directory.{IsRoot, slashed_yes, slashed_no, chars-drop}
use poplar.HttpCache.Closing.{Outcome, dirname, slashed}
use poplar.HttpCache.Filename.{file, file-Named, url_filename-Outcome}
use poplar.HttpCache.Disk.{chars_of}

abbrev pub NoZero : List ℕ → Type 0
NoZero [] = Unit
NoZero (c ∷ cs) = (c ≢ 0) × NoZero cs

NoZero-append : (xs ys : List ℕ) → NoZero xs → NoZero ys → NoZero (xs ++ ys)
NoZero-append [] ys h k = k
NoZero-append (x ∷ xs) ys (p, h) k = (p, NoZero-append xs ys h k)

pub NoZero-take : (n : ℕ) (xs : List ℕ) → NoZero xs → NoZero (take n xs)
NoZero-take zero xs h = tt
NoZero-take (suc n) [] h = tt
NoZero-take (suc n) (x ∷ xs) (p, h) = (p, NoZero-take n xs h)

SafeName-NoZero : (xs : List ℕ) → SafeName xs → NoZero xs
SafeName-NoZero [] h = tt
SafeName-NoZero (x ∷ xs) ((p, q), h) = (q, SafeName-NoZero xs h)

-- The string in an array whose chars before a NUL are known.
chars_of_lem :
    (out name : List ℕ)
    → NoZero name
    → take (length name) out ≡ name
    → get_or out (length name) 1 ≡ 0
    → chars_of out ≡ name
chars_of_lem [] [] h t z = refl
chars_of_lem [] (c ∷ name) h t z = cc
chars_of_lem (x ∷ out) [] h t z = rw z refl
chars_of_lem (x ∷ out) (c ∷ name) (p, h) t z =
    let same : x ≡ c = ap (λ m. get_or m 0 x) t in
    let other : (x == 0) ≡ false = ground (arith, p, same) in
    rw other (ap₂ (λ a m. a ∷ m) same (chars_of_lem out name h (ap (drop 1) t) z))

-- A root, an md5 and a URL of which the cache makes a name, in arrays of 1024 chars.
pub record HasName (md5 : List ℕ → List ℕ) (root : CacheRoot) (url : List ℕ) : Type 0 where
  pub digest_long : length (md5 url) ≡ 16
  pub digest_bytes : AllBytes (md5 url)
  pub valid : IsRoot root
  pub root_text : NoZero root.path
  pub long : 8 ≤ length url
  pub chars : AllChars url
  pub scheme : map lwr (take 7 url) ≡ http
  pub fits : length (slashed root.path) < 1024
  pub no_dots : dotdot (host_of (drop 7 url)) ≡ false
  pub room : length (dirname root.path (drop 7 url) ++ file md5 url) < 1024

abbrev pub name_of_file : (List ℕ → List ℕ) → CacheRoot → List ℕ → List ℕ
name_of_file md5 root url = dirname root.path (drop 7 url) ++ file md5 url

slashed-NoZero : (path : List ℕ) → NoZero path → NoZero (slashed path)
slashed-NoZero path h = elim (Bool-cases (get_or path (length path - 1) 0 == 47)) [
  | inl y ↦ subst NoZero (sym (slashed_yes path y)) h
  | inr y ↦
      subst NoZero (sym (slashed_no path y)) (NoZero-append path (47 ∷ []) h (omega arith, tt))
]

name-NoZero :
    (md5 : List ℕ → List ℕ) (root : CacheRoot) (url : List ℕ)
    → HasName md5 root url
    → NoZero (name_of_file md5 root url)
name-NoZero md5 root url v =
    let host = host_of (drop 7 url) in
    let safe =
      encode_host-SafeName host (host_of-AllChars (drop 7 url) (chars-drop 7 url v.chars)) in
    let v' = file-Named md5 url v.digest_long v.digest_bytes in
    NoZero-append (dirname root.path (drop 7 url)) (file md5 url)
      (NoZero-append (slashed root.path) (encode_host host ++ 47 ∷ [])
        (slashed-NoZero root.path v.root_text)
        (NoZero-append (encode_host host) (47 ∷ []) (SafeName-NoZero (encode_host host) safe)
          (omega arith, tt)))
      (SafeName-NoZero (file md5 url) v'.safe)

Outcome-chars_of :
    (n size : ℕ) (name : List ℕ) (dots : Bool) (r : List ℕ × ℤ)
    → dots ≡ false
    → length name < n
    → NoZero name
    → Outcome n size name dots r
    → (r.1 ≡ pos (length name)) × (chars_of r.0 ≡ name)
Outcome-chars_of n size name dots (out, r) d h z (l, inl (d', in', e, t, nul)) =
    (e, chars_of_lem out name z t nul)
Outcome-chars_of n size name dots (out, r) d h z (l, inr (inl d', e)) = cc
Outcome-chars_of n size name dots (out, r) d h z (l, inr (inr m, e)) = absurd (omega (arith, m, h))

-- The name that urlFilename makes in an array of 1024 chars.
pub filename_of :
    (md5 : List ℕ → List ℕ) (root : CacheRoot) (buf url : List ℕ)
    → HasName md5 root url
    → 1024 ≤ length buf
    → (out : List ℕ) × (url_filename md5 root Stat.directory buf 1024 url (length url)
        ≡ ok (out, pos (length (name_of_file md5 root url))))
      × (chars_of out ≡ name_of_file md5 root url)
filename_of md5 root buf url v h =
    let (r, runs, o) =
      url_filename-Outcome md5 root buf 1024 url v.digest_long v.digest_bytes v.valid v.long v.chars
        v.scheme v.fits h in
    let (e, t) =
      Outcome-chars_of 1024 (length buf) (name_of_file md5 root url) (dotdot (host_of (drop 7 url)))
        r v.no_dots v.room (name-NoZero md5 root url v) o in
    (r.0, runs ∙ ap (λ m. ok (r.0, m)) e, t)

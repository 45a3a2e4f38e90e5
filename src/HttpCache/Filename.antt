-- ===== src/HttpCache/Filename.antt =====
-- What urlFilename writes: the directory of the host, and the digest of the URL in base64.
use poplar.Prelude.{
  ℕ, ◌+◌, ◌≤◌, ◌<◌, ◌≡◌, ◌⊎◌, ◌↔◌, inl, inr, refl, ap, ◌∙◌, subst, Bool, true, false, List, [], ◌∷◌,
  ◌++◌, arith, length, set, take, drop, map, get_or, le→leb, lt→leb,
}
use poplar.Prelude.Lists.{
  length-append, length-set, get_or-set_self, splice, slice, take-length, length-splice,
}
use poplar.Prelude.Splices.{slice-splice}
use poplar.Prelude.Int.{ℤ, pos, negsuc}
use poplar.Run.{ok, memcpy, store, ◌>>=◌}
use poplar.Util.{lwr, b64fss, b64cpy}
use poplar.Util.Compare.{AllChars}
use poplar.Util.Base64.{AllBytes, chars, quads, length-chars, b64cpy_runs}
use poplar.Util.Characters.{SafeName, chars-SafeName}
use poplar.HttpCache.{CacheRoot, Stat, http, url_dirname, put_filename, url_filename}
use poplar.HttpCache.Escape.{host_of, encode_host, dotdot, stored}
use poplar.HttpCache.Step.{le_cases}
use poplar.HttpCache.Encoding.{
  encode_host-SafeName, encode_host-dots, dotdot-encode, host_of-AllChars,
}
use poplar.HttpCache.Directory.{IsRoot, chars-drop, url_dirname-Outcome}
use poplar.HttpCache.Closing.{Outcome, dirname, slashed, take-set_self}

put_short :
    (md5 : List ℕ → List ℕ) (n : ℕ) (url out : List ℕ) (j : ℕ)
    → n ≤ j + 24
    → put_filename md5 n url (out, pos j) ≡ ok (out, negsuc 0)
unfolding put_filename
put_short md5 n url out j h = rw (put_filename, le→leb n (j + 24) h) refl

pub memcpy_all :
    (out xs : List ℕ) (j n : ℕ)
    → n ≡ length xs
    → j + n ≤ length out
    → memcpy out j xs n ≡ ok (splice out j xs)
unfolding memcpy
memcpy_all out xs j n e h =
    rw (le→leb n (length xs) (omega (arith, e)), le→leb (j + n) (length out) h)
      (ap (λ m. ok (splice out j m)) (ap (λ (m : ℕ). take m xs) e ∙ take-length xs))

-- The name of the file of a URL in its directory.
abbrev pub file : (List ℕ → List ℕ) → List ℕ → List ℕ
file md5 url = chars b64fss (md5 url)

put_runs :
    (md5 : List ℕ → List ℕ) (n : ℕ) (url out : List ℕ) (j : ℕ) (o1 o2 : List ℕ)
    → j + 24 < n
    → b64cpy (md5 url) true ≡ ok (file md5 url, 24)
    → memcpy out j (file md5 url) 24 ≡ ok o1
    → store o1 (j + 24) 0 ≡ ok o2
    → put_filename md5 n url (out, pos j) ≡ ok (o2, pos (j + 24))
unfolding put_filename
put_runs md5 n url out j o1 o2 h c0 c1 c2 =
    rw (put_filename, lt→leb n (j + 24) h, b64cpy, c0, memcpy, c1, ◌>>=◌, store, c2) refl

pub record Named (md5 : List ℕ → List ℕ) (url : List ℕ) : Type 0 where
  pub long : length (file md5 url) ≡ 24
  pub copied : b64cpy (md5 url) true ≡ ok (file md5 url, 24)
  pub safe : SafeName (file md5 url)

pub file-Named :
    (md5 : List ℕ → List ℕ) (url : List ℕ)
    → length (md5 url) ≡ 16
    → AllBytes (md5 url)
    → Named md5 url
file-Named md5 url e h = record {
  long = length-chars b64fss (md5 url) ∙ ap quads e;
  copied =
      b64cpy_runs true (md5 url) (omega (arith, e)) ∙ ap (λ (k : ℕ). ok (file md5 url, quads k)) e;
  safe = chars-SafeName (md5 url) h;
}

abbrev magnitude : ℤ → ℕ
magnitude (pos k) = k
magnitude (negsuc k) = k

front :
    (out xs : List ℕ) (j k : ℕ)
    → k ≡ j + length xs
    → j ≤ length out
    → take k (splice out j xs) ≡ take j out ++ xs
unfolding slice
front out xs j k e h = slice-splice out xs 0 j j k (omega arith) e h

put_filename-Outcome :
    (md5 : List ℕ → List ℕ) (n : ℕ) (url dir : List ℕ) (size : ℕ) (dots : Bool) (r : List ℕ × ℤ)
    → Named md5 url
    → n ≤ size
    → Outcome n size dir dots r
    → (s : List ℕ × ℤ) × (put_filename md5 n url r ≡ ok s)
      × Outcome n size (dir ++ file md5 url) dots s
unfolding put_filename
put_filename-Outcome md5 n url dir size dots (out, negsuc k) v h (l, inl (d, in', e, t, z)) = cc
put_filename-Outcome md5 n url dir size dots (out, negsuc k) v h (l, inr (inl d, e)) =
    ((out, negsuc 0), refl, (l, inr (inl d, refl)))
put_filename-Outcome md5 n url dir size dots (out, negsuc k) v h (l, inr (inr d, e)) = (
  (out, negsuc 0),
  refl,
  (l, inr (inr (omega (arith, d, length-append dir (file md5 url))), refl)),
)
put_filename-Outcome md5 n url dir size dots (out, pos j) v h (l, inr (d, e)) = cc
put_filename-Outcome md5 n url dir size dots (out, pos j) v h (l, inl (d, in', e, t, z)) =
    elim (le_cases n (j + 24)) [
      | inl m ↦ (
        (out, negsuc 0),
        put_short md5 n url out j m,
        (l, inr (inr (omega (arith, m, at, long)), refl)),
      )
      | inr m ↦
          let xs = file md5 url in
          let o1 = splice out j xs in
          let l1 : length o1 ≡ size = length-splice out j xs (omega (arith, m, h, l, v.long)) ∙ l in
          let o2 = set o1 (j + 24) 0 in
          let c1 = memcpy_all out xs j 24 (omega (arith, v.long)) (omega (arith, m, h, l)) in
          let c2 = stored o1 (j + 24) 0 (omega (arith, m, h, l1)) in
          let total : j + 24 ≡ length (dir ++ xs) = omega (arith, at, long, v.long) in
          let chars : take (j + 24) o2 ≡ dir ++ xs =
            take-set_self o1 (j + 24) 0
            ∙ front out xs j (j + 24) (omega (arith, v.long)) (omega (arith, m, h, l))
            ∙ ap (λ (m : List ℕ). m ++ xs) (ap (λ (k : ℕ). take k out) at ∙ t) in
          let nul : get_or o2 (j + 24) 1 ≡ 0 =
            get_or-set_self o1 (j + 24) 0 1 (omega (arith, m, h, l1)) in
          (
            (o2, pos (j + 24)),
            put_runs md5 n url out j o1 o2 m v.copied c1 c2,
            (
              length-set o1 (j + 24) 0 ∙ l1,
              inl (
                d,
                omega (arith, m, total),
                ap pos total,
                subst (λ (k : ℕ). take k o2 ≡ dir ++ xs) total chars,
                subst (λ (k : ℕ). get_or o2 k 1 ≡ 0) total nul,
              ),
            ),
          )
    ]
  where
    at : j ≡ length dir
    at = ap magnitude e

    long : length (dir ++ file md5 url) ≡ length dir + 24
    long = length-append dir (file md5 url) ∙ ap (λ (k : ℕ). length dir + k) v.long

filename_runs :
    (md5 : List ℕ → List ℕ) (root : CacheRoot) (out : List ℕ) (n : ℕ) (url : List ℕ)
    (r s : List ℕ × ℤ)
    → url_dirname root Stat.directory out n url (length url) ≡ ok r
    → put_filename md5 n url r ≡ ok s
    → url_filename md5 root Stat.directory out n url (length url) ≡ ok s
unfolding url_filename
filename_runs md5 root out n url r s c1 c2 = rw (url_filename, url_dirname, c1, ◌>>=◌, c2) refl

-- For an absolute root that is a directory, the chars of a URL that starts with "http://" in any
-- case, with 8 chars at least, and an md5 whose digests are 16 bytes, where the root, its slash and a
-- NUL fit in `n` chars, and `n` in the buffer: urlFilename returns, and its result is the length of
-- the directory and of the digest in base64, which are in the buffer with a NUL behind them, or it is
-- -1: exactly where the host has two dots in a row or the name does not fit.
pub url_filename-Outcome :
    (md5 : List ℕ → List ℕ) (root : CacheRoot) (out : List ℕ) (n : ℕ) (url : List ℕ)
    → length (md5 url) ≡ 16
    → AllBytes (md5 url)
    → IsRoot root
    → 8 ≤ length url
    → AllChars url
    → map lwr (take 7 url) ≡ http
    → length (slashed root.path) < n
    → n ≤ length out
    → (r : List ℕ × ℤ) × (url_filename md5 root Stat.directory out n url (length url) ≡ ok r)
      × Outcome n
          (length out)
          (dirname root.path (drop 7 url) ++ file md5 url)
          (dotdot (host_of (drop 7 url)))
          r
url_filename-Outcome md5 root out n url d16 db valid h1 chars scheme h2 h3 =
    let (r, c1, o) = url_dirname-Outcome root out n url valid h1 chars scheme h2 h3 in
    let (s, c2, o') =
      put_filename-Outcome md5 n url (dirname root.path (drop 7 url)) (length out)
        (dotdot (host_of (drop 7 url))) r (file-Named md5 url d16 db) h3 o in
    (s, filename_runs md5 root out n url r s c1 c2, o')

-- The root, one directory and a file in it: no slash, no NUL and no ".." leads out of the root, and
-- the directory is the root itself only where the host is empty or one dot.
abbrev pub Confined : List ℕ → List ℕ → List ℕ → Type 0
Confined path host name =
    (component : List ℕ) × (base : List ℕ) × (name
      ≡ (slashed path ++ (component ++ 47 ∷ [])) ++ base)
    × SafeName component
    × (dotdot component ≡ false)
    × SafeName base
    × (length base ≡ 24)
    × ((component ≡ []) ↔ (host ≡ []))
    × ((component ≡ 46 ∷ []) ↔ (host ≡ 46 ∷ []))

abbrev pub Refused : List ℕ × ℤ → Type 0
Refused (out, r) = r ≡ negsuc 0

-- The name that stands in the buffer, with its NUL.
abbrev pub Stands : ℕ → List ℕ → List ℕ × ℤ → Type 0
Stands n name (out, r) =
    (length name < n)
    × (r ≡ pos (length name))
    × (take (length name) out ≡ name)
    × (get_or out (length name) 1 ≡ 0)

Outcome-Stands :
    (n size : ℕ) (name : List ℕ) (dots : Bool) (r : List ℕ × ℤ)
    → Outcome n size name dots r
    → Refused r ⊎ ((dots ≡ false) × Stands n name r)
Outcome-Stands n size name dots (out, r) (l, inl (d, in', e, t, z)) = inr (d, (in', e, t, z))
Outcome-Stands n size name dots (out, r) (l, inr (d, e)) = inl e

-- Whatever the host of a URL is, the name that urlFilename makes of the URL is refused, or it is the
-- root, the name of a directory and that of a file, with slashes between them: neither of the two has
-- a slash or a NUL, that of the file has 24 chars, and that of the directory has no two dots in a row;
-- it is empty exactly where the host is, and one dot exactly where the host is, and then the file
-- stands in the root itself. As for urlFilename in general, the root is absolute and a directory and
-- fits, the URL starts with "http://" in any case and has 8 chars at least, and a digest of md5 is 16
-- bytes.
pub url_filename-Confined :
    (md5 : List ℕ → List ℕ) (root : CacheRoot) (out : List ℕ) (n : ℕ) (url : List ℕ)
    → length (md5 url) ≡ 16
    → AllBytes (md5 url)
    → IsRoot root
    → 8 ≤ length url
    → AllChars url
    → map lwr (take 7 url) ≡ http
    → length (slashed root.path) < n
    → n ≤ length out
    → (r : List ℕ × ℤ) × (url_filename md5 root Stat.directory out n url (length url) ≡ ok r)
      × (Refused r
          ⊎ ((name : List ℕ) × Stands n name r × Confined root.path (host_of (drop 7 url)) name))
url_filename-Confined md5 root out n url d16 db valid h1 chars scheme h2 h3 =
    let (r, runs, o) = url_filename-Outcome md5 root out n url d16 db valid h1 chars scheme h2 h3 in
    let cs = drop 7 url in
    let host = host_of cs in
    let small = host_of-AllChars cs (chars-drop 7 url chars) in
    let v = file-Named md5 url d16 db in
    let name = dirname root.path cs ++ file md5 url in
    (
      r,
      runs,
      elim (Outcome-Stands n (length out) name (dotdot host) r o) [
        | inl e ↦ inl e
        | inr (d, s) ↦ inr (
          name,
          s,
          (
            encode_host host,
            file md5 url,
            refl,
            encode_host-SafeName host small,
            dotdot-encode host small ∙ d,
            v.safe,
            v.long,
            (encode_host-dots host small).0,
            (encode_host-dots host small).1,
          ),
        )
      ],
    )

-- ===== src/HttpCache/Hosts.antt =====
-- The directories that urlDirname makes for two URLs.
use poplar.Prelude.{
  ℕ, ◌≤◌, ◌<◌, ◌≡◌, ◌↔◌, inl, inr, ap, sym, ◌∙◌, Bool, false, List, [], ◌∷◌, ◌++◌, arith, length,
  take, drop, map,
}
use poplar.Prelude.Lists.{length-append}
use poplar.Prelude.Int.{ℤ, pos}
use poplar.Run.{ok}
use poplar.Util.{lwr}
use poplar.Util.Compare.{AllChars}
use poplar.HttpCache.{CacheRoot, Stat, http, url_dirname}
use poplar.HttpCache.Escape.{host_of, encode_host, dotdot}
use poplar.HttpCache.Closing.{Outcome, dirname, slashed}
use poplar.HttpCache.Encoding.{dirname-host_of}
use poplar.HttpCache.Directory.{IsRoot, chars-drop, url_dirname-Outcome}

-- A URL whose directory is made, in a buffer of `n` chars.
pub record HasDirectory (root : CacheRoot) (n : ℕ) (url : List ℕ) : Type 0 where
  pub long : 8 ≤ length url
  pub chars : AllChars url
  pub scheme : map lwr (take 7 url) ≡ http
  pub no_dots : dotdot (host_of (drop 7 url)) ≡ false
  pub room : length (dirname root.path (drop 7 url)) < n

Outcome-dirname :
    (n size : ℕ) (dir : List ℕ) (dots : Bool) (r : List ℕ × ℤ)
    → dots ≡ false
    → length dir < n
    → Outcome n size dir dots r
    → (r.1 ≡ pos (length dir)) × (take (length dir) r.0 ≡ dir)
Outcome-dirname n size dir dots (out, r) d h (l, inl (d', in', e, t, z)) = (e, t)
Outcome-dirname n size dir dots (out, r) d h (l, inr (inl d', e)) = cc
Outcome-dirname n size dir dots (out, r) d h (l, inr (inr m, e)) = absurd (omega (arith, m, h))

directory_of :
    (root : CacheRoot) (out : List ℕ) (n : ℕ) (url : List ℕ)
    → IsRoot root
    → n ≤ length out
    → HasDirectory root n url
    → (a : List ℕ) × (url_dirname root Stat.directory out n url (length url)
        ≡ ok (a, pos (length (dirname root.path (drop 7 url)))))
      × (take (length (dirname root.path (drop 7 url))) a ≡ dirname root.path (drop 7 url))
directory_of root out n url valid h v =
    let dir = dirname root.path (drop 7 url) in
    let shorter =
      length-append (slashed root.path) (encode_host (host_of (drop 7 url)) ++ 47 ∷ []) in
    let (r, runs, o) =
      url_dirname-Outcome root out n url valid v.long v.chars v.scheme
        (omega (arith, shorter, v.room)) h in
    let (e, t) =
      Outcome-dirname n (length out) dir (dotdot (host_of (drop 7 url))) r v.no_dots v.room o in
    (r.0, runs ∙ ap (λ m. ok (r.0, m)) e, t)

-- Under one root that is absolute and a directory, urlDirname makes the directories of any two URLs
-- that have a host without two dots in a row and that fit; the two are the same directory exactly
-- where the hosts of the URLs are the same chars.
pub url_dirname-host_of :
    (root : CacheRoot) (out : List ℕ) (n : ℕ) (url url' : List ℕ)
    → IsRoot root
    → n ≤ length out
    → HasDirectory root n url
    → HasDirectory root n url'
    → (a : List ℕ) × (b : List ℕ) × (k : ℕ) × (m : ℕ) × (url_dirname root Stat.directory out n url
          (length url)
        ≡ ok (a, pos k))
      × (url_dirname root Stat.directory out n url' (length url') ≡ ok (b, pos m))
      × ((take k a ≡ take m b) ↔ (host_of (drop 7 url) ≡ host_of (drop 7 url')))
url_dirname-host_of root out n url url' valid h v v' =
    let (a, runs, t) = directory_of root out n url valid h v in
    let (b, runs', t') = directory_of root out n url' valid h v' in
    let same =
      dirname-host_of root.path (drop 7 url) (drop 7 url') (chars-drop 7 url v.chars)
        (chars-drop 7 url' v'.chars) in
    (a, b, _, _, runs, runs', (λ e. same.0 (sym t ∙ e ∙ t'), λ e. t ∙ same.1 e ∙ sym t'))

-- ===== src/HttpCache/Directory.antt =====
-- What urlDirname writes: the root, the host with its unsafe chars escaped, and slashes.
use poplar.Prelude.{
  ℕ, zero, suc, ◌+◌, ◌-◌, ◌≤◌, ◌<◌, ◌≡◌, inl, inr, refl, ap, sym, ◌∙◌, subst, true, false, List, [],
  ◌∷◌, ◌++◌, some, arith, length, set, take, drop, ◌==◌, map, Bool-cases, lt→ltb, le→ltb, le→leb,
  get_or,
}
use poplar.Prelude.Lists.{
  length-append, length-drop, length-set, splice, take-length, length-splice,
}
use poplar.Prelude.Splices.{take-append}
use poplar.Prelude.Int.{ℤ, pos}
use poplar.Run.{ok, load, memcpy, ◌>>=◌}
use poplar.Util.{lwr, lwrcmp}
use poplar.Util.Compare.{AllChars, lwrcmp-lwr}
use poplar.HttpCache.{
  CacheRoot, Stat, cache_root_check, Written, host_loop, close_dirname, slash_behind, fill_dirname,
  url_dirname, http,
}
use poplar.HttpCache.Escape.{host_of, dotdot, stored, grown}
use poplar.HttpCache.Host.{host_loop-Loops}
use poplar.HttpCache.Closing.{slashed, dirname, Outcome, close-Outcome}

load-take :
    (xs : List ℕ) (n k : ℕ) → k < n → n ≤ length xs → load xs k ≡ ok (get_or (take n xs) k 0)
unfolding load
load-take [] n k h g = absurd (omega arith)
load-take (x ∷ xs) zero k h g = absurd (omega arith)
load-take (x ∷ xs) (suc n) zero h g = refl
load-take (x ∷ xs) (suc n) (suc k) h g = load-take xs n k (omega arith) (omega arith)

pub slashed_yes :
    (path : List ℕ) → (get_or path (length path - 1) 0 == 47) ≡ true → slashed path ≡ path
slashed_yes path e = rw e refl

pub slashed_no :
    (path : List ℕ)
    → (get_or path (length path - 1) 0 == 47) ≡ false
    → slashed path ≡ path ++ 47 ∷ []
slashed_no path e = rw e refl

pub slash_behind_lem :
    (path out : List ℕ)
    → 0 < length path
    → length path ≤ length out
    → length (slashed path) ≤ length out
    → take (length path) out ≡ path
    → (s : List ℕ × ℕ) × (slash_behind out (length path) ≡ ok s)
      × (s.1 ≡ length (slashed path))
      × (take s.1 s.0 ≡ slashed path)
      × (length s.0 ≡ length out)
unfolding slash_behind
slash_behind_lem path out h0 h1 h2 t =
    let last = get_or path (length path - 1) 0 in
    let read : load out (length path - 1) ≡ ok last =
      load-take out (length path) (length path - 1) (omega arith) h1
      ∙ ap (λ m. ok (get_or m (length path - 1) 0)) t in
    elim (Bool-cases (last == 47)) [
      | inl y ↦
          let same = slashed_yes path y in
          (
            (out, length path),
            rw (slash_behind, read, ◌>>=◌, y) refl,
            ap length (sym same),
            t ∙ sym same,
            refl,
          )
      | inr y ↦
          let more = slashed_no path y in
          let long : length path + 1 ≡ length (slashed path) =
            sym (ap length more ∙ length-append path (47 ∷ [])) in
          (
            (set out (length path) 47, length path + 1),
            rw (slash_behind, read, ◌>>=◌, y, stored out (length path) 47 (omega (arith, long)))
                refl,
            long,
            grown out path (length path) (length path + 1) 47 refl t (omega (arith, long))
                ∙ sym more,
            length-set out (length path) 47,
          )
    ]

-- The root is as cache_root_set_store_path makes it of an absolute path.
pub record IsRoot (root : CacheRoot) : Type 0 where
  pub measured : root.path_length ≡ length root.path
  pub absolute : load root.path 0 ≡ ok 47

pub copied :
    (out path : List ℕ)
    → length path ≤ length out
    → (o : List ℕ) × (memcpy out 0 path (length path) ≡ ok o)
      × (take (length path) o ≡ path)
      × (length o ≡ length out)
unfolding memcpy splice
copied out path h = (
  splice out 0 path,
  rw
      (
        le→leb (length path) (length path) (omega arith),
        le→leb (0 + length path) (length out) (omega arith),
        take-length path,
      )
      refl,
  take-append path _ (length path) refl,
  length-splice out 0 path (omega arith),
)

pub length-slashed : (path : List ℕ) → length path ≤ length (slashed path)
length-slashed path = elim (Bool-cases (get_or path (length path - 1) 0 == 47)) [
  | inl y ↦ omega (arith, ap length (slashed_yes path y))
  | inr y ↦ omega (arith, ap length (slashed_no path y), length-append path (47 ∷ []))
]

fill_runs :
    (root : CacheRoot) (out : List ℕ) (n : ℕ) (url o1 : List ℕ) (s : List ℕ × ℕ) (w : Written)
    (r : List ℕ × ℤ)
    → memcpy out 0 root.path root.path_length ≡ ok o1
    → slash_behind o1 root.path_length ≡ ok s
    → host_loop (length url - 7) s.0 n url (length url) 7 s.1 ≡ ok w
    → close_dirname n w ≡ ok r
    → fill_dirname root out n url (length url) ≡ ok r
unfolding fill_dirname
fill_runs root out n url o1 s w r c1 c2 c3 c4 =
    rw (fill_dirname, c1, ◌>>=◌, slash_behind, c2, host_loop, c3, c4) refl

fill-Outcome :
    (root : CacheRoot) (out : List ℕ) (n : ℕ) (url : List ℕ)
    → IsRoot root
    → 0 < length root.path
    → 7 ≤ length url
    → AllChars (drop 7 url)
    → length (slashed root.path) < n
    → n ≤ length out
    → (r : List ℕ × ℤ) × (fill_dirname root out n url (length url) ≡ ok r)
      × Outcome n (length out) (dirname root.path (drop 7 url)) (dotdot (host_of (drop 7 url))) r
fill-Outcome root out n url valid h0 h1 chars h2 h3 =
    let path = root.path in
    let shorter : length path ≤ length (slashed path) = length-slashed path in
    let (o1, c1, t1, l1) = copied out path (omega arith) in
    let (s, c2, e2, t2, l2) =
      slash_behind_lem path o1 h0 (omega (arith, l1)) (omega (arith, l1)) t1 in
    let cs = drop 7 url in
    let rest : length cs ≡ length url - 7 = length-drop 7 url in
    let l12 : length s.0 ≡ length out = l2 ∙ l1 in
    let (w, c3, loops) =
      host_loop-Loops cs url n (length url) 7 refl (omega (arith, rest)) chars s.0 s.1
        (slashed path) (omega (arith, e2)) (omega (arith, l12)) t2 in
    let (r, c4, o) =
      close-Outcome n (length s.0) s.1 (slashed path) (host_of cs) w e2 (omega (arith, l12))
        loops in
    let steps : host_loop (length url - 7) s.0 n url (length url) 7 s.1 ≡ ok w =
      ap (λ (k : ℕ). host_loop k s.0 n url (length url) 7 s.1) (sym rest) ∙ c3 in
    (
      r,
      fill_runs root out n url o1 s w r (ap (memcpy out 0 root.path) valid.measured ∙ c1)
          (ap (slash_behind o1) valid.measured ∙ c2) steps c4,
      subst (λ (m : ℕ). Outcome n m (dirname path cs) (dotdot (host_of cs)) r) l12 o,
    )

pub order_of :
    (url : List ℕ)
    → 7 ≤ length url
    → AllChars url
    → map lwr (take 7 url) ≡ http
    → lwrcmp url http 7 ≡ ok (pos 0)
unfolding lwr
order_of url h c e =
    let (r, runs, iff, back) = lwrcmp-lwr url http 7 h (omega arith) c (
      omega arith,
      (omega arith, (omega arith, (omega arith, (omega arith, (omega arith, (omega arith, tt)))))),
    ) in
    runs ∙ ap ok (iff.1 e)

first_char : (path : List ℕ) → load path 0 ≡ ok 47 → load (path ++ 0 ∷ []) 0 ≡ ok 47
unfolding load
first_char [] e = cc
first_char (c ∷ path) e = e

pub checked_root :
    (root : CacheRoot)
    → IsRoot root
    → 0 < length root.path
    → cache_root_check (some root) Stat.directory ≡ ok (pos 1)
unfolding cache_root_check
checked_root root v h =
    let some_path : (root.path_length == 0) ≡ false = ground (arith, h, v.measured) in
    rw (cache_root_check, some_path, first_char root.path v.absolute, ◌>>=◌) refl

pub nonempty : (path : List ℕ) → load path 0 ≡ ok 47 → 0 < length path
unfolding load
nonempty [] e = cc
nonempty (c ∷ path) e = omega arith

pub chars-drop : (n : ℕ) (cs : List ℕ) → AllChars cs → AllChars (drop n cs)
chars-drop zero cs h = h
chars-drop (suc n) [] h = tt
chars-drop (suc n) (c ∷ cs) h = chars-drop n cs h.1

dirname_runs :
    (root : CacheRoot) (out : List ℕ) (n : ℕ) (url : List ℕ) (r : List ℕ × ℤ)
    → IsRoot root
    → 0 < length root.path
    → 8 ≤ length url
    → lwrcmp url http 7 ≡ ok (pos 0)
    → root.path_length < n
    → fill_dirname root out n url (length url) ≡ ok r
    → url_dirname root Stat.directory out n url (length url) ≡ ok r
unfolding url_dirname
dirname_runs root out n url r v h0 h1 order h2 runs =
    rw
      (
        url_dirname,
        le→ltb (length url) 8 h1,
        order,
        ◌>>=◌,
        checked_root root v h0,
        lt→ltb root.path_length n h2,
        runs,
      )
      refl

-- For an absolute root that is a directory, and the chars of a URL that starts with "http://" in any
-- case, with 8 chars at least, urlDirname returns; where the root, its slash and a NUL fit in `n`
-- chars, and `n` in the buffer, the result is the length of the directory, which is in the buffer
-- with a NUL behind it, or -1: exactly where the host has two dots in a row or the directory does
-- not fit.
pub url_dirname-Outcome :
    (root : CacheRoot) (out : List ℕ) (n : ℕ) (url : List ℕ)
    → IsRoot root
    → 8 ≤ length url
    → AllChars url
    → map lwr (take 7 url) ≡ http
    → length (slashed root.path) < n
    → n ≤ length out
    → (r : List ℕ × ℤ) × (url_dirname root Stat.directory out n url (length url) ≡ ok r)
      × Outcome n (length out) (dirname root.path (drop 7 url)) (dotdot (host_of (drop 7 url))) r
url_dirname-Outcome root out n url valid h1 chars scheme h2 h3 =
    let some_chars = nonempty root.path valid.absolute in
    let (r, runs, o) =
      fill-Outcome root out n url valid some_chars (omega arith) (chars-drop 7 url chars) h2 h3 in
    (
      r,
      dirname_runs root out n url r valid some_chars h1 (order_of url (omega arith) chars scheme)
          (omega (arith, length-slashed root.path, valid.measured)) runs,
      o,
    )

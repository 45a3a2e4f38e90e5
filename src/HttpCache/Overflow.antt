-- ===== src/HttpCache/Overflow.antt =====
-- urlDirname where the root fills the buffer up to its last char.
use poplar.Prelude.{
  ℕ, suc, ◌+◌, ◌-◌, ◌<◌, ◌≤◌, ◌≡◌, refl, ap, sym, ◌∙◌, false, List, [], ◌∷◌, arith, length, take,
  drop, map, ◌==◌, get_or, le→ltb, lt→ltb,
}
use poplar.Prelude.Lists.{length-append, length-drop}
use poplar.Prelude.Int.{pos}
use poplar.Run.{ok, fault, out_of_bounds, load, store, memcpy, ◌>>=◌}
use poplar.Util.{lwr, lwrcmp}
use poplar.Util.Compare.{AllChars}
use poplar.HttpCache.{
  CacheRoot, Stat, http, fssafe, is_escaped, plain, put_char, doubled, host_loop, slash_behind,
  fill_dirname, url_dirname,
}
use poplar.HttpCache.Escape.{load-drop}
use poplar.HttpCache.Step.{put_char_no}
use poplar.HttpCache.Directory.{
  IsRoot, slashed_no, slash_behind_lem, copied, nonempty, order_of, checked_root,
}
use poplar.HttpCache.Closing.{slashed}

slash_escaped : (c : ℕ) → is_escaped c ≡ false → (c == 47) ≡ false
unfolding is_escaped fssafe
slash_escaped c e = ground arith

plain_outside : (out : List ℕ) (n c : ℕ) → plain out n (length out) c ≡ fault out_of_bounds
unfolding plain store
plain_outside out n c = rw (plain, le→ltb (length out) (length out) (omega arith)) refl

not_doubled : (url : List ℕ) (len i c : ℕ) → (c == 46) ≡ false → doubled url len i c ≡ ok false
unfolding doubled
not_doubled url len i c e = rw (doubled, e) refl

loop_outside :
    (k : ℕ) (out : List ℕ) (n : ℕ) (url : List ℕ) (len i j c : ℕ)
    → load url i ≡ ok c
    → is_escaped c ≡ false
    → (c == 46) ≡ false
    → j ≡ length out
    → host_loop (suc k) out n url len i j ≡ fault out_of_bounds
unfolding host_loop
loop_outside k out n url len i j c read e dot h =
    let put : put_char out n j c ≡ fault out_of_bounds =
      put_char_no out n j c e ∙ ap (λ (m : ℕ). plain out n m c) h ∙ plain_outside out n c in
    rw
      (
        host_loop,
        read,
        ◌>>=◌,
        slash_escaped c e,
        doubled,
        not_doubled url len i c dot,
        put_char,
        put,
      )
      refl

fill_outside :
    (root : CacheRoot) (out : List ℕ) (n : ℕ) (url : List ℕ) (len : ℕ) (o1 : List ℕ)
    (s : List ℕ × ℕ)
    → memcpy out 0 root.path root.path_length ≡ ok o1
    → slash_behind o1 root.path_length ≡ ok s
    → host_loop (len - 7) s.0 n url len 7 s.1 ≡ fault out_of_bounds
    → fill_dirname root out n url len ≡ fault out_of_bounds
unfolding fill_dirname
fill_outside root out n url len o1 s c1 c2 c3 =
    rw (fill_dirname, c1, ◌>>=◌, slash_behind, c2, host_loop, c3) refl

dirname_outside :
    (root : CacheRoot) (out : List ℕ) (n : ℕ) (url : List ℕ)
    → IsRoot root
    → 0 < length root.path
    → 8 ≤ length url
    → lwrcmp url http 7 ≡ ok (pos 0)
    → root.path_length < n
    → fill_dirname root out n url (length url) ≡ fault out_of_bounds
    → url_dirname root Stat.directory out n url (length url) ≡ fault out_of_bounds
unfolding url_dirname
dirname_outside root out n url v h0 h1 order h2 runs =
    rw
      (
        url_dirname,
        le→ltb (length url) 8 h1,
        order,
        ◌>>=◌,
        checked_root root v h0,
        lt→ltb root.path_length n h2,
        runs,
      )
      refl

-- Where the root is absolute, a directory, one char shorter than the buffer and has no slash at its
-- end, the slash fills the buffer: a host that starts with a char that is neither escaped nor a dot is
-- then written out of the buffer, although the function has compared the root's length with `n`.
pub url_dirname_outside :
    (root : CacheRoot) (out : List ℕ) (n : ℕ) (url : List ℕ) (c : ℕ) (cs : List ℕ)
    → IsRoot root
    → (get_or root.path (length root.path - 1) 0 == 47) ≡ false
    → length root.path + 1 ≡ n
    → length out ≡ n
    → 8 ≤ length url
    → AllChars url
    → map lwr (take 7 url) ≡ http
    → drop 7 url ≡ c ∷ cs
    → is_escaped c ≡ false
    → (c == 46) ≡ false
    → url_dirname root Stat.directory out n url (length url) ≡ fault out_of_bounds
url_dirname_outside root out n url c cs v open' e1 e2 h chars scheme rest plain' dot =
    let path = root.path in
    let h0 = nonempty path v.absolute in
    let long : length (slashed path) ≡ length path + 1 =
      ap length (slashed_no path open') ∙ length-append path (47 ∷ []) in
    let (o1, c1, t1, l1) = copied out path (omega (arith, e1, e2)) in
    let (s, c2, e3, t2, l2) =
      slash_behind_lem path o1 h0 (omega (arith, l1, e1, e2)) (omega (arith, l1, long, e1, e2))
        t1 in
    let steps : length url - 7 ≡ suc (length cs) = sym (length-drop 7 url) ∙ ap length rest in
    let full : s.1 ≡ length s.0 = omega (arith, e3, long, l2, l1, e1, e2) in
    let c3 =
      ap (λ (k : ℕ). host_loop k s.0 n url (length url) 7 s.1) steps
      ∙ loop_outside (length cs) s.0 n url (length url) 7 s.1 c (load-drop url 7 c cs rest).0 plain'
          dot full in
    dirname_outside root out n url v h0 h (order_of url (omega arith) chars scheme)
      (omega (arith, v.measured, e1))
      (fill_outside root out n url (length url) o1 s (ap (memcpy out 0 path) v.measured ∙ c1)
        (ap (slash_behind o1) v.measured ∙ c2) c3)

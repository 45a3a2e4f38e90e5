-- ===== src/HttpCache/Reading.antt =====
-- What CacheDiskGet answers.
use poplar.Prelude.{
  ℕ, zero, suc, ◌+◌, ◌≤◌, ◌<◌, ◌≡◌, ◌⊎◌, inl, inr, refl, ap, sym, ◌∙◌, subst, Bool, true, false,
  List, [], ◌∷◌, ◌++◌, Option, some, arith, length, take, drop, replicate, min, ◌==◌, le→leb,
}
use poplar.Prelude.Lists.{length-take, length-splice, length-replicate, splice}
use poplar.Prelude.Splices.{splice_whole, take-append}
use poplar.Prelude.Int.{pos}
use poplar.Run.{Run, ok, fault, out_of_bounds, memcpy, ◌>>=◌}
use poplar.Dns.{strlen}
use poplar.HttpCache.{CacheRoot, Stat, url_filename}
use poplar.HttpCache.Step.{le_cases}
use poplar.HttpCache.Filename.{memcpy_all}
use poplar.HttpCache.Disk.{chars_of, read_file, cache_disk_get}
use poplar.HttpCache.Named.{NoZero, NoZero-take, HasName, name_of_file, filename_of}

zeros_left : (k n : ℕ) → k < n → (rest : List ℕ) × (drop k (replicate n 0) ≡ 0 ∷ rest)
zeros_left k zero h = absurd (omega arith)
zeros_left zero (suc n) h = (replicate n 0, refl)
zeros_left (suc k) (suc n) h = zeros_left k n (omega arith)

strlen-append : (xs rest : List ℕ) → NoZero xs → strlen (xs ++ 0 ∷ rest) ≡ ok (length xs)
unfolding strlen
strlen-append [] rest h = refl
strlen-append (x ∷ xs) rest (p, h) =
    let other : (x == 0) ≡ false = ground (arith, p) in
    rw (strlen, other, strlen-append xs rest h) (ap ok (omega arith))

strlen_none : (xs : List ℕ) → NoZero xs → strlen xs ≡ fault out_of_bounds
unfolding strlen
strlen_none [] h = refl
strlen_none (x ∷ xs) (p, h) =
    let other : (x == 0) ≡ false = ground (arith, p) in rw (strlen, other, strlen_none xs h) refl

read_runs :
    (out content o : List ℕ) (s : Run ℕ)
    → memcpy out 0 content (min (length out) (length content)) ≡ ok o
    → strlen o ≡ s
    → read_file out content ≡ (s >>= λ n. ok (n, o))
unfolding read_file
read_runs out content o s c1 c2 = rw (read_file, c1, ◌>>=◌, strlen, c2) refl

drop_zero : (out xs : List ℕ) → splice out 0 xs ≡ xs ++ drop (length xs) out
unfolding splice
drop_zero out xs = ap (λ (k : ℕ). xs ++ drop k out) (omega arith)

memcpy_start :
    (out xs : List ℕ)
    → length out ≤ length xs
    → memcpy out 0 xs (length out) ≡ ok (take (length out) xs)
unfolding memcpy
memcpy_start out xs h =
    rw (le→leb (length out) (length xs) h, le→leb (0 + length out) (length out) (omega arith))
      (ap ok (splice_whole out (take (length out) xs) (omega (arith, length-take (length out) xs))))

-- What the file holds, in an array of `buflen` zeros.
abbrev pub Got : ℕ → List ℕ → Run (ℕ × List ℕ) → Type 0
Got buflen content run =
    ((length content < buflen)
      × ((out : List ℕ) × (run ≡ ok (length content, out))
          × (take (length content) out ≡ content)
          × (length out ≡ buflen)))
    ⊎ ((buflen ≤ length content) × (run ≡ fault out_of_bounds))

read_file-Got :
    (buflen : ℕ) (content : List ℕ)
    → NoZero content
    → Got buflen content (read_file (replicate buflen 0) content)
read_file-Got buflen content h =
    let zeros : List ℕ = replicate buflen 0 in
    let size = length-replicate {A = ℕ} buflen 0 in
    elim (le_cases buflen (length content)) [
      | inl m ↦
          let least : min (length zeros) (length content) ≡ length zeros = omega (arith, m, size) in
          let c1 =
            ap (memcpy zeros 0 content) least
            ∙ memcpy_start zeros content (omega (arith, m, size)) in
          inr (
            m,
            read_runs zeros content _ _ c1 (strlen_none _ (NoZero-take (length zeros) content h)),
          )
      | inr m ↦
          let least : min (length zeros) (length content) ≡ length content =
            omega (arith, m, size) in
          let (rest, left) = zeros_left (length content) buflen m in
          let whole = drop_zero zeros content ∙ ap (λ (m : List ℕ). content ++ m) left in
          let c1 =
            ap (memcpy zeros 0 content) least
            ∙ memcpy_all zeros content 0 (length content) refl (omega (arith, m, size))
            ∙ ap ok whole in
          inl (
            m,
            (
              content ++ 0 ∷ rest,
              read_runs zeros content _ _ c1 (strlen-append content rest h),
              take-append content (0 ∷ rest) (length content) refl,
              sym (ap length whole) ∙ length-splice zeros 0 content (omega (arith, m, size)) ∙ size,
            ),
          )
    ]

get_runs :
    (md5 : List ℕ → List ℕ) (root : CacheRoot) (access : List ℕ → Bool)
    (fopen : List ℕ → Option (List ℕ)) (buf uri : List ℕ) (buflen k : ℕ) (out content : List ℕ)
    → url_filename md5 root Stat.directory buf 1024 uri (length uri) ≡ ok (out, pos k)
    → access (chars_of out) ≡ true
    → fopen (chars_of out) ≡ some content
    → cache_disk_get md5 root Stat.directory access fopen buf uri (length uri) buflen
      ≡ read_file (replicate buflen 0) content
unfolding cache_disk_get
get_runs md5 root access fopen buf uri buflen k out content c1 c2 c3 =
    rw (cache_disk_get, url_filename, c1, ◌>>=◌, c2, c3) refl

-- Of a URL that has a name, whose file is there, opens and holds chars without a NUL, CacheDiskGet
-- reads the file of that name: where there are fewer chars than `buflen` it returns their number and
-- they are at the start of the array, and else strlen() runs out of the array.
pub cache_disk_get-Got :
    (md5 : List ℕ → List ℕ) (root : CacheRoot) (access : List ℕ → Bool)
    (fopen : List ℕ → Option (List ℕ)) (buf uri : List ℕ) (buflen : ℕ) (content : List ℕ)
    → HasName md5 root uri
    → 1024 ≤ length buf
    → access (name_of_file md5 root uri) ≡ true
    → fopen (name_of_file md5 root uri) ≡ some content
    → NoZero content
    → Got buflen content
        (cache_disk_get md5 root Stat.directory access fopen buf uri (length uri) buflen)
cache_disk_get-Got md5 root access fopen buf uri buflen content v h there opens z =
    let (out, named', text) = filename_of md5 root buf uri v h in
    subst (Got buflen content)
      (sym (
        get_runs md5 root access fopen buf uri buflen (length (name_of_file md5 root uri)) out
          content named' (ap access text ∙ there) (ap fopen text ∙ opens)))
      (read_file-Got buflen content z)

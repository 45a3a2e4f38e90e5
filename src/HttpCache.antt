-- ===== src/HttpCache.antt =====
-- apps/pop_httpcache.c: the names of the files that keep replies of the web, and what is written to
-- and read from them. A char is its byte. What a system call does is an argument.
pub mod Escape
pub mod Step
pub mod Host
pub mod Closing
pub mod Directory
pub mod Encoding
pub mod Hosts
pub mod Overflow
pub mod Filename
pub mod Create
pub mod Disk
pub mod Named
pub mod Writing
pub mod Reading
mod Tests
use poplar.Prelude.{
  ℕ, zero, suc, ◌+◌, ◌-◌, ◌/◌, Bool, true, false, not, ◌&&◌, ◌||◌, List, [], ◌∷◌, ◌++◌, Option,
  none, some, length, bit_and, ltb, leb, ◌==◌, if◌then◌else◌,
}
use poplar.Prelude.Int.{ℤ, pos, negsuc}
use poplar.Run.{Run, ok, load, store, memcpy, ◌>>=◌}
use poplar.Util.{i2h, lwrcmp, b64cpy}

-- `path` is the chars without the NUL behind them.
pub record CacheRoot : Type 0 where
  pub path : List ℕ
  pub path_length : ℕ

-- "/var/cache/poplar"
abbrev pub default_http_cache_store_path : List ℕ
default_http_cache_store_path =
    47 ∷ 118 ∷ 97 ∷ 114 ∷ 47 ∷ 99 ∷ 97 ∷ 99 ∷ 104 ∷ 101 ∷ 47 ∷ 112 ∷ 111 ∷ 112 ∷ 108 ∷ 97 ∷ 114 ∷ []

unfoldable pub cache_root_set_store_path : Option (List ℕ) → CacheRoot
cache_root_set_store_path (some path) = record { path = path; path_length = length path }
cache_root_set_store_path none = record {
  path = default_http_cache_store_path;
  path_length = length default_http_cache_store_path;
}

-- A char from 128 on is negative, and so at most 31.
unfoldable pub fssafe : ℕ → Bool
fssafe c =
    if leb c 31 || leb 127 c
    then false
    else (leb 97 c && leb c 122)
      || ((leb 65 c && leb c 90)
          || ((leb 48 c && leb c 57) || ((c == 46) || ((c == 45) || (c == 95)))))

-- What stat() says of a path.
pub data Stat : Type 0 where
  missing directory not_directory : Stat

unfoldable pub cache_root_check : Option CacheRoot → Stat → Run ℤ
unfolding load
cache_root_check none stat = ok (pos 0)
cache_root_check (some root) stat = elim (root.path_length == 0) [
  | true ↦ ok (pos 0)
  | false ↦ load (root.path ++ 0 ∷ []) 0 >>= λ c. ok (
      if c == 47
      then (elim stat [ missing ↦ negsuc 0 | directory ↦ pos 1 | not_directory ↦ negsuc 0 ])
      else negsuc 1)
]

-- "http://"
abbrev pub http : List ℕ
http = 104 ∷ 116 ∷ 116 ∷ 112 ∷ 58 ∷ 47 ∷ 47 ∷ []

-- `outbuf` with the place `j`, or with -1 where the function returns at once.
abbrev pub Written : Type 0
Written = List ℕ × Option ℕ

-- A char as it is.
unfoldable pub plain : List ℕ → ℕ → ℕ → ℕ → Run Written
unfolding store
plain outbuf n j c =
    store outbuf j c >>= λ out. ok (out, if leb n (j + 1) then none else some (j + 1))

-- A char as "%" and two digits.
unfoldable pub escaped : List ℕ → ℕ → ℕ → ℕ → Run Written
unfolding store i2h
escaped outbuf n j c = elim (leb n (j + 3)) [
  | true ↦ ok (outbuf, none)
  | false ↦ store outbuf j 37 >>= λ o1. store o1 (j + 1) (i2h (pos (bit_and c 0xF0 / 16))) >>= λ o2.
      store o2 (j + 2) (i2h (pos (bit_and c 0x0F))) >>= λ o3. ok (o3, some (j + 3))
]

-- `url[i] == '%' || !fssafe(url[i])`
unfoldable pub is_escaped : ℕ → Bool
unfolding fssafe
is_escaped c = (c == 37) || not (fssafe c)

unfoldable pub put_char : List ℕ → ℕ → ℕ → ℕ → Run Written
unfolding plain escaped is_escaped
put_char outbuf n j c = elim (is_escaped c) [
  | true ↦ escaped outbuf n j c
  | false ↦ plain outbuf n j c
]

-- `url[i] == '.' && i != len - 1 && url[i + 1] == '.'`
unfoldable pub doubled : List ℕ → ℕ → ℕ → ℕ → Run Bool
unfolding load
doubled url len i c = elim ((c == 46) && not (i + 1 == len)) [
  | true ↦ load url (i + 1) >>= λ d. ok (d == 46)
  | false ↦ ok false
]

-- The loop of urlDirname, with as many iterations as are left.
unfoldable pub host_loop : ℕ → List ℕ → ℕ → List ℕ → ℕ → ℕ → ℕ → Run Written
unfolding load doubled put_char
host_loop zero outbuf n url len i j = ok (outbuf, some j)
host_loop (suc k) outbuf n url len i j = load url i >>= λ c. elim (c == 47) [
  | true ↦ ok (outbuf, some j)
  | false ↦ doubled url len i c >>= λ d. elim d [
    | true ↦ ok (outbuf, none)
    | false ↦ put_char outbuf n j c >>= λ w. elim w.1 [
      | none ↦ ok (w.0, none)
      | some j' ↦ host_loop k w.0 n url len (i + 1) j'
    ]
  ]
]

-- The end of urlDirname, behind the loop.
unfoldable pub close_dirname : ℕ → Written → Run (List ℕ × ℤ)
unfolding store
close_dirname n (outbuf, none) = ok (outbuf, negsuc 0)
close_dirname n (outbuf, some j) = store outbuf j 47 >>= λ o1. elim (leb n (j + 1)) [
  | true ↦ ok (o1, negsuc 0)
  | false ↦ store o1 (j + 1) 0 >>= λ o2. ok (o2, pos (j + 1))
]

-- `if(outbuf[j - 1] != '/') outbuf[j++] = '/';`
unfoldable pub slash_behind : List ℕ → ℕ → Run (List ℕ × ℕ)
unfolding load store
slash_behind outbuf j = load outbuf (j - 1) >>= λ c. elim (c == 47) [
  | true ↦ ok (outbuf, j)
  | false ↦ store outbuf j 47 >>= λ out. ok (out, j + 1)
]

-- urlDirname from the copy of the path on.
unfoldable pub fill_dirname : CacheRoot → List ℕ → ℕ → List ℕ → ℕ → Run (List ℕ × ℤ)
unfolding memcpy slash_behind host_loop close_dirname
fill_dirname root outbuf n url len = memcpy outbuf 0 root.path root.path_length >>= λ o1.
    slash_behind o1 root.path_length >>= λ s.
    host_loop (len - 7) s.0 n url len 7 s.1 >>= λ w. close_dirname n w

abbrev pub is_positive : ℤ → Bool
is_positive (pos zero) = false
is_positive (pos (suc k)) = true
is_positive (negsuc k) = false

abbrev pub is_zero : ℤ → Bool
is_zero (pos zero) = true
is_zero _ = false

unfoldable pub url_dirname : CacheRoot → Stat → List ℕ → ℕ → List ℕ → ℕ → Run (List ℕ × ℤ)
unfolding lwrcmp cache_root_check fill_dirname
url_dirname root stat outbuf n url len = elim (ltb len 8) [
  | true ↦ ok (outbuf, negsuc 0)
  | false ↦ lwrcmp url http 7 >>= λ order. elim (is_zero order) [
    | false ↦ ok (outbuf, negsuc 0)
    | true ↦ cache_root_check (some root) stat >>= λ checked.
        elim (is_positive checked && ltb root.path_length n) [
          | false ↦ ok (outbuf, negsuc 0)
          | true ↦ fill_dirname root outbuf n url len
        ]
  ]
]

-- urlFilename behind the call of urlDirname; `md5` is the digest of common/md5.c.
unfoldable pub put_filename : (List ℕ → List ℕ) → ℕ → List ℕ → List ℕ × ℤ → Run (List ℕ × ℤ)
unfolding b64cpy memcpy store
put_filename md5 n url (buf, negsuc k) = ok (buf, negsuc 0)
put_filename md5 n url (buf, pos j) = elim (leb n (j + 24)) [
  | true ↦ ok (buf, negsuc 0)
  | false ↦ b64cpy (md5 url) true >>= λ copied.
      memcpy buf j copied.0 copied.1 >>= λ b1. store b1 (j + 24) 0 >>= λ b2. ok (b2, pos (j + 24))
]

unfoldable pub url_filename :
    (List ℕ → List ℕ) → CacheRoot → Stat → List ℕ → ℕ → List ℕ → ℕ → Run (List ℕ × ℤ)
unfolding url_dirname put_filename
url_filename md5 root stat buf n url len =
    url_dirname root stat buf n url len >>= λ r. put_filename md5 n url r

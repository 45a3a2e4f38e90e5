-- ===== src/HttpCache/Disk.antt =====
-- CacheDiskStore, CacheDiskExistCheckPath, CacheDiskExistCheckUri and CacheDiskGet.
use poplar.Prelude.{
  ℕ, ◌-◌, ◌%◌, ◌^◌, Bool, true, false, List, [], ◌∷◌, Option, none, some, length, replicate, min,
  ltb, leb, ◌==◌, if◌then◌else◌,
}
use poplar.Prelude.Int.{ℤ, pos, negsuc}
use poplar.Run.{Run, ok, fault, memcpy, ◌>>=◌}
use poplar.Dns.{strlen}
use poplar.HttpCache.{CacheRoot, Stat, is_positive, url_filename}
use poplar.HttpCache.Create.{Calls, create_file}

-- A string in an array: the chars before the first NUL.
abbrev pub chars_of : List ℕ → List ℕ
chars_of [] = []
chars_of (c ∷ cs) = if c == 0 then [] else c ∷ chars_of cs

-- CACHE_DISK_STORE_SIZE_MAX
abbrev pub size_max : ℕ
size_max = 8192

-- What write() answers: a number of bytes, or -1 with errno EINTR or another.
pub data WriteAnswer : Type 0 where
  wrote : ℕ → WriteAnswer
  interrupted failed : WriteAnswer

-- An int that is compared with an unsigned int.
abbrev pub as_unsigned : ℤ → ℕ
as_unsigned (pos k) = k % 2 ^ 32
as_unsigned (negsuc k) = (2 ^ 32 - 1 - k) % 2 ^ 32

-- From the label on: write() until it is not interrupted. True is `goto fail`, `none` no answer left.
unfoldable pub write_data : List WriteAnswer → ℕ → Option Bool
write_data [] data_len = none
write_data (interrupted ∷ answers) data_len = write_data answers data_len
write_data (failed ∷ answers) data_len = some (ltb (as_unsigned (negsuc 0)) data_len)
write_data (wrote k ∷ answers) data_len = some (ltb (as_unsigned (pos k)) data_len)

-- The system calls of one run: what the first open() makes of a name, the calls of createFile, and the
-- answers of write().
pub record StoreCalls : Type 0 where
  pub open_old : List ℕ → Option ℕ
  pub calls : Calls
  pub writes : List WriteAnswer

abbrev pub stored_or_failed : Option Bool → Option (Run ℤ)
stored_or_failed none = none
stored_or_failed (some true) = some (ok (negsuc 0))
stored_or_failed (some false) = some (ok (pos 0))

unfoldable pub write_file : StoreCalls → CacheRoot → List ℕ → List ℕ → ℕ → Option (Run ℤ)
unfolding write_data create_file
write_file calls root dir_buf name data_len = elim (calls.open_old (chars_of name)) [
  | some fd ↦ stored_or_failed (write_data calls.writes data_len)
  | none ↦ elim (create_file calls.calls dir_buf name root.path_length) [
    | fault e ↦ some (fault e)
    | ok (negsuc k, dirs) ↦ some (ok (negsuc 0))
    | ok (pos fd, dirs) ↦ stored_or_failed (write_data calls.writes data_len)
  ]
]

-- `buf` and `dir_buf` are the local arrays, of this function and of createFile.
unfoldable pub cache_disk_store :
    (List ℕ → List ℕ)
    → CacheRoot
    → Stat
    → StoreCalls
    → List ℕ
    → List ℕ
    → List ℕ
    → ℕ
    → ℕ
    → Option (Run ℤ)
unfolding url_filename write_file
cache_disk_store md5 root stat calls buf dir_buf uri uri_len data_len =
    elim (leb size_max data_len) [
      | true ↦ some (ok (negsuc 0))
      | false ↦ elim (url_filename md5 root stat buf 1024 uri uri_len) [
        | fault e ↦ some (fault e)
        | ok r ↦ elim (is_positive r.1) [
          | false ↦ some (ok (negsuc 0))
          | true ↦ write_file calls root dir_buf r.0 data_len
        ]
      ]
    ]

-- `access` says whether access() finds the file of a name.
abbrev pub cache_disk_exist_check_path : (List ℕ → Bool) → List ℕ → Bool
cache_disk_exist_check_path access name = access name

abbrev pub is_negative_length : ℤ → Bool
is_negative_length (pos k) = false
is_negative_length (negsuc k) = true

unfoldable pub cache_disk_exist_check_uri :
    (List ℕ → List ℕ) → CacheRoot → Stat → (List ℕ → Bool) → List ℕ → List ℕ → ℕ → Run Bool
unfolding url_filename
cache_disk_exist_check_uri md5 root stat access buf uri uri_len =
    url_filename md5 root stat buf 1024 uri uri_len >>= λ r. elim (is_negative_length r.1) [
      | true ↦ ok false
      | false ↦ ok (cache_disk_exist_check_path access (chars_of r.0))
    ]

-- fread() and strlen(), on what the file holds.
unfoldable pub read_file : List ℕ → List ℕ → Run (ℕ × List ℕ)
unfolding memcpy strlen
read_file out_buf content =
    memcpy out_buf 0 content (min (length out_buf) (length content)) >>= λ out.
    strlen out >>= λ n. ok (n, out)

-- `fopen` is what the file of a name holds, where it opens. The array is as long as `buflen` says, and
-- -1 is an unsigned int.
unfoldable pub cache_disk_get :
    (List ℕ → List ℕ)
    → CacheRoot
    → Stat
    → (List ℕ → Bool)
    → (List ℕ → Option (List ℕ))
    → List ℕ
    → List ℕ
    → ℕ
    → ℕ
    → Run (ℕ × List ℕ)
unfolding url_filename read_file
cache_disk_get md5 root stat access fopen buf uri uri_len buflen =
    url_filename md5 root stat buf 1024 uri uri_len >>= λ r. elim (is_negative_length r.1) [
      | true ↦ ok (2 ^ 32 - 1, replicate buflen 0)
      | false ↦ elim (cache_disk_exist_check_path access (chars_of r.0)) [
        | false ↦ ok (2 ^ 32 - 1, replicate buflen 0)
        | true ↦ elim (fopen (chars_of r.0)) [
          | none ↦ ok (2 ^ 32 - 1, replicate buflen 0)
          | some content ↦ read_file (replicate buflen 0) content
        ]
      ]
    ]

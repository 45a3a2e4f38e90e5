-- ===== src/HttpCache/Create.antt =====
-- createFile: the file of a name, whose directories are made where they are missing.
use poplar.Prelude.{
  ℕ, zero, suc, ◌+◌, ◌-◌, Bool, true, false, not, ◌||◌, List, [], ◌∷◌, ◌++◌, take, ltb, leb, ◌==◌,
}
use poplar.Prelude.Int.{ℤ, pos, negsuc}
use poplar.Run.{Run, ok, load, store, memcpy, ◌>>=◌}

-- What open() answers: a descriptor, or -1 with errno ENOENT or another.
pub data Opened : Type 0 where
  opened : ℕ → Opened
  no_entry other : Opened

-- What mkdir() answers: 0, or -1 with errno EEXIST or another.
pub data Made : Type 0 where
  made exists refused : Made

-- The system calls of one run.
pub record Calls : Type 0 where
  pub open_new : Opened
  pub mkdir : List ℕ → Made
  pub open_again : Opened

-- `while(name[n] != '/' && name[n] != '\0' && n < 512) n++;`, where the number is `512 - n`.
unfoldable pub scan : ℕ → List ℕ → ℕ → Run ℕ
unfolding load
scan zero name n = load name n >>= λ c. ok n
scan (suc k) name n =
    load name n >>= λ c. elim ((c == 47) || (c == 0)) [ true ↦ ok n | false ↦ scan k name (n + 1) ]

-- `buf` with the chars of the name up to the place `n`, and a NUL.
unfoldable pub prefix : List ℕ → List ℕ → ℕ → Run (List ℕ)
unfolding memcpy store
prefix buf name n = memcpy buf 0 name (n + 1) >>= λ b. store b (n + 1) 0

-- The loop, where the number is at least `1024 - n`: the directories that mkdir() was called on, and
-- whether the function goes on.
unfoldable pub make_dirs :
    ℕ → (List ℕ → Made) → List ℕ → List ℕ → ℕ → List (List ℕ) → Run (List (List ℕ) × Bool)
unfolding load scan prefix
make_dirs zero mkdir buf name n dirs = load name n >>= λ c. ok (dirs, true)
make_dirs (suc k) mkdir buf name n dirs = load name n >>= λ c. elim ((c == 0) || leb 1024 n) [
  | true ↦ ok (dirs, true)
  | false ↦ scan (512 - n) name n >>= λ m. load name m >>= λ d. elim (not (d == 47) || leb 1024 m) [
    | true ↦ ok (dirs, true)
    | false ↦ prefix buf name m >>= λ b. elim (mkdir (take (m + 1) b)) [
      | refused ↦ ok (dirs ++ take (m + 1) b ∷ [], false)
      | _ ↦ make_dirs k mkdir b name (m + 1) (dirs ++ take (m + 1) b ∷ [])
    ]
  ]
]

abbrev pub descriptor : Opened → ℤ
descriptor (opened fd) = pos fd
descriptor _ = negsuc 0

-- createFile behind its test of the name.
unfoldable pub open_or_make : Calls → List ℕ → List ℕ → ℕ → Run (ℤ × List (List ℕ))
unfolding make_dirs
open_or_make calls buf name n = elim calls.open_new [
  | opened fd ↦ ok (pos fd, [])
  | other ↦ ok (negsuc 0, [])
  | no_entry ↦ make_dirs (1024 - n) calls.mkdir buf name n [] >>= λ r. elim r.1 [
    | false ↦ ok (negsuc 0, r.0)
    | true ↦ ok (descriptor calls.open_again, r.0)
  ]
]

-- `if(name[path_start] == '/') path_start++;`
unfoldable pub skip_slash : List ℕ → ℕ → Run ℕ
unfolding load
skip_slash name path_start = load name path_start >>= λ c. elim (c == 47) [
  | true ↦ ok (path_start + 1)
  | false ↦ ok path_start
]

-- `buf` is the local array; the result has the directories that mkdir() was called on.
unfoldable pub create_file : Calls → List ℕ → List ℕ → ℕ → Run (ℤ × List (List ℕ))
unfolding load skip_slash open_or_make
create_file calls buf name path_start = skip_slash name path_start >>= λ p. elim (ltb p 2) [
  | true ↦ ok (negsuc 0, [])
  | false ↦ load name (p - 1) >>= λ c. elim (c == 47) [
    | false ↦ ok (negsuc 0, [])
    | true ↦ open_or_make calls buf name p
  ]
]

-- ===== src/HttpCache/Tests.antt =====
-- Runs of the operations, and the properties at concrete inputs.
use poplar.Prelude.{
  ℕ, ◌≡◌, ◌↔◌, ◌⊎◌, refl, true, List, [], ◌∷◌, ◌++◌, none, some, arith, length, take, drop,
  replicate, map,
}
use poplar.Prelude.Lists.{splice}
use poplar.Prelude.Int.{ℤ, pos, negsuc}
use poplar.Run.{ok, fault, out_of_bounds, load}
use poplar.Util.{lwr, b64_round}
use poplar.Util.Base64.{chars}
use poplar.HttpCache.{
  CacheRoot, Stat, http, fssafe, is_escaped, cache_root_set_store_path, url_dirname, url_filename,
}
use poplar.HttpCache.Escape.{host_of, dotdot}
use poplar.HttpCache.Directory.{IsRoot}
use poplar.HttpCache.Closing.{Outcome, dirname}
use poplar.HttpCache.Filename.{
  file, Refused, Stands, Confined, url_filename-Outcome, url_filename-Confined,
}
use poplar.HttpCache.Hosts.{HasDirectory, url_dirname-host_of}
use poplar.HttpCache.Overflow.{url_dirname_outside}
use poplar.HttpCache.Create.{Calls, Opened, Made, create_file}
use poplar.HttpCache.Disk.{StoreCalls, WriteAnswer, cache_disk_store, cache_disk_get}
use poplar.HttpCache.Named.{HasName}
use poplar.HttpCache.Writing.{cache_disk_store-report}
use poplar.HttpCache.Reading.{Got, cache_disk_get-Got}

-- "/c"
abbrev root : CacheRoot
root = record { path = 47 ∷ 99 ∷ []; path_length = 2 }

root-IsRoot : IsRoot root
unfolding load
root-IsRoot = record { measured = refl; absolute = refl }

-- "Http://a:b/x"
abbrev url : List ℕ
url = 72 ∷ 116 ∷ 116 ∷ 112 ∷ 58 ∷ 47 ∷ 47 ∷ 97 ∷ 58 ∷ 98 ∷ 47 ∷ 120 ∷ []

scheme : map lwr (72 ∷ 116 ∷ 116 ∷ 112 ∷ 58 ∷ 47 ∷ 47 ∷ []) ≡ http
unfolding lwr
scheme = refl

abbrev md5 : List ℕ → List ℕ
md5 xs = replicate 16 (length xs)

-- "/c/a%3Ab/"
encoded : dirname root.path (drop 7 url) ≡ 47 ∷ 99 ∷ 47 ∷ 97 ∷ 37 ∷ 51 ∷ 65 ∷ 98 ∷ 47 ∷ []
unfolding is_escaped fssafe
encoded = refl

dirname_run :
    url_dirname root Stat.directory (replicate 12 7) 12 url 12
    ≡ ok (47 ∷ 99 ∷ 47 ∷ 97 ∷ 37 ∷ 51 ∷ 65 ∷ 98 ∷ 47 ∷ 0 ∷ 7 ∷ 7 ∷ [], pos 9)
unfolding url_dirname splice
dirname_run = refl

dirname_dots :
    url_dirname root Stat.directory (replicate 12 7) 12 (http ++ 46 ∷ 46 ∷ 47 ∷ []) 10
    ≡ ok (47 ∷ 99 ∷ 47 ∷ replicate 9 7, negsuc 0)
unfolding url_dirname splice
dirname_dots = refl

no_root : url_dirname root Stat.missing (replicate 12 7) 12 url 12 ≡ ok (replicate 12 7, negsuc 0)
unfolding url_dirname splice
no_root = refl

default_root : (cache_root_set_store_path none).path_length ≡ 17
unfolding cache_root_set_store_path
default_root = refl

-- "/c/d/e/f" under "/c": the two directories that are missing.
created :
    create_file
      (record {
        open_new = Opened.no_entry;
        mkdir = λ name. Made.made;
        open_again = Opened.opened 5;
      })
      (replicate 1024 7)
      (47 ∷ 99 ∷ 47 ∷ 100 ∷ 47 ∷ 101 ∷ 47 ∷ 102 ∷ 0 ∷ [])
      2
    ≡ ok (pos 5, (47 ∷ 99 ∷ 47 ∷ 100 ∷ 47 ∷ []) ∷ (47 ∷ 99 ∷ 47 ∷ 100 ∷ 47 ∷ 101 ∷ 47 ∷ []) ∷ [])
unfolding create_file splice
created = refl

abbrev no_calls : Calls
no_calls = record {
  open_new = Opened.other;
  mkdir = λ name. Made.refused;
  open_again = Opened.other;
}

not_created :
    create_file no_calls (replicate 1024 7) (47 ∷ 99 ∷ 47 ∷ 100 ∷ 0 ∷ []) 2 ≡ ok (negsuc 0, [])
unfolding create_file splice
not_created = refl

abbrev calls : StoreCalls
calls = record {
  open_old = λ name. some 3;
  calls = no_calls;
  writes = replicate 1 WriteAnswer.interrupted ++ WriteAnswer.failed ∷ [];
}

url-HasName : HasName md5 root url
unfolding lwr is_escaped fssafe chars b64_round load
url-HasName = record {
  digest_long = refl;
  digest_bytes = omega arith;
  valid = root-IsRoot;
  root_text = omega arith;
  long = omega arith;
  chars = omega arith;
  scheme = refl;
  fits = omega arith;
  no_dots = refl;
  room = omega arith;
}

url-HasDirectory : HasDirectory root 12 url
unfolding lwr is_escaped fssafe
url-HasDirectory = record {
  long = omega arith;
  chars = omega arith;
  scheme = refl;
  no_dots = refl;
  room = omega arith;
}

url_dirname-host_of_example :
    (a : List ℕ) × (b : List ℕ) × (k : ℕ) × (m : ℕ) × (url_dirname root Stat.directory
        (replicate 12 7)
        12
        url
        (length url)
      ≡ ok (a, pos k))
    × (url_dirname root Stat.directory (replicate 12 7) 12 url (length url) ≡ ok (b, pos m))
    × ((take k a ≡ take m b) ↔ (host_of (drop 7 url) ≡ host_of (drop 7 url)))
url_dirname-host_of_example =
    url_dirname-host_of root (replicate 12 7) 12 url url root-IsRoot (omega arith) url-HasDirectory
      url-HasDirectory

url_filename-Outcome_example :
    (r : List ℕ × ℤ) × (url_filename md5 root Stat.directory (replicate 40 7) 40 url (length url)
      ≡ ok r)
    × Outcome 40 40
        (dirname root.path (drop 7 url) ++ file md5 url)
        (dotdot (host_of (drop 7 url)))
        r
url_filename-Outcome_example =
    url_filename-Outcome md5 root (replicate 40 7) 40 url refl (omega arith) root-IsRoot
      (omega arith) (omega arith) scheme (omega arith) (omega arith)

url_filename-Confined_example :
    (r : List ℕ × ℤ) × (url_filename md5 root Stat.directory (replicate 40 7) 40 url (length url)
      ≡ ok r)
    × (Refused r
        ⊎ ((name : List ℕ) × Stands 40 name r × Confined root.path (97 ∷ 58 ∷ 98 ∷ []) name))
url_filename-Confined_example =
    url_filename-Confined md5 root (replicate 40 7) 40 url refl (omega arith) root-IsRoot
      (omega arith) (omega arith) scheme (omega arith) (omega arith)

url_dirname_outside_example :
    url_dirname root Stat.directory (replicate 3 7) 3 url (length url) ≡ fault out_of_bounds
unfolding is_escaped fssafe
url_dirname_outside_example =
    url_dirname_outside root (replicate 3 7) 3 url 97 (58 ∷ 98 ∷ 47 ∷ 120 ∷ []) root-IsRoot refl
      refl refl (omega arith) (omega arith) scheme refl refl refl

cache_disk_store-report_example :
    cache_disk_store md5 root Stat.directory calls
      (replicate 1024 7)
      (replicate 1024 7)
      url
      (length url)
      100
    ≡ some (ok (pos 0))
cache_disk_store-report_example =
    cache_disk_store-report md5 root calls (replicate 1024 7) (replicate 1024 7) url 100 3 1
      WriteAnswer.failed [] url-HasName (omega arith) (omega arith) refl refl tt

cache_disk_get-Got_example : Got 2 (1 ∷ 2 ∷ []) (
    cache_disk_get md5 root Stat.directory
      (λ name. true)
      (λ name. some (1 ∷ 2 ∷ []))
      (replicate 1024 7)
      url
      (length url)
      2)
cache_disk_get-Got_example =
    cache_disk_get-Got md5 root (λ name. true) (λ name. some (1 ∷ 2 ∷ [])) (replicate 1024 7) url 2
      (1 ∷ 2 ∷ []) url-HasName (omega arith) refl refl (omega arith)

-- ===== src/HttpCache/Writing.antt =====
-- What CacheDiskStore answers.
use poplar.Prelude.{
  ℕ, zero, suc, ◌-◌, ◌%◌, ◌^◌, ◌≤◌, ◌<◌, ◌≡◌, inl, inr, refl, ap, ◌∙◌, false, List, ◌∷◌, ◌++◌,
  Option, some, arith, length, drop, replicate, ltb, lt→leb, if◌then◌else◌, Bool-cases,
}
use poplar.Prelude.Lists.{length-append}
use poplar.Prelude.Int.{ℤ, pos, negsuc}
use poplar.Run.{Run, ok}
use poplar.HttpCache.{CacheRoot, Stat, url_filename}
use poplar.HttpCache.Closing.{dirname}
use poplar.HttpCache.Filename.{file, file-Named}
use poplar.HttpCache.Disk.{
  chars_of, WriteAnswer, wrote, interrupted, failed, write_data, StoreCalls, stored_or_failed,
  write_file, cache_disk_store, size_max,
}
use poplar.HttpCache.Named.{HasName, name_of_file, filename_of}

-- What an answer of write() comes to.
abbrev pub report : WriteAnswer → ℕ → ℤ
report (wrote k) data_len = if ltb k data_len then negsuc 0 else pos 0
report _ data_len = pos 0

abbrev pub Final : WriteAnswer → Type 0
Final (wrote k) = k < 2 ^ 32
Final interrupted = ⊥
Final failed = Unit

after_interrupts :
    (n : ℕ) (last : WriteAnswer) (rest : List WriteAnswer) (data_len : ℕ)
    → write_data (replicate n interrupted ++ last ∷ rest) data_len
      ≡ write_data (last ∷ rest) data_len
unfolding write_data
after_interrupts zero last rest data_len = refl
after_interrupts (suc n) last rest data_len = after_interrupts n last rest data_len

at_last :
    (last : WriteAnswer) (rest : List WriteAnswer) (data_len : ℕ)
    → Final last
    → data_len < size_max
    → stored_or_failed (write_data (last ∷ rest) data_len) ≡ some (ok (report last data_len))
unfolding write_data
at_last (wrote k) rest data_len h g =
    let cut : k % 2 ^ 32 ≡ k = omega (arith, h) in
    rw cut (elim (Bool-cases (ltb k data_len)) [ inl y ↦ rw y refl | inr y ↦ rw y refl ])
at_last interrupted rest data_len h g = elim h [ ]
at_last failed rest data_len h g =
    let fine : ltb 4294967295 data_len ≡ false = ground (arith, g) in rw fine refl

store_runs :
    (md5 : List ℕ → List ℕ) (root : CacheRoot) (calls : StoreCalls) (buf dir_buf uri : List ℕ)
    (data_len fd k : ℕ) (out : List ℕ) (answer : Option (Run ℤ))
    → data_len < size_max
    → url_filename md5 root Stat.directory buf 1024 uri (length uri) ≡ ok (out, pos (suc k))
    → calls.open_old (chars_of out) ≡ some fd
    → stored_or_failed (write_data calls.writes data_len) ≡ answer
    → cache_disk_store md5 root Stat.directory calls buf dir_buf uri (length uri) data_len ≡ answer
unfolding cache_disk_store
store_runs md5 root calls buf dir_buf uri data_len fd k out answer h c1 c2 c3 =
    rw (cache_disk_store, lt→leb size_max data_len h, url_filename, c1, write_file, c2) c3

-- Of a URL that has a name, whose file is there and opens, and of fewer than 8192 bytes of data,
-- CacheDiskStore opens the file of that name and writes until a write is not interrupted: where that
-- write is short the result is -1, and where it takes all the data, or fails, the result is 0.
pub cache_disk_store-report :
    (md5 : List ℕ → List ℕ) (root : CacheRoot) (calls : StoreCalls) (buf dir_buf uri : List ℕ)
    (data_len fd n : ℕ) (last : WriteAnswer) (rest : List WriteAnswer)
    → HasName md5 root uri
    → 1024 ≤ length buf
    → data_len < size_max
    → calls.open_old (name_of_file md5 root uri) ≡ some fd
    → calls.writes ≡ replicate n interrupted ++ last ∷ rest
    → Final last
    → cache_disk_store md5 root Stat.directory calls buf dir_buf uri (length uri) data_len
      ≡ some (ok (report last data_len))
cache_disk_store-report md5 root calls buf dir_buf uri data_len fd n last rest v h g opens writes
      final =
    let (out, named', text) = filename_of md5 root buf uri v h in
    let total = length (name_of_file md5 root uri) in
    let v' = file-Named md5 uri v.digest_long v.digest_bytes in
    let some_chars : total ≡ suc (total - 1) =
      omega (arith, v'.long, length-append (dirname root.path (drop 7 uri)) (file md5 uri)) in
    store_runs md5 root calls buf dir_buf uri data_len fd (total - 1) out _ g
      (named' ∙ ap (λ (m : ℕ). ok (out, pos m)) some_chars) (ap calls.open_old text ∙ opens)
      (ap (λ m. stored_or_failed (write_data m data_len)) writes
        ∙ ap stored_or_failed (after_interrupts n last rest data_len)
        ∙ at_last last rest data_len final g)

-- ===== src/Stream/Valid.antt =====
-- The representation invariant of `struct stream`, what its macros compute under it, and the bytes
-- that a stream holds for its reader.
use poplar.Prelude.{
  ℕ, ◌+◌, ◌-◌, ◌^◌, ◌≤◌, ◌<◌, ◌≡◌, List, [], ◌∷◌, arith, length, set, slice, get_or, length-set,
}
use poplar.Prelude.Lists.{get_elem?-eq-get_or}
use poplar.Run.{ok, load, store}
use poplar.Stream.Buffer.{Stream, verify_sane, writeable, readable, get_byte, put_byte}

-- `small` keeps the difference of the marks inside the int of STREAM_READABLE: from 2 ^ 31 bytes on its
-- cast makes a negative number, which is above every size it is compared with.
pub record IsValid (s : Stream) : Type 0 where
  pub getp_le : s.getp ≤ s.endp
  pub endp_le : s.endp ≤ s.size
  pub backed : length s.bytes ≡ s.size
  pub small : s.size < 2 ^ 31

module _ {s : Stream} (v : IsValid s) where
  pub verify_sane_ok : verify_sane s ≡ ok tt
  verify_sane_ok = ground arith

  pub writeable_lem : writeable s ≡ s.size - s.endp
  writeable_lem = omega arith

  pub readable_lem : readable s ≡ s.endp - s.getp
  readable_lem = ground arith

-- The bytes still to be read.
abbrev pub contents : Stream → List ℕ
contents s = slice s.bytes s.getp (s.endp - s.getp)

-- What one written byte makes of a stream, and what several do.
abbrev pub appended_byte : Stream → ℕ → Stream
appended_byte s c = record s { bytes = set s.bytes s.endp c; endp = s.endp + 1 }

unfoldable pub appended : Stream → List ℕ → Stream
appended s [] = s
appended s (c ∷ cs) = appended (appended_byte s c) cs

abbrev pub advanced : Stream → ℕ → Stream
advanced s n = record s { getp = s.getp + n }

module _ {s : Stream} (v : IsValid s) where
  pub appended_byte-IsValid : (c : ℕ) → s.endp < s.size → IsValid (appended_byte s c)
  appended_byte-IsValid c h = omega (arith, length-set s.bytes s.endp c)

  pub put_byte_lem : (c : ℕ) → s.endp < s.size → put_byte s c ≡ ok (appended_byte s c)
  unfolding put_byte store
  put_byte_lem c h = ground arith

  pub advanced-IsValid : (n : ℕ) → s.getp + n ≤ s.endp → IsValid (advanced s n)
  advanced-IsValid n h = omega arith

  pub get_byte_lem : s.getp < s.endp → get_byte s ≡ ok (get_or s.bytes s.getp 0, advanced s 1)
  unfolding get_byte load
  get_byte_lem h = ground (arith, get_elem?-eq-get_or s.bytes s.getp 0)

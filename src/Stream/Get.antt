-- ===== src/Stream/Get.antt =====
-- apps/pop_stream.c: the functions that read from a stream. A byte shifted to its place fits the
-- word it is or-ed into, so the shifts and `|=` lose nothing.
use poplar.Prelude.{ℕ, ◌*◌, ◌^◌, List, ltb, not, bit_or}
use poplar.Run.{Run, ok, ◌>>=◌, ◌>>◌, load, copy_from}
use poplar.Stream.Buffer.{
  Stream, add_size, getp_valid, verify_sane, bound_warn_if, readable, get_byte,
}

-- `word |= byte << k`
abbrev pub or_byte : ℕ → ℕ → ℕ → ℕ
or_byte word byte k = bit_or word (byte * 2 ^ k)

-- The bytes copied to `dst`, and the stream.
unfoldable pub stream_get : Stream → ℕ → Run (List ℕ × Stream)
stream_get s n = do
  verify_sane s
  bound_warn_if (ltb (readable s) n)
  dst ← copy_from s.bytes s.getp n
  ok (dst, record s { getp = add_size s.getp n })

unfoldable pub stream_getc : Stream → Run (ℕ × Stream)
stream_getc s = do verify_sane s; bound_warn_if (ltb (readable s) 1); get_byte s

unfoldable pub stream_getc_from : Stream → ℕ → Run ℕ
stream_getc_from s from = do
  verify_sane s
  bound_warn_if (not (getp_valid s (add_size from 1)))
  load s.bytes from

unfoldable pub stream_getw : Stream → Run (ℕ × Stream)
stream_getw s = do
  verify_sane s
  bound_warn_if (ltb (readable s) 2)
  (b0, s1) ← get_byte s
  (b1, s2) ← get_byte s1
  ok (or_byte (b0 * 2 ^ 8) b1 0, s2)

unfoldable pub stream_getw_from : Stream → ℕ → Run ℕ
stream_getw_from s from = do
  verify_sane s
  bound_warn_if (not (getp_valid s (add_size from 2)))
  b0 ← load s.bytes from
  b1 ← load s.bytes (add_size from 1)
  ok (or_byte (b0 * 2 ^ 8) b1 0)

-- The word of four bytes, the first on top, as the two functions below build it.
abbrev pub long_of : ℕ → ℕ → ℕ → ℕ → ℕ
long_of b0 b1 b2 b3 = or_byte (or_byte (or_byte (b0 * 2 ^ 24) b1 16) b2 8) b3 0

unfoldable pub stream_getl_from : Stream → ℕ → Run ℕ
stream_getl_from s from = do
  verify_sane s
  bound_warn_if (not (getp_valid s (add_size from 4)))
  b0 ← load s.bytes from
  b1 ← load s.bytes (add_size from 1)
  b2 ← load s.bytes (add_size from 2)
  b3 ← load s.bytes (add_size from 3)
  ok (long_of b0 b1 b2 b3)

unfoldable pub stream_getl : Stream → Run (ℕ × Stream)
stream_getl s = do
  verify_sane s
  bound_warn_if (ltb (readable s) 4)
  (b0, s1) ← get_byte s
  (b1, s2) ← get_byte s1
  (b2, s3) ← get_byte s2
  (b3, s4) ← get_byte s3
  ok (long_of b0 b1 b2 b3, s4)

-- The word of eight bytes, in the same way.
abbrev pub quad_of : ℕ → ℕ → ℕ → ℕ → ℕ → ℕ → ℕ → ℕ → ℕ
quad_of b0 b1 b2 b3 b4 b5 b6 b7 =
    let hi = or_byte (or_byte (or_byte (b0 * 2 ^ 56) b1 48) b2 40) b3 32 in
    or_byte (or_byte (or_byte (or_byte hi b4 24) b5 16) b6 8) b7 0

unfoldable pub stream_getq_from : Stream → ℕ → Run ℕ
stream_getq_from s from = do
  verify_sane s
  bound_warn_if (not (getp_valid s (add_size from 8)))
  b0 ← load s.bytes from
  b1 ← load s.bytes (add_size from 1)
  b2 ← load s.bytes (add_size from 2)
  b3 ← load s.bytes (add_size from 3)
  b4 ← load s.bytes (add_size from 4)
  b5 ← load s.bytes (add_size from 5)
  b6 ← load s.bytes (add_size from 6)
  b7 ← load s.bytes (add_size from 7)
  ok (quad_of b0 b1 b2 b3 b4 b5 b6 b7)

unfoldable pub stream_getq : Stream → Run (ℕ × Stream)
stream_getq s = do
  verify_sane s
  bound_warn_if (ltb (readable s) 8)
  (b0, s1) ← get_byte s
  (b1, s2) ← get_byte s1
  (b2, s3) ← get_byte s2
  (b3, s4) ← get_byte s3
  (b4, s5) ← get_byte s4
  (b5, s6) ← get_byte s5
  (b6, s7) ← get_byte s6
  (b7, s8) ← get_byte s7
  ok (quad_of b0 b1 b2 b3 b4 b5 b6 b7, s8)

-- The four bytes that memcpy puts into the word, in the order of memory: the value they make
-- depends on the byte order of the host.
unfoldable pub stream_get_ipv4 : Stream → Run (List ℕ × Stream)
stream_get_ipv4 s = do
  verify_sane s
  bound_warn_if (ltb (readable s) 4)
  l ← copy_from s.bytes s.getp 4
  ok (l, record s { getp = add_size s.getp 4 })

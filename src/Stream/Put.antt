-- ===== src/Stream/Put.antt =====
-- apps/pop_stream.c: the functions that write to a stream.
use poplar.Prelude.{ℕ, ◌/◌, ◌%◌, ◌^◌, List, Option, none, some, ltb, not, replicate}
use poplar.Run.{Run, ok, ◌>>=◌, ◌>>◌, store, memcpy}
use poplar.Stream.Buffer.{
  Stream, add_size, getp_valid, verify_sane, bound_warn_if, writeable, check_size, put_byte,
}

-- `(u_char)(w >> k)`
abbrev pub byte_at : ℕ → ℕ → ℕ
byte_at w k = w / 2 ^ k % 2 ^ 8

-- `src` is NULL, which zeroes the bytes, or the object copied from.
unfoldable pub stream_put : Stream → Option (List ℕ) → ℕ → Run Stream
stream_put s src n = do
  let size = check_size s n
  verify_sane s
  bound_warn_if (ltb (writeable s) size)
  mem ← elim src [
    | none ↦ memcpy s.bytes s.endp (replicate size 0) size
    | some from ↦ memcpy s.bytes s.endp from size
  ]
  ok (record s { bytes = mem; endp = add_size s.endp size })

unfoldable pub stream_write : Stream → List ℕ → ℕ → Run (ℕ × Stream)
stream_write s ptr n = do
  let size = check_size s n
  verify_sane s
  bound_warn_if (ltb (writeable s) size)
  mem ← memcpy s.bytes s.endp ptr size
  ok (size, record s { bytes = mem; endp = add_size s.endp size })

unfoldable pub stream_putc : Stream → ℕ → Run (ℕ × Stream)
stream_putc s c = do
  verify_sane s
  bound_warn_if (ltb (writeable s) 1)
  s1 ← put_byte s c
  ok (1, s1)

unfoldable pub stream_putw : Stream → ℕ → Run (ℕ × Stream)
stream_putw s w = do
  verify_sane s
  bound_warn_if (ltb (writeable s) 2)
  s1 ← put_byte s (byte_at w 8)
  s2 ← put_byte s1 (byte_at w 0)
  ok (2, s2)

unfoldable pub stream_putl : Stream → ℕ → Run (ℕ × Stream)
stream_putl s l = do
  verify_sane s
  bound_warn_if (ltb (writeable s) 4)
  s1 ← put_byte s (byte_at l 24)
  s2 ← put_byte s1 (byte_at l 16)
  s3 ← put_byte s2 (byte_at l 8)
  s4 ← put_byte s3 (byte_at l 0)
  ok (4, s4)

unfoldable pub stream_putq : Stream → ℕ → Run (ℕ × Stream)
stream_putq s q = do
  verify_sane s
  bound_warn_if (ltb (writeable s) 8)
  s1 ← put_byte s (byte_at q 56)
  s2 ← put_byte s1 (byte_at q 48)
  s3 ← put_byte s2 (byte_at q 40)
  s4 ← put_byte s3 (byte_at q 32)
  s5 ← put_byte s4 (byte_at q 24)
  s6 ← put_byte s5 (byte_at q 16)
  s7 ← put_byte s6 (byte_at q 8)
  s8 ← put_byte s7 (byte_at q 0)
  ok (8, s8)

unfoldable pub stream_putc_at : Stream → ℕ → ℕ → Run (ℕ × Stream)
stream_putc_at s putp c = do
  verify_sane s
  bound_warn_if (not (getp_valid s (add_size putp 1)))
  m0 ← store s.bytes putp c
  ok (1, record s { bytes = m0 })

unfoldable pub stream_putw_at : Stream → ℕ → ℕ → Run (ℕ × Stream)
stream_putw_at s putp w = do
  verify_sane s
  bound_warn_if (not (getp_valid s (add_size putp 2)))
  m0 ← store s.bytes putp (byte_at w 8)
  m1 ← store m0 (add_size putp 1) (byte_at w 0)
  ok (2, record s { bytes = m1 })

unfoldable pub stream_putl_at : Stream → ℕ → ℕ → Run (ℕ × Stream)
stream_putl_at s putp l = do
  verify_sane s
  bound_warn_if (not (getp_valid s (add_size putp 4)))
  m0 ← store s.bytes putp (byte_at l 24)
  m1 ← store m0 (add_size putp 1) (byte_at l 16)
  m2 ← store m1 (add_size putp 2) (byte_at l 8)
  m3 ← store m2 (add_size putp 3) (byte_at l 0)
  ok (4, record s { bytes = m3 })

unfoldable pub stream_putq_at : Stream → ℕ → ℕ → Run (ℕ × Stream)
stream_putq_at s putp q = do
  verify_sane s
  bound_warn_if (not (getp_valid s (add_size putp 8)))
  m0 ← store s.bytes putp (byte_at q 56)
  m1 ← store m0 (add_size putp 1) (byte_at q 48)
  m2 ← store m1 (add_size putp 2) (byte_at q 40)
  m3 ← store m2 (add_size putp 3) (byte_at q 32)
  m4 ← store m3 (add_size putp 4) (byte_at q 24)
  m5 ← store m4 (add_size putp 5) (byte_at q 16)
  m6 ← store m5 (add_size putp 6) (byte_at q 8)
  m7 ← store m6 (add_size putp 7) (byte_at q 0)
  ok (8, record s { bytes = m7 })

-- `l` as its four bytes in the order of memory, for both functions.
unfoldable pub stream_put_ipv4 : Stream → List ℕ → Run (ℕ × Stream)
stream_put_ipv4 s l = do
  verify_sane s
  bound_warn_if (ltb (writeable s) 4)
  mem ← memcpy s.bytes s.endp l 4
  ok (4, record s { bytes = mem; endp = add_size s.endp 4 })

unfoldable pub stream_put_in_addr : Stream → List ℕ → Run (ℕ × Stream)
stream_put_in_addr s addr = do
  verify_sane s
  bound_warn_if (ltb (writeable s) 4)
  mem ← memcpy s.bytes s.endp addr 4
  ok (4, record s { bytes = mem; endp = add_size s.endp 4 })

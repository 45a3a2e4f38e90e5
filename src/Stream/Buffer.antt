-- ===== src/Stream/Buffer.antt =====
-- apps/pop_stream.c: `struct stream`, the macros, creation, the marks, and one-byte access.
-- The pointer `next` belongs to the queue of streams, in Fifo.antt.
use poplar.Prelude.{
  ℕ, ◌+◌, ◌-◌, ◌%◌, ◌^◌, Bool, not, List, Option, none, some, length, slice, ltb, leb, ◌==◌,
  if◌then◌else◌,
}
use poplar.Run.{Run, ok, fault, aborted, ◌>>=◌, ◌>>◌, assert, load, store, memcpy}

pub record Stream : Type 0 where
  pub getp : ℕ
  pub endp : ℕ
  pub size : ℕ
  pub bytes : List ℕ

-- size_t arithmetic
abbrev pub add_size : ℕ → ℕ → ℕ
add_size a b = (a + b) % 2 ^ 64

abbrev pub sub_size : ℕ → ℕ → ℕ
sub_size a b = (a + 2 ^ 64 - b) % 2 ^ 64

-- GETP_VALID and PUT_AT_VALID
abbrev pub getp_valid : Stream → ℕ → Bool
getp_valid s g = leb g s.endp

-- ENDP_VALID
abbrev pub endp_valid : Stream → ℕ → Bool
endp_valid s e = leb e s.size

-- STREAM_VERIFY_SANE
abbrev pub verify_sane : Stream → Run (Unit {0})
verify_sane s = assert (getp_valid s s.getp) >> assert (endp_valid s s.endp)

-- STREAM_BOUND_WARN under its condition: a message, then assert (0).
abbrev pub bound_warn_if : Bool → Run (Unit {0})
bound_warn_if b = assert (not b)

-- STREAM_WRITEABLE
abbrev pub writeable : Stream → ℕ
writeable s = sub_size s.size s.endp

-- STREAM_READABLE: the cast to int, and its conversion to size_t where it is compared.
abbrev pub readable : Stream → ℕ
readable s =
    let d = sub_size s.endp s.getp % 2 ^ 32 in if ltb d (2 ^ 31) then d else d + (2 ^ 64 - 2 ^ 32)

-- CHECK_SIZE: the size it leaves.
abbrev pub check_size : Stream → ℕ → ℕ
check_size s z = if ltb s.size (add_size s.endp z) then sub_size s.size s.endp else z

-- What an allocation of common/memory.c hands out: `none` is a NULL of the C library, on which it
-- calls abort(); the bytes of the block are whatever the C library leaves in it.
abbrev pub allocated : Option (List ℕ) → Run (List ℕ)
allocated none = fault aborted
allocated (some block) = ok block

unfoldable pub stream_new : ℕ → Option (List ℕ) → Run Stream
stream_new size block = do
  assert (ltb 0 size)
  mem ← allocated block
  ok (record { getp = 0; endp = 0; size = size; bytes = mem })

unfoldable pub stream_copy : Stream → Stream → Run Stream
stream_copy new src = do
  verify_sane src
  assert (leb src.endp new.size)
  mem ← memcpy new.bytes 0 src.bytes src.endp
  ok (record new { endp = src.endp; getp = src.getp; bytes = mem })

unfoldable pub stream_dup : Stream → Option (List ℕ) → Run Stream
unfolding stream_new stream_copy
stream_dup s block = do verify_sane s; new ← stream_new s.endp block; stream_copy new s

-- The block is what XREALLOC returns.
unfoldable pub stream_resize : Stream → ℕ → Option (List ℕ) → Run (ℕ × Stream)
stream_resize s newsize block = do
  verify_sane s
  mem ← allocated block
  let e = if ltb newsize s.endp then newsize else s.endp
  let g = if ltb e s.getp then e else s.getp
  let s' : Stream = record { getp = g; endp = e; size = newsize; bytes = mem }
  verify_sane s'
  ok (newsize, s')

unfoldable pub stream_get_getp : Stream → Run ℕ
stream_get_getp s = do verify_sane s; ok s.getp

unfoldable pub stream_get_endp : Stream → Run ℕ
stream_get_endp s = do verify_sane s; ok s.endp

unfoldable pub stream_get_size : Stream → Run ℕ
stream_get_size s = do verify_sane s; ok s.size

unfoldable pub stream_set_getp : Stream → ℕ → Run Stream
stream_set_getp s pos = do
  verify_sane s
  bound_warn_if (not (getp_valid s pos))
  ok (record s { getp = pos })

unfoldable pub stream_forward_getp : Stream → ℕ → Run Stream
stream_forward_getp s n = do
  verify_sane s
  bound_warn_if (not (getp_valid s (add_size s.getp n)))
  ok (record s { getp = add_size s.getp n })

unfoldable pub stream_forward_endp : Stream → ℕ → Run Stream
stream_forward_endp s n = do
  verify_sane s
  bound_warn_if (not (endp_valid s (add_size s.endp n)))
  ok (record s { endp = add_size s.endp n })

-- The pointer s->data + s->getp, as the bytes from there on.
unfoldable pub stream_pnt : Stream → Run (List ℕ)
stream_pnt s = do verify_sane s; ok (slice s.bytes s.getp (length s.bytes - s.getp))

unfoldable pub stream_empty : Stream → Run Bool
stream_empty s = do verify_sane s; ok (s.endp == 0)

unfoldable pub stream_reset : Stream → Run Stream
stream_reset s = do verify_sane s; ok (record s { getp = 0; endp = 0 })

-- `s->data[s->getp++]`
unfoldable pub get_byte : Stream → Run (ℕ × Stream)
get_byte s = do c ← load s.bytes s.getp; ok (c, record s { getp = add_size s.getp 1 })

-- `s->data[s->endp++] = c`
unfoldable pub put_byte : Stream → ℕ → Run Stream
put_byte s c = do
  mem ← store s.bytes s.endp c
  ok (record s { bytes = mem; endp = add_size s.endp 1 })

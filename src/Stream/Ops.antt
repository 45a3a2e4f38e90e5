-- ===== src/Stream/Ops.antt =====
-- The calls a client can make on one stream, and what each may be given.
use poplar.Prelude.{ℕ, ◌+◌, ◌≡◌, ◌^◌, ◌≤◌, ◌<◌, List, Option, none, some, length}
use poplar.Run.{
  Run, ok, fault, assert_failed, aborted, out_of_bounds, null_pointer, division_by_zero,
  int_overflow, ◌>>=◌,
}
use poplar.Stream.Buffer.{
  Stream, stream_copy, stream_resize, stream_set_getp, stream_forward_getp, stream_forward_endp,
  stream_reset,
}
use poplar.Stream.Get.{
  stream_get, stream_getc, stream_getw, stream_getl, stream_getq, stream_get_ipv4,
}
use poplar.Stream.Put.{
  stream_put, stream_write, stream_putc, stream_putw, stream_putl, stream_putq, stream_putc_at,
  stream_putw_at, stream_putl_at, stream_putq_at, stream_put_ipv4, stream_put_in_addr,
}
use poplar.Stream.Io.{
  Answer, got, failed, stream_read_unblock, stream_read_try, stream_recvfrom, stream_recvmsg,
}
use poplar.Stream.Valid.{IsValid}

-- A constructor for each function that changes a stream, with its arguments.
pub data Op : Type 0 where
  copy_of : Stream → Op
  resize : ℕ → Option (List ℕ) → Op
  set_getp forward_getp forward_endp : ℕ → Op
  reset : Op
  get : ℕ → Op
  getc getw getl getq get_ipv4 : Op
  put : Option (List ℕ) → ℕ → Op
  write : List ℕ → ℕ → Op
  putc putw putl putq : ℕ → Op
  putc_at putw_at putl_at putq_at : ℕ → ℕ → Op
  put_ipv4 put_in_addr : List ℕ → Op
  read_unblock read_try recvfrom : ℕ → Answer → Op
  recvmsg : ℕ → ℕ → Answer → Op

-- The stream that a call leaves.
abbrev pub after {ℓ} : {A : Type ℓ} → Run (A × Stream) → Run Stream
after r = r >>= λ (a, t). ok t

abbrev pub step : Stream → Op → Run Stream
step s (copy_of src) = stream_copy s src
step s (resize n block) = after (stream_resize s n block)
step s (set_getp pos) = stream_set_getp s pos
step s (forward_getp n) = stream_forward_getp s n
step s (forward_endp n) = stream_forward_endp s n
step s reset = stream_reset s
step s (get n) = after (stream_get s n)
step s getc = after (stream_getc s)
step s getw = after (stream_getw s)
step s getl = after (stream_getl s)
step s getq = after (stream_getq s)
step s get_ipv4 = after (stream_get_ipv4 s)
step s (put src n) = stream_put s src n
step s (write src n) = after (stream_write s src n)
step s (putc c) = after (stream_putc s c)
step s (putw w) = after (stream_putw s w)
step s (putl l) = after (stream_putl s l)
step s (putq q) = after (stream_putq s q)
step s (putc_at p c) = after (stream_putc_at s p c)
step s (putw_at p w) = after (stream_putw_at s p w)
step s (putl_at p l) = after (stream_putl_at s p l)
step s (putq_at p q) = after (stream_putq_at s p q)
step s (put_ipv4 l) = after (stream_put_ipv4 s l)
step s (put_in_addr a) = after (stream_put_in_addr s a)
step s (read_unblock n a) = after (stream_read_unblock s n a)
step s (read_try n a) = after (stream_read_try s n a)
step s (recvfrom n a) = after (stream_recvfrom s n a)
step s (recvmsg k n a) = after (stream_recvmsg s k n a)

-- A system call delivers at most the bytes asked for, which recvmsg with several buffers need not.
abbrev pub Delivers : ℕ → Answer → Type 0
Delivers n (got bs) = length bs ≤ n
Delivers n (failed e) = Unit

-- An allocation gives NULL or a block of the size asked for.
abbrev pub Allocates : ℕ → Option (List ℕ) → Type 0
Allocates n none = Unit
Allocates n (some block) = length block ≡ n

abbrev pub Covers : ℕ → Option (List ℕ) → Type 0
Covers n none = Unit
Covers n (some src) = n ≤ length src

-- What the caller and the system owe: sources as long as the copy, offsets that do not wrap.
abbrev pub Allowed : Stream → Op → Type 0
Allowed s (copy_of src) = IsValid src
Allowed s (resize n block) = Allocates n block × (n < 2 ^ 31)
Allowed s (forward_endp n) = s.endp + n < 2 ^ 64
Allowed s (put src n) = Covers n src
Allowed s (write src n) = n ≤ length src
Allowed s (putc_at p c) = p + 1 < 2 ^ 64
Allowed s (putw_at p w) = p + 2 < 2 ^ 64
Allowed s (putl_at p l) = p + 4 < 2 ^ 64
Allowed s (putq_at p q) = p + 8 < 2 ^ 64
Allowed s (put_ipv4 l) = length l ≡ 4
Allowed s (put_in_addr l) = length l ≡ 4
Allowed s (read_unblock n a) = Delivers n a
Allowed s (read_try n a) = Delivers n a
Allowed s (recvfrom n a) = Delivers n a
Allowed s (recvmsg k n a) = Delivers n a
Allowed s op = Unit

-- The call returns a valid stream, or stops at an assertion or in abort(): no access outside an
-- object.
abbrev pub IsSafe : Run Stream → Type 0
IsSafe (ok t) = IsValid t
IsSafe (fault assert_failed) = Unit
IsSafe (fault aborted) = Unit
IsSafe (fault out_of_bounds) = ⊥
IsSafe (fault null_pointer) = ⊥
IsSafe (fault division_by_zero) = ⊥
IsSafe (fault int_overflow) = ⊥

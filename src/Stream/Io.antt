-- ===== src/Stream/Io.antt =====
-- apps/pop_stream.c: reads from and writes to a file descriptor. What the system call does is an
-- argument: the bytes that it delivers, or the errno that it sets.
use poplar.Prelude.{ℕ, Bool, true, false, List, length, take, ltb, if◌then◌else◌}
use poplar.Prelude.Int.{ℤ, pos, negsuc}
use poplar.Run.{Run, ok, ◌>>=◌, ◌>>◌, assert, memcpy, copy_from}
use poplar.Stream.Buffer.{Stream, add_size, sub_size, verify_sane, bound_warn_if, writeable}

pub data Errno : Type 0 where
  eagain ewouldblock eintr : Errno
  other : ℕ → Errno

-- ERRNO_IO_RETRY of apps/pop_network.h
unfoldable pub errno_io_retry : Errno → Bool
errno_io_retry (other n) = false
errno_io_retry _ = true

pub data Answer : Type 0 where
  got : List ℕ → Answer
  failed : Errno → Answer

-- The kernel writes the bytes at s->data + s->endp and the function moves the mark.
unfoldable pub receive : Stream → List ℕ → Run Stream
receive s bs = do
  mem ← memcpy s.bytes s.endp bs (length bs)
  ok (record s { bytes = mem; endp = add_size s.endp (length bs) })

unfoldable pub stream_read_unblock : Stream → ℕ → Answer → Run (ℤ × Stream)
unfolding receive
stream_read_unblock s size answer = do
  verify_sane s
  bound_warn_if (ltb (writeable s) size)
  elim answer [
    | got bs ↦ do s' ← receive s bs; ok (pos (length bs), s')
    | failed e ↦ ok (negsuc 0, s)
  ]

-- -2 is a transient error, -1 a fatal one.
unfoldable pub stream_read_try : Stream → ℕ → Answer → Run (ℤ × Stream)
unfolding receive errno_io_retry
stream_read_try s size answer = do
  verify_sane s
  bound_warn_if (ltb (writeable s) size)
  elim answer [
    | got bs ↦ do s' ← receive s bs; ok (pos (length bs), s')
    | failed e ↦ ok (if errno_io_retry e then negsuc 1 else negsuc 0, s)
  ]

unfoldable pub stream_recvfrom : Stream → ℕ → Answer → Run (ℤ × Stream)
unfolding receive errno_io_retry
stream_recvfrom s size answer = do
  verify_sane s
  bound_warn_if (ltb (writeable s) size)
  elim answer [
    | got bs ↦ do s' ← receive s bs; ok (pos (length bs), s')
    | failed e ↦ ok (if errno_io_retry e then negsuc 1 else negsuc 0, s)
  ]

-- The kernel fills the first of several buffers, which has room for `size` bytes at
-- s->data + s->endp, before the others, and the function moves the mark by all that came.
unfoldable pub receive_first : Stream → ℕ → List ℕ → Run Stream
receive_first s size bs = do
  let first : List ℕ = take size bs
  mem ← memcpy s.bytes s.endp first (length first)
  ok (record s { bytes = mem; endp = add_size s.endp (length bs) })

-- `iovlen` is msgh->msg_iovlen; the first buffer is pointed at the stream. The answer is the bytes of
-- the whole message, more than `size` where it goes on in the other buffers.
unfoldable pub stream_recvmsg : Stream → ℕ → ℕ → Answer → Run (ℤ × Stream)
unfolding receive_first
stream_recvmsg s iovlen size answer = do
  verify_sane s
  assert (ltb 0 iovlen)
  bound_warn_if (ltb (writeable s) size)
  elim answer [
    | got bs ↦ do s' ← receive_first s size bs; ok (pos (length bs), s')
    | failed e ↦ ok (negsuc 0, s)
  ]

-- The bytes handed to write(), whose result is the result.
unfoldable pub stream_flush : Stream → Run (List ℕ)
stream_flush s = do verify_sane s; copy_from s.bytes s.getp (sub_size s.endp s.getp)

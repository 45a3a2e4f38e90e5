-- ===== src/Stream/Safety.antt =====
-- Every call on a valid stream keeps it valid and stays inside its data.
use poplar.Stream.Buffer.{Stream}
use poplar.Stream.Put.{stream_putc, stream_putw, stream_putl, stream_putq}
use poplar.Stream.Valid.{IsValid}
use poplar.Stream.Append.{putc-Puts, putw-Puts, putl-Puts, putq-Puts}
use poplar.Stream.Ops.{
  Op, copy_of, resize, set_getp, forward_getp, forward_endp, reset, get, getc, getw, getl, getq,
  get_ipv4, put, write, putc, putw, putl, putq, putc_at, putw_at, putl_at, putq_at, put_ipv4,
  put_in_addr, read_unblock, read_try, recvfrom, recvmsg, step, Allowed, IsSafe,
}
use poplar.Stream.Bounds.{
  copy-IsSafe, resize-IsSafe, set_getp-IsSafe, forward_getp-IsSafe, forward_endp-IsSafe,
  reset-IsSafe, get-IsSafe, get_ipv4-IsSafe, getc-IsSafe, getw-IsSafe, getl-IsSafe, getq-IsSafe,
  Puts-IsSafe, putc_at-IsSafe, putw_at-IsSafe, putl_at-IsSafe, putq_at-IsSafe,
}
use poplar.Stream.Sources.{
  put-IsSafe, write-IsSafe, put_ipv4-IsSafe, put_in_addr-IsSafe, read_unblock-IsSafe,
  read_try-IsSafe, recvfrom-IsSafe, recvmsg-IsSafe,
}

-- Every call that changes a valid stream, which has fewer than 2 ^ 31 bytes, given valid streams and
-- other sources at least as long as what is copied from them, a new size below 2 ^ 31, offsets that do
-- not wrap round 2 ^ 64, blocks of the size asked for and answers of the system of no more bytes than
-- the size that the call has, for stream_recvmsg a message that does not go on in further buffers:
-- either leaves a valid stream or stops at an assertion or in abort(). It never reads or writes
-- outside the data of the stream or of its source.
pub step-IsSafe : (s : Stream) (op : Op) → IsValid s → Allowed s op → IsSafe (step s op)
step-IsSafe s (copy_of src) v a = copy-IsSafe v src a
step-IsSafe s (resize n block) v a = resize-IsSafe v n block a
step-IsSafe s (set_getp pos) v a = set_getp-IsSafe v pos
step-IsSafe s (forward_getp n) v a = forward_getp-IsSafe v n
step-IsSafe s (forward_endp n) v a = forward_endp-IsSafe v n a
step-IsSafe s reset v a = reset-IsSafe v
step-IsSafe s (get n) v a = get-IsSafe v n
step-IsSafe s getc v a = getc-IsSafe v
step-IsSafe s getw v a = getw-IsSafe v
step-IsSafe s getl v a = getl-IsSafe v
step-IsSafe s getq v a = getq-IsSafe v
step-IsSafe s get_ipv4 v a = get_ipv4-IsSafe v
step-IsSafe s (put src n) v a = put-IsSafe v src n a
step-IsSafe s (write src n) v a = write-IsSafe v src n a
step-IsSafe s (putc c) v a = Puts-IsSafe v _ (stream_putc s c) (putc-Puts v c)
step-IsSafe s (putw w) v a = Puts-IsSafe v _ (stream_putw s w) (putw-Puts v w)
step-IsSafe s (putl l) v a = Puts-IsSafe v _ (stream_putl s l) (putl-Puts v l)
step-IsSafe s (putq q) v a = Puts-IsSafe v _ (stream_putq s q) (putq-Puts v q)
step-IsSafe s (putc_at p c) v a = putc_at-IsSafe v p c a
step-IsSafe s (putw_at p w) v a = putw_at-IsSafe v p w a
step-IsSafe s (putl_at p l) v a = putl_at-IsSafe v p l a
step-IsSafe s (putq_at p q) v a = putq_at-IsSafe v p q a
step-IsSafe s (put_ipv4 l) v a = put_ipv4-IsSafe v l a
step-IsSafe s (put_in_addr l) v a = put_in_addr-IsSafe v l a
step-IsSafe s (read_unblock n ans) v a = read_unblock-IsSafe v n ans a
step-IsSafe s (read_try n ans) v a = read_try-IsSafe v n ans a
step-IsSafe s (recvfrom n ans) v a = recvfrom-IsSafe v n ans a
step-IsSafe s (recvmsg k n ans) v a = recvmsg-IsSafe v k n ans a

-- ===== src/Stream/Offsets.antt =====
-- Reads and writes at an offset that the caller gives.
use poplar.Prelude.{ℕ, ◌+◌, ◌^◌, ◌≤◌, ◌<◌, ◌≡◌, List, arith, length, get_or}
use poplar.Prelude.Lists.{get_elem?-eq-get_or, get_elem?_out}
use poplar.Run.{Run, ok, fault, out_of_bounds, load}
use poplar.Stream.Buffer.{Stream}
use poplar.Stream.Get.{stream_getc_from, stream_getw_from, stream_getl_from, stream_getq_from}
use poplar.Stream.Put.{stream_putc_at, stream_putw_at, stream_putl_at, stream_putq_at}
use poplar.Stream.Valid.{IsValid}
use poplar.Stream.Items.{Item, byte, word, long, quad, Kind, kind_c, kind_w, kind_l, kind_q}

abbrev pub width : Kind → ℕ
width kind_c = 1
width kind_w = 2
width kind_l = 4
width kind_q = 8

abbrev pub value : Item → ℕ
value (byte c) = c
value (word w) = w
value (long l) = l
value (quad q) = q

abbrev pub get_from : Stream → Kind → ℕ → Run ℕ
get_from s kind_c from = stream_getc_from s from
get_from s kind_w from = stream_getw_from s from
get_from s kind_l from = stream_getl_from s from
get_from s kind_q from = stream_getq_from s from

abbrev pub put_at : Stream → ℕ → Item → Run (ℕ × Stream)
put_at s p (byte c) = stream_putc_at s p c
put_at s p (word w) = stream_putw_at s p w
put_at s p (long l) = stream_putl_at s p l
put_at s p (quad q) = stream_putq_at s p q

pub load_out : (xs : List ℕ) (i : ℕ) → length xs ≤ i → load xs i ≡ fault out_of_bounds
unfolding load
load_out xs i h = ground (arith, get_elem?_out xs i)

pub load_in : (xs : List ℕ) (i : ℕ) → i < length xs → load xs i ≡ ok (get_or xs i 0)
unfolding load
load_in xs i h = ground (arith, get_elem?-eq-get_or xs i 0)

-- In every valid stream, an offset that reaches 2 ^ 64 with the width of the word passes the guard
-- of stream_getc_from, stream_getw_from, stream_getl_from and stream_getq_from, because their sum
-- wraps to 0, and the function reads outside the data.
pub from_wraps :
    {s : Stream} (k : Kind) (from : ℕ)
    → IsValid s
    → from + width k ≡ 2 ^ 64
    → get_from s k from ≡ fault out_of_bounds
unfolding stream_getc_from stream_getw_from stream_getl_from stream_getq_from
from_wraps {s} kind_c from v h = ground (arith, load_out s.bytes from)
from_wraps {s} kind_w from v h = ground (arith, load_out s.bytes from)
from_wraps {s} kind_l from v h = ground (arith, load_out s.bytes from)
from_wraps {s} kind_q from v h = ground (arith, load_out s.bytes from)

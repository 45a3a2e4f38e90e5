-- ===== src/Stream/Tests.antt =====
-- Concrete streams: runs of the functions, and the theorems at inputs that meet their hypotheses.
use poplar.Prelude.{◌-◌, ◌^◌, ◌≡◌, refl, [], ◌∷◌, arith}
use poplar.Prelude.Lists.{slice}
use poplar.Run.{ok, fault, out_of_bounds, load, store, ◌>>=◌}
use poplar.Stream.Buffer.{Stream, get_byte, put_byte}
use poplar.Stream.Put.{stream_putl}
use poplar.Stream.Get.{stream_getw, stream_getc_from}
use poplar.Stream.Valid.{IsValid, contents}
use poplar.Stream.Words.{big_endian}
use poplar.Stream.Items.{byte, word, long, kind, kind_w, encoding}
use poplar.Stream.Messages.{put_items, get_items, get_items-put_items}
use poplar.Stream.Ops.{putq_at, step, IsSafe}
use poplar.Stream.Safety.{step-IsSafe}
use poplar.Stream.Offsets.{get_from, put_at, from_wraps}
use poplar.Stream.InPlace.{Replaces, get_from-put_at}

abbrev empty_eight : Stream
empty_eight = record { getp = 0; endp = 0; size = 8; bytes = 9 ∷ 9 ∷ 9 ∷ 9 ∷ 9 ∷ 9 ∷ 9 ∷ 9 ∷ [] }

-- 7 read, then 1 and 2 to be read
abbrev some_read : Stream
some_read = record { getp = 1; endp = 3; size = 8; bytes = 7 ∷ 1 ∷ 2 ∷ 9 ∷ 9 ∷ 9 ∷ 9 ∷ 9 ∷ [] }

empty_eight-IsValid : IsValid empty_eight
empty_eight-IsValid = omega arith

some_read-IsValid : IsValid some_read
some_read-IsValid = omega arith

putl_bytes :
    (stream_putl some_read 0x0a0b0c0d >>= λ (n, t). ok t)
    ≡ ok (record some_read { endp = 7; bytes = 7 ∷ 1 ∷ 2 ∷ 10 ∷ 11 ∷ 12 ∷ 13 ∷ 9 ∷ [] })
unfolding stream_putl put_byte store
putl_bytes = refl

getw_value : stream_getw some_read ≡ ok (0x102, record some_read { getp = 3 })
unfolding stream_getw get_byte load
getw_value = refl

get_items-put_items_example :
    (t : Stream) × ((put_items empty_eight (byte 3 ∷ long 0x0a0b0c0d ∷ word 0xffff ∷ []) >>= λ u.
    get_items u (kind (byte 3) ∷ kind (long 4) ∷ kind (word 5) ∷ []))
      ≡ ok (byte 3 ∷ long 0x0a0b0c0d ∷ word 0xffff ∷ [], t))
    × IsValid t
    × (contents t ≡ [])
unfolding big_endian slice
get_items-put_items_example =
    get_items-put_items (byte 3 ∷ long 0x0a0b0c0d ∷ word 0xffff ∷ []) empty_eight-IsValid refl
      (omega arith) (omega arith)

step-IsSafe_example : IsSafe (step empty_eight (putq_at 0 5))
step-IsSafe_example = step-IsSafe empty_eight (putq_at 0 5) empty_eight-IsValid (omega arith)

-- The guard of stream_getc_from computes from + 1, which wraps to 0 at the largest offset.
getc_from_wraps : stream_getc_from some_read (2 ^ 64 - 1) ≡ fault out_of_bounds
unfolding stream_getc_from load
getc_from_wraps = refl

from_wraps_example : get_from some_read kind_w (2 ^ 64 - 2) ≡ fault out_of_bounds
from_wraps_example = from_wraps kind_w (2 ^ 64 - 2) some_read-IsValid refl

get_from-put_at_example :
    (t : Stream) × (put_at some_read 1 (word 0x0a0b) ≡ ok (2, t))
    × Replaces some_read 1 (encoding (word 0x0a0b)) t
    × (get_from t (kind (word 0x0a0b)) 1 ≡ ok 0x0a0b)
unfolding big_endian
get_from-put_at_example =
    get_from-put_at 1 (word 0x0a0b) some_read-IsValid (omega arith) (omega arith)

-- ===== src/Stream/Items.antt =====
-- Messages of words written to a stream and read back: the get functions undo the put functions.
use poplar.Prelude.{ℕ, ◌+◌, ◌^◌, ◌≤◌, ◌<◌, ◌≡◌, ap, sym, ◌∙◌, List, [], ◌∷◌, ◌++◌, length}
use poplar.Run.{Run, ok, fault, assert_failed, ◌>>=◌}
use poplar.Stream.Buffer.{Stream}
use poplar.Stream.Put.{stream_putc, stream_putw, stream_putl, stream_putq, byte_at}
use poplar.Stream.Get.{stream_getc, stream_getw, stream_getl, stream_getq}
use poplar.Stream.Valid.{IsValid, contents}
use poplar.Stream.Append.{Appends, Puts, putc-Puts, putw-Puts, putl-Puts, putq-Puts}
use poplar.Stream.Take.{Drops, getc_takes, getw_takes, getl_takes, getq_takes}
use poplar.Stream.Words.{
  big_endian, bytes_two, bytes_four, bytes_eight, word_roundtrip, long_roundtrip, quad_roundtrip,
}

-- The suffixes c, w, l, q of the functions, with the value that is put.
pub data Item : Type 0 where
  byte word long quad : ℕ → Item

pub data Kind : Type 0 where
  kind_c kind_w kind_l kind_q : Kind

abbrev pub kind : Item → Kind
kind (byte c) = kind_c
kind (word w) = kind_w
kind (long l) = kind_l
kind (quad q) = kind_q

-- The value is one of its C type.
abbrev pub Fits : Item → Type 0
Fits (byte c) = c < 2 ^ 8
Fits (word w) = w < 2 ^ 16
Fits (long l) = l < 2 ^ 32
Fits (quad q) = q < 2 ^ 64

-- Network order, most significant byte first.
abbrev pub encoding : Item → List ℕ
encoding (byte c) = c ∷ []
encoding (word w) = big_endian 2 w
encoding (long l) = big_endian 4 l
encoding (quad q) = big_endian 8 q

abbrev pub put_item : Stream → Item → Run (ℕ × Stream)
put_item s (byte c) = stream_putc s c
put_item s (word w) = stream_putw s w
put_item s (long l) = stream_putl s l
put_item s (quad q) = stream_putq s q

abbrev pub tagged : (ℕ → Item) → Run (ℕ × Stream) → Run (Item × Stream)
tagged f r = r >>= λ (n, t). ok (f n, t)

abbrev pub get_item : Stream → Kind → Run (Item × Stream)
get_item s kind_c = tagged byte (stream_getc s)
get_item s kind_w = tagged word (stream_getw s)
get_item s kind_l = tagged long (stream_getl s)
get_item s kind_q = tagged quad (stream_getq s)

item-Puts : {s : Stream} (x : Item) → IsValid s → Puts s (encoding x) (put_item s x)
item-Puts (byte c) v = putc-Puts v c
item-Puts (word w) v = putw-Puts v w
item-Puts (long l) v = putl-Puts v l
item-Puts (quad q) v = putq-Puts v q

-- On a valid stream with room for the encoding, stream_putc, stream_putw, stream_putl and
-- stream_putq return the number of bytes, append exactly the big-endian bytes of the value to what
-- the reader will see, keep the read mark and the size, and leave a valid stream.
pub put_item-Appends :
    {s : Stream} (x : Item)
    → IsValid s
    → s.endp + length (encoding x) ≤ s.size
    → (t : Stream) × (put_item s x ≡ ok (length (encoding x), t)) × Appends s (encoding x) t
put_item-Appends x v h = (item-Puts x v).with_room h

-- On a valid stream without room for the encoding, stream_putc, stream_putw, stream_putl and
-- stream_putq stop at the assertion of STREAM_BOUND_WARN.
put_item_full :
    {s : Stream} (x : Item)
    → IsValid s
    → s.size < s.endp + length (encoding x)
    → put_item s x ≡ fault assert_failed
put_item_full x v h = (item-Puts x v).without h

-- On a valid stream whose contents start with the big-endian bytes of a value of its C type,
-- stream_getc, stream_getw, stream_getl or stream_getq of that width returns the value, and leaves
-- a valid stream with the same data and end mark whose contents are the rest.
pub get_item-Drops :
    {s : Stream} (x : Item) (rest : List ℕ)
    → IsValid s
    → Fits x
    → contents s ≡ encoding x ++ rest
    → (t : Stream) × (get_item s (kind x) ≡ ok (x, t)) × Drops s (length (encoding x)) rest t
unfolding big_endian
get_item-Drops (byte c) rest v f h = let (t, run, d) = getc_takes v rest c h in (t, rw run, d)
get_item-Drops (word w) rest v f h =
    let split = h ∙ ap (λ e. e ++ rest) (sym (bytes_two w)) in
    let (t, run, d) = getw_takes v rest (byte_at w 8) (byte_at w 0) split in
    (t, rw (run, word_roundtrip w f), d)
get_item-Drops (long l) rest v f h =
    let split = h ∙ ap (λ e. e ++ rest) (sym (bytes_four l)) in
    let (t, run, d) =
      getl_takes v rest (byte_at l 24) (byte_at l 16) (byte_at l 8) (byte_at l 0) split in
    (t, rw (run, long_roundtrip l f), d)
get_item-Drops (quad q) rest v f h =
    let split = h ∙ ap (λ e. e ++ rest) (sym (bytes_eight q)) in
    let (t, run, d) =
      getq_takes v rest (byte_at q 56) (byte_at q 48) (byte_at q 40) (byte_at q 32) (byte_at q 24)
        (byte_at q 16) (byte_at q 8) (byte_at q 0) split in
    (t, rw (run, quad_roundtrip q f), d)

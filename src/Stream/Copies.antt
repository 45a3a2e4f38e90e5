-- ===== src/Stream/Copies.antt =====
-- Whole blocks: what is appended by stream_write and by the reads, and what stream_dup keeps.
use poplar.Prelude.{
  ℕ, ◌+◌, ◌-◌, ◌^◌, ◌≤◌, ◌<◌, ◌≡◌, refl, List, some, arith, length, take, splice, min,
}
use poplar.Prelude.Int.{pos}
use poplar.Prelude.Lists.{length-take, length-splice}
use poplar.Prelude.Splices.{slice-splice, splice_whole, slice-take}
use poplar.Run.{ok, fault, assert_failed, memcpy}
use poplar.Stream.Buffer.{Stream, check_size, stream_new, stream_copy, stream_dup}
use poplar.Stream.Put.{stream_write}
use poplar.Stream.Io.{got, stream_recvfrom, stream_read_try, stream_read_unblock}
use poplar.Stream.Valid.{IsValid, writeable_lem, contents}
use poplar.Stream.Append.{Appends}
use poplar.Stream.Sources.{receive-IsValid}

block-Appends :
    {s : Stream} (cs : List ℕ)
    → IsValid s
    → s.endp + length cs ≤ s.size
    → Appends s cs (record s { bytes = splice s.bytes s.endp cs; endp = s.endp + length cs })
block-Appends {s} cs v h = record {
  valid = omega (arith, length-splice s.bytes s.endp cs);
  reads =
      slice-splice s.bytes cs s.getp (s.endp - s.getp) s.endp (s.endp + length cs - s.getp)
        (omega arith) (omega arith) (omega arith);
  endp = refl;
  getp = refl;
  size = refl;
}

-- On a valid stream, given a source at least as long as the size asked for, which is below 2 ^ 63,
-- stream_write copies as many bytes as fit, returns their number, and appends exactly the first
-- that many bytes of the source to what the reader will see; a call that asks for more than fits is
-- cut short and does not fail.
write-Appends :
    {s : Stream} (src : List ℕ) (n : ℕ)
    → IsValid s
    → n ≤ length src
    → n < 2 ^ 63
    → let m = min n (s.size - s.endp) in
      (t : Stream) × (stream_write s src n ≡ ok (m, t)) × Appends s (take m src) t
unfolding stream_write memcpy
write-Appends {s} src n v h small =
    let m : ℕ = min n (s.size - s.endp) in
    let cs : List ℕ = take m src in
    let e : length cs ≡ m = omega (arith, length-take m src) in
    let a = block-Appends cs v (omega arith) in
    let m_lem : check_size s n ≡ m = ground arith in
    (_, rw m_lem (ground (arith, writeable_lem v, e)), a)

-- A datagram or a run of bytes that fits what was asked for, delivered to a valid stream, is
-- appended unchanged to what the reader will see, and its length is the result of stream_recvfrom,
-- stream_read_try and stream_read_unblock alike.
receive-Appends :
    {s : Stream} (n : ℕ) (bs : List ℕ)
    → IsValid s
    → length bs ≤ n
    → s.endp + n ≤ s.size
    → (t : Stream) × (stream_recvfrom s n (got bs) ≡ ok (pos (length bs), t))
      × (stream_read_try s n (got bs) ≡ ok (pos (length bs), t))
      × (stream_read_unblock s n (got bs) ≡ ok (pos (length bs), t))
      × Appends s bs t
unfolding stream_recvfrom stream_read_try stream_read_unblock
receive-Appends {s} n bs v h room =
    let (runs, w) = receive-IsValid v n bs h room in
    (
      _,
      ground (arith, writeable_lem v, runs),
      ground (arith, writeable_lem v, runs),
      ground (arith, writeable_lem v, runs),
      block-Appends bs v (omega arith),
    )

-- stream_dup of a valid stream with something in it, on a block of the size that it asks for,
-- gives a valid stream that is exactly full, with the same marks and the same bytes to read.
dup-contents :
    {s : Stream} (block : List ℕ)
    → IsValid s
    → 0 < s.endp
    → length block ≡ s.endp
    → (t : Stream) × (stream_dup s (some block) ≡ ok t)
      × IsValid t
      × (contents t ≡ contents s)
      × (t.size ≡ s.endp)
      × (t.endp ≡ s.endp)
      × (t.getp ≡ s.getp)
unfolding stream_dup stream_new stream_copy memcpy
dup-contents {s} block v filled e =
    let cs : List ℕ = take s.endp s.bytes in
    let n : length cs ≡ s.endp = omega (arith, length-take s.endp s.bytes) in
    (
      record { getp = s.getp; endp = s.endp; size = s.endp; bytes = cs },
      ground (arith, splice_whole block cs (omega arith)),
      omega arith,
      slice-take s.bytes s.getp s.endp,
      refl,
      refl,
      refl,
    )

-- stream_dup of a valid stream with nothing in it stops at the assertion of stream_new.
dup_empty :
    {s : Stream} (block : List ℕ)
    → IsValid s
    → s.endp ≡ 0
    → stream_dup s (some block) ≡ fault assert_failed
unfolding stream_dup stream_new
dup_empty {s} block v e = ground arith

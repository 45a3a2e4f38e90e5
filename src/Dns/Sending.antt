-- ===== src/Dns/Sending.antt =====
-- What get_host_by_name_unblock sends.
use poplar.Prelude.{
  ℕ, ◌+◌, ◌-◌, ◌%◌, ◌^◌, ◌<◌, ◌≤◌, ◌≡◌, refl, ap, sym, ◌∙◌, Bool, List, [], ◌∷◌, ◌++◌, Option, some,
  arith, length, take, splice, if◌then◌else◌,
}
use poplar.Prelude.Int.{pos, negsuc}
use poplar.Prelude.Lists.{slice, length-splice, take-length}
use poplar.Prelude.Splices.{slice-splice}
use mathlib.Core.List.{append_assoc}
use poplar.Run.{ok, memcpy}
use poplar.Stream.Buffer.{Stream, check_size, stream_new}
use poplar.Stream.Put.{stream_put, stream_putw}
use poplar.Stream.Words.{big_endian}
use poplar.Stream.Valid.{IsValid, writeable_lem, contents}
use poplar.Stream.Append.{Appends, putw-Puts}
use poplar.Dns.{trans_dns_name_into_pkt_format}
use poplar.Dns.Names.{join, encode, Labels, trans-encode}
use poplar.Dns.Query.{query_header, query_packet, get_host_by_name_unblock}

put-Appends :
    {s : Stream} (cs : List ℕ)
    → IsValid s
    → s.endp + length cs ≤ s.size
    → (t : Stream) × (stream_put s (some cs) (length cs) ≡ ok t) × Appends s cs t
unfolding stream_put memcpy
put-Appends {s} cs v h =
    let m_lem : check_size s (length cs) ≡ length cs = ground arith in
    (
      record s { bytes = splice s.bytes s.endp cs; endp = s.endp + length cs },
      rw m_lem (ground (arith, writeable_lem v, take-length cs)),
      record {
        valid = omega (arith, length-splice s.bytes s.endp cs);
        reads =
            slice-splice s.bytes cs s.getp (s.endp - s.getp) s.endp (s.endp + length cs - s.getp)
              (omega arith) (omega arith) (omega arith);
        endp = refl;
        getp = refl;
        size = refl;
      },
    )

-- The empty stream of a block.
abbrev fresh : ℕ → List ℕ → Stream
fresh n mem = record { getp = 0; endp = 0; size = n; bytes = mem }

fresh_lem : (n : ℕ) (mem : List ℕ) → 0 < n → stream_new n (some mem) ≡ ok (fresh n mem)
unfolding stream_new
fresh_lem n mem h = ground arith

packet_steps :
    (block : ℕ → Option (List ℕ)) (id : ℕ) (query : List ℕ) (s a b : Stream) (c d : ℕ × Stream)
    → stream_new (12 + length query + 4) (block (12 + length query + 4)) ≡ ok s
    → stream_put s (some (query_header id)) 12 ≡ ok a
    → stream_put a (some query) (length query) ≡ ok b
    → stream_putw b 1 ≡ ok c
    → stream_putw c.1 1 ≡ ok d
    → query_packet block id query ≡ ok d.1
unfolding query_packet
packet_steps block id query s a b c d e f g h k =
    rw (stream_new, e, stream_put, f, g, stream_putw, h, k) refl

-- A stream without a byte read and with these contents.
from_start : (t : Stream) (cs : List ℕ) → t.getp ≡ 0 → contents t ≡ cs → take t.endp t.bytes ≡ cs
unfolding slice
from_start t cs e h =
    let all : t.endp - 0 ≡ t.endp = omega arith in
    let whole : slice t.bytes 0 (t.endp - 0) ≡ take t.endp t.bytes =
      ap (λ (k : ℕ). take k t.bytes) all in
    sym whole ∙ ap (λ (k : ℕ). slice t.bytes k (t.endp - k)) (sym e) ∙ h

packet_made :
    (block : ℕ → Option (List ℕ)) (mem : List ℕ) (id : ℕ) (query : List ℕ)
    → block (12 + length query + 4) ≡ some mem
    → length mem ≡ 12 + length query + 4
    → 12 + length query + 4 < 2 ^ 31
    → (t : Stream) × (query_packet block id query ≡ ok t)
      × (take t.endp t.bytes ≡ query_header id ++ (query ++ (0 ∷ 1 ∷ 0 ∷ 1 ∷ [])))
unfolding big_endian slice
packet_made block mem id query given filled small =
    let n = 12 + length query + 4 in
    let v : IsValid (fresh n mem) = omega (arith, filled, small) in
    let (a, put_a, x) = put-Appends (query_header id) v (omega arith) in
    let (b, put_b, y) = put-Appends query x.valid (omega (arith, x.endp, x.size)) in
    let (c, put_c, z) =
      (putw-Puts y.valid 1).with_room (omega (arith, y.endp, y.size, x.endp, x.size)) in
    let (d, put_d, w) =
      (putw-Puts z.valid 1).with_room
        (omega (arith, z.endp, z.size, y.endp, y.size, x.endp, x.size)) in
    (
      d,
      packet_steps block id query (fresh n mem) a b (2, c) (2, d)
          (ap (stream_new n) given ∙ fresh_lem n mem (omega arith)) put_a put_b put_c put_d,
      from_start d _ (w.getp ∙ z.getp ∙ y.getp ∙ x.getp) (
          w.reads
          ∙ ap (λ t. t ++ 0 ∷ 1 ∷ [])
              (z.reads ∙ ap (λ t. t ++ 0 ∷ 1 ∷ []) (y.reads ∙ ap (λ t. t ++ query) x.reads))
          ∙ append_assoc (query_header id ++ query) (0 ∷ 1 ∷ []) (0 ∷ 1 ∷ [])
          ∙ append_assoc (query_header id) query (0 ∷ 1 ∷ 0 ∷ 1 ∷ [])),
    )

query_runs :
    (block : ℕ → Option (List ℕ)) (sends : List ℕ → Bool) (id : ℕ) (name query packet : List ℕ)
    (t : Stream)
    → trans_dns_name_into_pkt_format (some name) ≡ ok (some query)
    → query_packet block id query ≡ ok t
    → take t.endp t.bytes ≡ packet
    → get_host_by_name_unblock block sends id (some name)
      ≡ ok (record {
        result = if sends packet then pos 0 else negsuc 0;
        next_id = (id + 1) % 2 ^ 16;
        sent = some packet;
      })
unfolding get_host_by_name_unblock
query_runs block sends id name query packet t e f g =
    rw (trans_dns_name_into_pkt_format, e, query_packet, f, g) refl

-- A name of one or more labels with dots between them, each without a dot or a zero and shorter than
-- 256, where memory for the packet is given and its length fits an int: get_host_by_name_unblock hands
-- sendto one packet, which has the number of the query, the flags of a standard query, one question
-- and no more in its header, then each label behind its length, a 0, and the type and class of an
-- address; it returns 0 where sendto takes the packet and -1 where it does not, and either way leaves
-- the next number of 16 bits for the next query.
pub query_sent :
    (block : ℕ → Option (List ℕ)) (mem : List ℕ) (sends : List ℕ → Bool) (id : ℕ) (l : List ℕ)
    (ls : List (List ℕ))
    → Labels 256 (l ∷ ls)
    → block (12 + length (encode (l ∷ ls)) + 4) ≡ some mem
    → length mem ≡ 12 + length (encode (l ∷ ls)) + 4
    → 12 + length (encode (l ∷ ls)) + 4 < 2 ^ 31
    → let packet = query_header id ++ (encode (l ∷ ls) ++ (0 ∷ 1 ∷ 0 ∷ 1 ∷ [])) in
      get_host_by_name_unblock block sends id (some (join l ls))
      ≡ ok (record {
        result = if sends packet then pos 0 else negsuc 0;
        next_id = (id + 1) % 2 ^ 16;
        sent = some packet;
      })
query_sent block mem sends id l ls h given filled small =
    let (t, made, e) = packet_made block mem id (encode (l ∷ ls)) given filled small in
    query_runs block sends id (join l ls) (encode (l ∷ ls)) _ t (trans-encode l ls h) made e

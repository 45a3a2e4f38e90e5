-- ===== src/Stream/Append.antt =====
-- Writing: each put function appends the big-endian bytes of its argument to the contents of a
-- stream with room, and stops at the assertion of STREAM_BOUND_WARN in one without.
use poplar.Prelude.{
  ℕ, ◌+◌, ◌-◌, ◌≤◌, ◌<◌, ◌≡◌, refl, ap, sym, subst, ◌∙◌, List, [], ◌∷◌, ◌++◌, arith, length, set,
  slice, ltb, le→ltb, lt→ltb,
}
use poplar.Prelude.Lists.{slice-set}
use mathlib.Core.List.{append_assoc, append-nil}
use poplar.Run.{Run, ok, fault, assert_failed, ◌>>=◌, ◌>>◌, bind_assoc}
use poplar.Stream.Buffer.{Stream, verify_sane, bound_warn_if, writeable, put_byte}
use poplar.Stream.Put.{byte_at, stream_putc, stream_putw, stream_putl, stream_putq}
use poplar.Stream.Words.{big_endian, bytes_two, bytes_four, bytes_eight}
use poplar.Stream.Valid.{
  IsValid, verify_sane_ok, writeable_lem, contents, appended_byte, appended, appended_byte-IsValid,
  put_byte_lem,
}

-- `t` is `s` with `cs` written behind its contents.
pub record Appends (s : Stream) (cs : List ℕ) (t : Stream) : Type 0 where
  pub valid : IsValid t
  pub reads : contents t ≡ contents s ++ cs
  pub endp : t.endp ≡ s.endp + length cs
  pub getp : t.getp ≡ s.getp
  pub size : t.size ≡ s.size

contents-appended_byte :
    {s : Stream} (c : ℕ)
    → IsValid s
    → s.endp < s.size
    → contents (appended_byte s c) ≡ contents s ++ (c ∷ [])
contents-appended_byte {s} c v h =
    ap (slice (set s.bytes s.endp c) s.getp) (omega arith)
    ∙ slice-set s.bytes s.getp (s.endp - s.getp) s.endp c (omega arith) (omega arith)

pub appended-Appends :
    (cs : List ℕ) {s : Stream}
    → IsValid s
    → s.endp + length cs ≤ s.size
    → Appends s cs (appended s cs)
unfolding appended
appended-Appends [] {s} v h = record {
  valid = v;
  reads = sym (append-nil (contents s));
  endp = omega arith;
  getp = refl;
  size = refl;
}
appended-Appends (c ∷ cs) {s} v h =
    let rest = appended-Appends cs (appended_byte-IsValid v c (omega arith)) (omega arith) in
    record {
      valid = rest.valid;
      reads =
          rest.reads
          ∙ ap (λ t. t ++ cs) (contents-appended_byte c v (omega arith))
          ∙ append_assoc (contents s) (c ∷ []) cs;
      endp = omega (arith, rest.endp);
      getp = rest.getp;
      size = rest.size;
    }

-- A row of `s->data[s->endp++] = c`.
put_all : Stream → List ℕ → Run Stream
put_all s [] = ok s
put_all s (c ∷ cs) = put_byte s c >>= λ t. put_all t cs

put_all_lem :
    (cs : List ℕ) {s : Stream}
    → IsValid s
    → s.endp + length cs ≤ s.size
    → put_all s cs ≡ ok (appended s cs)
unfolding put_all appended
put_all_lem [] v h = refl
put_all_lem (c ∷ cs) {s} v h =
    ap (λ r. r >>= λ t. put_all t cs) (put_byte_lem v c (omega arith))
    ∙ put_all_lem cs (appended_byte-IsValid v c (omega arith)) (omega arith)

-- The shape that the put functions share: the guard for the bytes, then the bytes.
abbrev guarded_put : Stream → List ℕ → Run (ℕ × Stream)
guarded_put s cs =
    verify_sane s
    >> (bound_warn_if (ltb (writeable s) (length cs)) >> (put_all s cs >>= λ t. ok (length cs, t)))

guarded_put_lem :
    (cs : List ℕ) {s : Stream}
    → IsValid s
    → s.endp + length cs ≤ s.size
    → guarded_put s cs ≡ ok (length cs, appended s cs)
guarded_put_lem cs {s} v h = rw (
  verify_sane_ok v,
  le→ltb (writeable s) (length cs) (omega (arith, writeable_lem v)),
  put_all_lem cs v h,
)

guarded_put_full :
    (cs : List ℕ) {s : Stream}
    → IsValid s
    → s.size < s.endp + length cs
    → guarded_put s cs ≡ fault assert_failed
guarded_put_full cs {s} v h =
    rw (verify_sane_ok v, lt→ltb (writeable s) (length cs) (omega (arith, writeable_lem v)))

putc-guarded : (s : Stream) (c : ℕ) → stream_putc s c ≡ guarded_put s (c ∷ [])
unfolding stream_putc put_all
putc-guarded s c = simp bind_assoc

putw-guarded :
    (s : Stream) (w : ℕ) → stream_putw s w ≡ guarded_put s (byte_at w 8 ∷ byte_at w 0 ∷ [])
unfolding stream_putw put_all
putw-guarded s w = simp bind_assoc

putl-guarded :
    (s : Stream) (l : ℕ)
    → stream_putl s l ≡ guarded_put s (byte_at l 24 ∷ byte_at l 16 ∷ byte_at l 8 ∷ byte_at l 0 ∷ [])
unfolding stream_putl put_all
putl-guarded s l = simp bind_assoc

putq-guarded :
    (s : Stream) (q : ℕ)
    → stream_putq s q
      ≡ guarded_put s (
          byte_at q 56
          ∷ byte_at q 48
          ∷ byte_at q 40
          ∷ byte_at q 32
          ∷ byte_at q 24
          ∷ byte_at q 16
          ∷ byte_at q 8
          ∷ byte_at q 0
          ∷ [])
unfolding stream_putq put_all
putq-guarded s q = simp bind_assoc

-- What a put function of guard and bytes `cs` does.
pub record Puts (s : Stream) (cs : List ℕ) (r : Run (ℕ × Stream)) : Type 0 where
  pub with_room :
      s.endp + length cs ≤ s.size → (t : Stream) × (r ≡ ok (length cs, t)) × Appends s cs t
  pub without : s.size < s.endp + length cs → r ≡ fault assert_failed

guarded-Puts :
    {s : Stream} (cs : List ℕ) {r : Run (ℕ × Stream)}
    → IsValid s
    → r ≡ guarded_put s cs
    → Puts s cs r
guarded-Puts {s} cs v e = record {
  with_room = λ h. (appended s cs, e ∙ guarded_put_lem cs v h, appended-Appends cs v h);
  without = λ h. e ∙ guarded_put_full cs v h;
}

module _ {s : Stream} (v : IsValid s) where
  pub putc-Puts : (c : ℕ) → Puts s (c ∷ []) (stream_putc s c)
  putc-Puts c = guarded-Puts (c ∷ []) v (putc-guarded s c)

  pub putw-Puts : (w : ℕ) → Puts s (big_endian 2 w) (stream_putw s w)
  putw-Puts w =
      subst (λ cs. Puts s cs (stream_putw s w)) (bytes_two w) (guarded-Puts _ v (putw-guarded s w))

  pub putl-Puts : (l : ℕ) → Puts s (big_endian 4 l) (stream_putl s l)
  putl-Puts l =
      subst (λ cs. Puts s cs (stream_putl s l)) (bytes_four l) (guarded-Puts _ v (putl-guarded s l))

  pub putq-Puts : (q : ℕ) → Puts s (big_endian 8 q) (stream_putq s q)
  putq-Puts q =
      subst (λ cs. Puts s cs (stream_putq s q)) (bytes_eight q)
        (guarded-Puts _ v (putq-guarded s q))

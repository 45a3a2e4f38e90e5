-- ===== src/Stream/Take.antt =====
-- Reading: each get function takes bytes off the front of the contents of a stream.
use poplar.Prelude.{
  ℕ, suc, ◌+◌, ◌-◌, ◌*◌, ◌^◌, false, ◌≤◌, ◌≡◌, refl, ap, ap₂, sym, ◌∙◌, List, ◌∷◌, arith, length,
  slice, get_or, take, drop, ltb, le→ltb,
}
use poplar.Prelude.Lists.{slice-suc, length-slice, take-slice, drop-slice}
use poplar.Run.{ok, copy_from}
use poplar.Stream.Buffer.{Stream, readable, get_byte}
use poplar.Stream.Get.{
  long_of, quad_of, or_byte, stream_get, stream_getc, stream_getw, stream_getl, stream_getq,
}
use poplar.Stream.Valid.{
  IsValid, verify_sane_ok, readable_lem, contents, advanced, advanced-IsValid, get_byte_lem,
}

pub length-contents : {s : Stream} → IsValid s → length (contents s) ≡ s.endp - s.getp
length-contents {s} v = length-slice s.bytes s.getp (s.endp - s.getp) (omega arith)

-- One byte taken: `s` reads `c` and goes on as `t`.
record Takes (s : Stream) (c : ℕ) (cs : List ℕ) (t : Stream) : Type 0 where
  runs : get_byte s ≡ ok (c, t)
  valid : IsValid t
  rest : contents t ≡ cs

take_byte :
    {s : Stream} (c : ℕ) (cs : List ℕ)
    → IsValid s
    → contents s ≡ c ∷ cs
    → Takes s c cs (advanced s 1)
take_byte {s} c cs v h =
    let n : s.endp - s.getp ≡ suc (length cs) = sym (length-contents v) ∙ ap length h in
    let e : contents s ≡ get_or s.bytes s.getp 0 ∷ slice s.bytes (suc s.getp) (length cs) =
      ap (slice s.bytes s.getp) n ∙ slice-suc s.bytes s.getp (length cs) 0 (omega arith) in
    record {
      runs = get_byte_lem v (omega arith) ∙ ap (λ (k : ℕ). ok (k, advanced s 1)) (cc (e, h));
      valid = advanced-IsValid v 1 (omega arith);
      rest =
          let p : s.getp + 1 ≡ suc s.getp = omega arith in
          let q : s.endp - (s.getp + 1) ≡ length cs = omega arith in
          ap₂ (slice s.bytes) p q ∙ (cc (e, h));
    }

-- `s`, which holds `cs` and then `rest`, without `cs`.
pub record Drops (s : Stream) (n : ℕ) (rest : List ℕ) (t : Stream) : Type 0 where
  pub valid : IsValid t
  pub reads : contents t ≡ rest
  pub same : t.bytes ≡ s.bytes
  pub getp : t.getp ≡ s.getp + n
  pub endp : t.endp ≡ s.endp

enough :
    {s : Stream} (n : ℕ) (xs : List ℕ)
    → IsValid s
    → contents s ≡ xs
    → n ≤ length xs
    → ltb (readable s) n ≡ false
enough {s} n xs v h le =
    le→ltb (readable s) n (omega (arith, readable_lem v, length-contents v, ap length h))

module _ {s : Stream} (v : IsValid s) (rest : List ℕ) where
  pub getc_takes :
      (c : ℕ)
      → contents s ≡ c ∷ rest
      → (t : Stream) × (stream_getc s ≡ ok (c, t)) × Drops s 1 rest t
  unfolding stream_getc
  getc_takes c h =
      let a = take_byte c rest v h in
      (
        advanced s 1,
        rw (verify_sane_ok v, enough 1 (c ∷ rest) v h (omega arith)) a.runs,
        record { valid = a.valid; reads = a.rest; same = refl; getp = refl; endp = refl },
      )

  pub getw_takes :
      (b0 b1 : ℕ)
      → contents s ≡ b0 ∷ b1 ∷ rest
      → (t : Stream) × (stream_getw s ≡ ok (or_byte (b0 * 2 ^ 8) b1 0, t)) × Drops s 2 rest t
  unfolding stream_getw
  getw_takes b0 b1 h =
      let a0 = take_byte b0 (b1 ∷ rest) v h in
      let a1 = take_byte b1 rest a0.valid a0.rest in
      (
        advanced (advanced s 1) 1,
        rw (verify_sane_ok v, enough 2 (b0 ∷ b1 ∷ rest) v h (omega arith), a0.runs, a1.runs),
        record { valid = a1.valid; reads = a1.rest; same = refl; getp = omega arith; endp = refl },
      )

  pub getl_takes :
      (b0 b1 b2 b3 : ℕ)
      → contents s ≡ b0 ∷ b1 ∷ b2 ∷ b3 ∷ rest
      → (t : Stream) × (stream_getl s ≡ ok (long_of b0 b1 b2 b3, t)) × Drops s 4 rest t
  unfolding stream_getl
  getl_takes b0 b1 b2 b3 h =
      let a0 = take_byte b0 (b1 ∷ b2 ∷ b3 ∷ rest) v h in
      let a1 = take_byte b1 (b2 ∷ b3 ∷ rest) a0.valid a0.rest in
      let a2 = take_byte b2 (b3 ∷ rest) a1.valid a1.rest in
      let a3 = take_byte b3 rest a2.valid a2.rest in
      (
        advanced (advanced (advanced (advanced s 1) 1) 1) 1,
        rw (
          verify_sane_ok v,
          enough 4 (b0 ∷ b1 ∷ b2 ∷ b3 ∷ rest) v h (omega arith),
          a0.runs,
          a1.runs,
          a2.runs,
          a3.runs,
        ),
        record { valid = a3.valid; reads = a3.rest; same = refl; getp = omega arith; endp = refl },
      )

  pub getq_takes :
      (b0 b1 b2 b3 b4 b5 b6 b7 : ℕ)
      → contents s ≡ b0 ∷ b1 ∷ b2 ∷ b3 ∷ b4 ∷ b5 ∷ b6 ∷ b7 ∷ rest
      → (t : Stream) × (stream_getq s ≡ ok (quad_of b0 b1 b2 b3 b4 b5 b6 b7, t)) × Drops s 8 rest t
  unfolding stream_getq
  getq_takes b0 b1 b2 b3 b4 b5 b6 b7 h =
      let a0 = take_byte b0 (b1 ∷ b2 ∷ b3 ∷ b4 ∷ b5 ∷ b6 ∷ b7 ∷ rest) v h in
      let a1 = take_byte b1 (b2 ∷ b3 ∷ b4 ∷ b5 ∷ b6 ∷ b7 ∷ rest) a0.valid a0.rest in
      let a2 = take_byte b2 (b3 ∷ b4 ∷ b5 ∷ b6 ∷ b7 ∷ rest) a1.valid a1.rest in
      let a3 = take_byte b3 (b4 ∷ b5 ∷ b6 ∷ b7 ∷ rest) a2.valid a2.rest in
      let a4 = take_byte b4 (b5 ∷ b6 ∷ b7 ∷ rest) a3.valid a3.rest in
      let a5 = take_byte b5 (b6 ∷ b7 ∷ rest) a4.valid a4.rest in
      let a6 = take_byte b6 (b7 ∷ rest) a5.valid a5.rest in
      let a7 = take_byte b7 rest a6.valid a6.rest in
      (
        advanced
            (advanced
              (advanced (advanced (advanced (advanced (advanced (advanced s 1) 1) 1) 1) 1) 1) 1)
            1,
        rw (
          verify_sane_ok v,
          enough 8 (b0 ∷ b1 ∷ b2 ∷ b3 ∷ b4 ∷ b5 ∷ b6 ∷ b7 ∷ rest) v h (omega arith),
          a0.runs,
          a1.runs,
          a2.runs,
          a3.runs,
          a4.runs,
          a5.runs,
          a6.runs,
          a7.runs,
        ),
        record { valid = a7.valid; reads = a7.rest; same = refl; getp = omega arith; endp = refl },
      )

-- A block of `n` bytes is the front of the contents, and what is left is the rest.
pub get_takes :
    {s : Stream} (n : ℕ)
    → IsValid s
    → n ≤ s.endp - s.getp
    → (t : Stream) × (stream_get s n ≡ ok (take n (contents s), t))
      × Drops s n (drop n (contents s)) t
unfolding stream_get copy_from
get_takes {s} n v h =
    let e = take-slice s.bytes s.getp n (s.endp - s.getp) h in
    let f = drop-slice s.bytes s.getp n (s.endp - s.getp) in
    (
      advanced s n,
      rw (e, verify_sane_ok v, le→ltb (readable s) n (omega (arith, readable_lem v)))
          (ground arith),
      record {
        valid = advanced-IsValid v n (omega arith);
        reads = ap (slice s.bytes (s.getp + n)) (omega arith) ∙ sym f;
        same = refl;
        getp = refl;
        endp = refl;
      },
    )

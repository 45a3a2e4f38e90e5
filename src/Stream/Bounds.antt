-- ===== src/Stream/Bounds.antt =====
-- The marks, the get functions and the writes in place: valid streams stay valid, and no access
-- leaves the data.
use poplar.Prelude.{
  ℕ, ◌+◌, ◌^◌, ◌-◌, ◌<◌, List, Option, none, some, arith, length, take, lt→ltb, le→ltb,
}
use poplar.Prelude.Lists.{length-set, length-splice, length-take}
use poplar.Run.{Run, store, memcpy, copy_from}
use poplar.Stream.Buffer.{
  Stream, readable, stream_copy, stream_resize, stream_set_getp, stream_forward_getp,
  stream_forward_endp, stream_reset,
}
use poplar.Stream.Get.{
  stream_get, stream_getc, stream_getw, stream_getl, stream_getq, stream_get_ipv4,
}
use poplar.Stream.Put.{stream_putc_at, stream_putw_at, stream_putl_at, stream_putq_at}
use poplar.Stream.Valid.{IsValid, verify_sane_ok, readable_lem, get_byte_lem, advanced-IsValid}
use poplar.Stream.Append.{Puts}
use poplar.Stream.Ops.{Op, after, Allowed, IsSafe}
use native.Mathlib.Decide.{dec_lt}

module _ {s : Stream} (v : IsValid s) where
  pub copy-IsSafe : (src : Stream) → IsValid src → IsSafe (stream_copy s src)
  unfolding stream_copy memcpy
  copy-IsSafe src w =
      ground
        (arith, length-splice s.bytes 0 (take src.endp src.bytes), length-take src.endp src.bytes)

  pub resize-IsSafe :
      (n : ℕ) (block : Option (List ℕ))
      → Allowed s (Op.resize n block)
      → IsSafe (after (stream_resize s n block))
  unfolding stream_resize
  resize-IsSafe n none h = ground arith
  resize-IsSafe n (some block) h = ground arith

  pub set_getp-IsSafe : (pos : ℕ) → IsSafe (stream_set_getp s pos)
  unfolding stream_set_getp
  set_getp-IsSafe pos = ground arith

  pub forward_getp-IsSafe : (n : ℕ) → IsSafe (stream_forward_getp s n)
  unfolding stream_forward_getp
  forward_getp-IsSafe n = ground arith

  pub forward_endp-IsSafe : (n : ℕ) → s.endp + n < 2 ^ 64 → IsSafe (stream_forward_endp s n)
  unfolding stream_forward_endp
  forward_endp-IsSafe n h = ground arith

  pub reset-IsSafe : IsSafe (stream_reset s)
  unfolding stream_reset
  reset-IsSafe = ground arith

  pub get-IsSafe : (n : ℕ) → IsSafe (after (stream_get s n))
  unfolding stream_get copy_from
  get-IsSafe n = ground (arith, readable_lem v)

  pub get_ipv4-IsSafe : IsSafe (after (stream_get_ipv4 s))
  unfolding stream_get_ipv4 copy_from
  get_ipv4-IsSafe = ground (arith, readable_lem v)

  pub getc-IsSafe : IsSafe (after (stream_getc s))
  unfolding stream_getc
  getc-IsSafe = ground (arith, readable_lem v, get_byte_lem v)

  pub getw-IsSafe : IsSafe (after (stream_getw s))
  unfolding stream_getw
  getw-IsSafe = elim (dec_lt (s.endp - s.getp) 2) [
    | yes few ↦ rw (verify_sane_ok v, lt→ltb (readable s) 2 (omega (arith, readable_lem v))) tt
    | no enough ↦
        let v1 = advanced-IsValid v 1 (omega arith) in
        rw
          (
            verify_sane_ok v,
            le→ltb (readable s) 2 (omega (arith, readable_lem v)),
            get_byte_lem v (omega arith),
            get_byte_lem v1 (omega arith),
          )
          (advanced-IsValid v1 1 (omega arith))
  ]

  pub getl-IsSafe : IsSafe (after (stream_getl s))
  unfolding stream_getl
  getl-IsSafe = elim (dec_lt (s.endp - s.getp) 4) [
    | yes few ↦ rw (verify_sane_ok v, lt→ltb (readable s) 4 (omega (arith, readable_lem v))) tt
    | no enough ↦
        let v1 = advanced-IsValid v 1 (omega arith) in
        let v2 = advanced-IsValid v1 1 (omega arith) in
        let v3 = advanced-IsValid v2 1 (omega arith) in
        rw
          (
            verify_sane_ok v,
            le→ltb (readable s) 4 (omega (arith, readable_lem v)),
            get_byte_lem v (omega arith),
            get_byte_lem v1 (omega arith),
            get_byte_lem v2 (omega arith),
            get_byte_lem v3 (omega arith),
          )
          (advanced-IsValid v3 1 (omega arith))
  ]

  pub getq-IsSafe : IsSafe (after (stream_getq s))
  unfolding stream_getq
  getq-IsSafe = elim (dec_lt (s.endp - s.getp) 8) [
    | yes few ↦ rw (verify_sane_ok v, lt→ltb (readable s) 8 (omega (arith, readable_lem v))) tt
    | no enough ↦
        let v1 = advanced-IsValid v 1 (omega arith) in
        let v2 = advanced-IsValid v1 1 (omega arith) in
        let v3 = advanced-IsValid v2 1 (omega arith) in
        let v4 = advanced-IsValid v3 1 (omega arith) in
        let v5 = advanced-IsValid v4 1 (omega arith) in
        let v6 = advanced-IsValid v5 1 (omega arith) in
        let v7 = advanced-IsValid v6 1 (omega arith) in
        rw
          (
            verify_sane_ok v,
            le→ltb (readable s) 8 (omega (arith, readable_lem v)),
            get_byte_lem v (omega arith),
            get_byte_lem v1 (omega arith),
            get_byte_lem v2 (omega arith),
            get_byte_lem v3 (omega arith),
            get_byte_lem v4 (omega arith),
            get_byte_lem v5 (omega arith),
            get_byte_lem v6 (omega arith),
            get_byte_lem v7 (omega arith),
          )
          (advanced-IsValid v7 1 (omega arith))
  ]

  -- A call that appends bytes.
  pub Puts-IsSafe : (cs : List ℕ) (r : Run (ℕ × Stream)) → Puts s cs r → IsSafe (after r)
  Puts-IsSafe cs r p = elim (dec_lt s.size (s.endp + length cs)) [
    | yes full ↦ rw (p.without full) tt
    | no room ↦ let (t, run, a) = p.with_room (omega arith) in rw run a.valid
  ]

  pub putc_at-IsSafe : (p c : ℕ) → p + 1 < 2 ^ 64 → IsSafe (after (stream_putc_at s p c))
  unfolding stream_putc_at store
  putc_at-IsSafe p c h = ground (arith, length-set s.bytes p c)

  pub putw_at-IsSafe : (p w : ℕ) → p + 2 < 2 ^ 64 → IsSafe (after (stream_putw_at s p w))
  unfolding stream_putw_at store
  putw_at-IsSafe p w h = grind (arith, length-set)

  pub putl_at-IsSafe : (p l : ℕ) → p + 4 < 2 ^ 64 → IsSafe (after (stream_putl_at s p l))
  unfolding stream_putl_at store
  putl_at-IsSafe p l h = grind (arith, length-set)

  pub putq_at-IsSafe : (p q : ℕ) → p + 8 < 2 ^ 64 → IsSafe (after (stream_putq_at s p q))
  unfolding stream_putq_at store
  putq_at-IsSafe p q h = grind (arith, length-set)

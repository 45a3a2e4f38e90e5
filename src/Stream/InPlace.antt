-- ===== src/Stream/InPlace.antt =====
-- Writes in place: the put functions at an offset replace exactly the bytes of the word, and the get
-- functions at that offset read the word back.
use poplar.Prelude.{
  ℕ, zero, suc, ◌+◌, ◌^◌, ◌≤◌, ◌<◌, ◌≡◌, ◌⊎◌, refl, ap, sym, subst, ◌∙◌, List, [], ◌∷◌, arith,
  length, get_or, set,
}
use poplar.Prelude.Lists.{length-set, get_or-set_self, get_or-set_ne}
use poplar.Run.{ok, fault, assert_failed, load, store}
use poplar.Stream.Buffer.{Stream}
use poplar.Stream.Get.{stream_getc_from, stream_getw_from, stream_getl_from, stream_getq_from}
use poplar.Stream.Put.{stream_putc_at, stream_putw_at, stream_putl_at, stream_putq_at}
use poplar.Stream.Valid.{IsValid}
use poplar.Stream.Words.{
  big_endian, bytes_two, bytes_four, bytes_eight, word_roundtrip, long_roundtrip, quad_roundtrip,
}
use poplar.Stream.Items.{Item, byte, word, long, quad, kind, Fits, encoding}
use poplar.Stream.Offsets.{width, value, get_from, put_at, load_in}

-- The cells `p + k`, `p + k + 1` and so on replaced by `cs`.
stored : List ℕ → ℕ → ℕ → List ℕ → List ℕ
stored xs p k [] = xs
stored xs p k (c ∷ cs) = stored (set xs (p + k) c) p (suc k) cs

length-stored : (xs : List ℕ) (p k : ℕ) (cs : List ℕ) → length (stored xs p k cs) ≡ length xs
unfolding stored
length-stored xs p k [] = refl
length-stored xs p k (c ∷ cs) =
    length-stored (set xs (p + k) c) p (suc k) cs ∙ length-set xs (p + k) c

stored_outside :
    (xs : List ℕ) (p k : ℕ) (cs : List ℕ) (i : ℕ)
    → (i < p + k) ⊎ (p + k + length cs ≤ i)
    → get_or (stored xs p k cs) i 0 ≡ get_or xs i 0
unfolding stored
stored_outside xs p k [] i h = refl
stored_outside xs p k (c ∷ cs) i h =
    stored_outside (set xs (p + k) c) p (suc k) cs i (omega arith)
    ∙ get_or-set_ne xs (p + k) i c 0 (omega arith)

stored_inside :
    (xs : List ℕ) (p k : ℕ) (cs : List ℕ) (j i : ℕ)
    → p + k + length cs ≤ length xs
    → j < length cs
    → i ≡ p + k + j
    → get_or (stored xs p k cs) i 0 ≡ get_or cs j 0
unfolding stored
stored_inside xs p k [] j i h lt e = absurd (omega arith)
stored_inside xs p k (c ∷ cs) zero i h lt e =
    stored_outside (set xs (p + k) c) p (suc k) cs i (omega arith)
    ∙ ap (λ (t : ℕ). get_or (set xs (p + k) c) t 0) at_end
    ∙ get_or-set_self xs (p + k) c 0 (omega arith)
  where
    at_end : i ≡ p + k
    at_end = omega arith
stored_inside xs p k (c ∷ cs) (suc j) i h lt e =
    stored_inside (set xs (p + k) c) p (suc k) cs j i (omega (arith, length-set xs (p + k) c))
      (omega arith) (omega arith)

-- `t` is `s` with the cells from `p` on replaced by `cs`.
pub record Replaces (s : Stream) (p : ℕ) (cs : List ℕ) (t : Stream) : Type 0 where
  pub valid : IsValid t
  pub inside : (j : ℕ) → j < length cs → get_or t.bytes (p + j) 0 ≡ get_or cs j 0
  pub outside : (i : ℕ) → (i < p) ⊎ (p + length cs ≤ i) → get_or t.bytes i 0 ≡ get_or s.bytes i 0
  pub getp : t.getp ≡ s.getp
  pub endp : t.endp ≡ s.endp
  pub size : t.size ≡ s.size

replaced : Stream → ℕ → List ℕ → Stream
replaced s p cs = record s { bytes = stored s.bytes p 0 cs }

replaced-Replaces :
    {s : Stream} (p : ℕ) (cs : List ℕ)
    → IsValid s
    → p + length cs ≤ s.endp
    → Replaces s p cs (replaced s p cs)
unfolding replaced
replaced-Replaces {s} p cs v h = record {
  valid = omega (arith, length-stored s.bytes p 0 cs);
  inside = λ j lt. stored_inside s.bytes p 0 cs j (p + j) (omega arith) lt (omega arith);
  outside = λ i out. stored_outside s.bytes p 0 cs i (omega arith);
  getp = refl;
  endp = refl;
  size = refl;
}

module _ {s : Stream} (p : ℕ) (v : IsValid s) where
  putc_at_lem : (c : ℕ) → p + 1 ≤ s.endp → stream_putc_at s p c ≡ ok (1, replaced s p (c ∷ []))
  unfolding stream_putc_at store replaced stored
  putc_at_lem c h = grind (arith, length-set)

  putw_at_lem :
      (w : ℕ) → p + 2 ≤ s.endp → stream_putw_at s p w ≡ ok (2, replaced s p (big_endian 2 w))
  unfolding stream_putw_at store replaced stored
  putw_at_lem w h = rw (← bytes_two w) (grind (arith, length-set))

  putl_at_lem :
      (l : ℕ) → p + 4 ≤ s.endp → stream_putl_at s p l ≡ ok (4, replaced s p (big_endian 4 l))
  unfolding stream_putl_at store replaced stored
  putl_at_lem l h = rw (← bytes_four l) (grind (arith, length-set))

  putq_at_lem :
      (q : ℕ) → p + 8 ≤ s.endp → stream_putq_at s p q ≡ ok (8, replaced s p (big_endian 8 q))
  unfolding stream_putq_at store replaced stored
  putq_at_lem q h = rw (← bytes_eight q) (grind (arith, length-set))

-- The byte of a replaced stream, loaded.
load_replaced :
    {s t : Stream} (p j : ℕ) (cs : List ℕ)
    → Replaces s p cs t
    → p + length cs ≤ s.endp
    → j < length cs
    → load t.bytes (p + j) ≡ ok (get_or cs j 0)
load_replaced {s} {t} p j cs r h lt =
    load_in t.bytes (p + j) (omega (arith, r.valid.backed, r.valid.endp_le, r.endp))
    ∙ ap ok (r.inside j lt)

module _ {s t : Stream} (p : ℕ) (small : s.endp < 2 ^ 31) where
  getc_at : (c : ℕ) → p + 1 ≤ s.endp → Replaces s p (c ∷ []) t → stream_getc_from t p ≡ ok c
  unfolding stream_getc_from
  getc_at c h r =
      let l0 = load_replaced p 0 _ r h (omega arith) in ground (arith, r.valid, r.endp, l0)

  getw_at :
      (w : ℕ)
      → w < 2 ^ 16
      → p + 2 ≤ s.endp
      → Replaces s p (big_endian 2 w) t
      → stream_getw_from t p ≡ ok w
  unfolding stream_getw_from
  getw_at w fit h r =
      let r' = subst (λ cs. Replaces s p cs t) (sym (bytes_two w)) r in
      let l0 = load_replaced p 0 _ r' h (omega arith) in
      let l1 = load_replaced p 1 _ r' h (omega arith) in
      ground (arith, r.valid, r.endp, l0, l1, word_roundtrip w fit)

  getl_at :
      (l : ℕ)
      → l < 2 ^ 32
      → p + 4 ≤ s.endp
      → Replaces s p (big_endian 4 l) t
      → stream_getl_from t p ≡ ok l
  unfolding stream_getl_from
  getl_at l fit h r =
      let r' = subst (λ cs. Replaces s p cs t) (sym (bytes_four l)) r in
      let l0 = load_replaced p 0 _ r' h (omega arith) in
      let l1 = load_replaced p 1 _ r' h (omega arith) in
      let l2 = load_replaced p 2 _ r' h (omega arith) in
      let l3 = load_replaced p 3 _ r' h (omega arith) in
      ground (arith, r.valid, r.endp, l0, l1, l2, l3, long_roundtrip l fit)

  getq_at :
      (q : ℕ)
      → q < 2 ^ 64
      → p + 8 ≤ s.endp
      → Replaces s p (big_endian 8 q) t
      → stream_getq_from t p ≡ ok q
  unfolding stream_getq_from
  getq_at q fit h r =
      let r' = subst (λ cs. Replaces s p cs t) (sym (bytes_eight q)) r in
      let l0 = load_replaced p 0 _ r' h (omega arith) in
      let l1 = load_replaced p 1 _ r' h (omega arith) in
      let l2 = load_replaced p 2 _ r' h (omega arith) in
      let l3 = load_replaced p 3 _ r' h (omega arith) in
      let l4 = load_replaced p 4 _ r' h (omega arith) in
      let l5 = load_replaced p 5 _ r' h (omega arith) in
      let l6 = load_replaced p 6 _ r' h (omega arith) in
      let l7 = load_replaced p 7 _ r' h (omega arith) in
      ground (arith, r.valid, r.endp, l0, l1, l2, l3, l4, l5, l6, l7, quad_roundtrip q fit)

-- On a valid stream, stream_putc_at, stream_putw_at, stream_putl_at and stream_putq_at at an offset
-- whose word ends by the end mark return the width, replace exactly the bytes of the word by the
-- big-endian bytes of the value, leave every other byte, both marks and the size as they are, and
-- the get function at that offset then returns the value.
pub get_from-put_at :
    {s : Stream} (p : ℕ) (x : Item)
    → IsValid s
    → Fits x
    → p + width (kind x) ≤ s.endp
    → (t : Stream) × (put_at s p x ≡ ok (width (kind x), t))
      × Replaces s p (encoding x) t
      × (get_from t (kind x) p ≡ ok (value x))
unfolding big_endian
get_from-put_at p (byte c) v f h =
    let r = replaced-Replaces p (c ∷ []) v h in
    (_, putc_at_lem p v c h, r, getc_at p (omega arith) c h r)
get_from-put_at p (word w) v f h =
    let r = replaced-Replaces p (big_endian 2 w) v h in
    (_, putw_at_lem p v w h, r, getw_at p (omega arith) w f h r)
get_from-put_at p (long l) v f h =
    let r = replaced-Replaces p (big_endian 4 l) v h in
    (_, putl_at_lem p v l h, r, getl_at p (omega arith) l f h r)
get_from-put_at p (quad q) v f h =
    let r = replaced-Replaces p (big_endian 8 q) v h in
    (_, putq_at_lem p v q h, r, getq_at p (omega arith) q f h r)

-- On a valid stream, where the word would end past the end mark and that end is below 2 ^ 64, the
-- put functions at an offset and the get functions at an offset stop at the assertion.
past_end_refused :
    {s : Stream} (p : ℕ) (x : Item)
    → IsValid s
    → s.endp < p + width (kind x)
    → p + width (kind x) < 2 ^ 64
    → (put_at s p x ≡ fault assert_failed) × (get_from s (kind x) p ≡ fault assert_failed)
unfolding stream_putc_at stream_putw_at stream_putl_at stream_putq_at stream_getc_from
    stream_getw_from stream_getl_from stream_getq_from
past_end_refused p (byte c) v h small = (ground arith, ground arith)
past_end_refused p (word w) v h small = (ground arith, ground arith)
past_end_refused p (long l) v h small = (ground arith, ground arith)
past_end_refused p (quad q) v h small = (ground arith, ground arith)

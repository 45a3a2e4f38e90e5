-- ===== src/Fifo/Queue.antt =====
-- A well-formed queue of streams is a list of distinct streams: push appends, pop takes the first.
use poplar.Prelude.{
  ℕ, ◌+◌, ◌^◌, ◌<◌, ◌≡◌, refl, sym, subst, List, [], ◌∷◌, ◌++◌, Option, none, some, arith, length,
}
use poplar.Prelude.Lists.{length-append}
use poplar.Prelude.Distinct.{
  last, Absent, Distinct, last-ne, last-append, Distinct-append, last_exists,
}
use poplar.Fifo.{Fifo, update, stream_fifo_push, stream_fifo_pop}

-- `xs` is what the pointers run through from `p` on.
abbrev pub Chain : (ℕ → Option ℕ) → Option ℕ → List ℕ → Type 0
Chain next p [] = p ≡ none
Chain next p (x ∷ xs) = (p ≡ some x) × Chain next (next x) xs

pub record Holds (f : Fifo) (xs : List ℕ) : Type 0 where
  pub chain : Chain f.next f.head xs
  pub tail : f.tail ≡ last xs
  pub count : f.count ≡ length xs
  pub distinct : Distinct xs

-- A write to a stream outside the chain is not seen.
Chain-update-Absent :
    (xs : List ℕ) (next : ℕ → Option ℕ) (p v : Option ℕ) (a : ℕ)
    → Absent a xs
    → Chain next p xs
    → Chain (update next a v) p xs
Chain-update-Absent [] next p v a h c = c
Chain-update-Absent (x ∷ xs) next p v a (ne, h) (e, c) =
    let c' = Chain-update-Absent xs next (next x) v a h c in
    (e, subst (λ q. Chain (update next a v) q xs) (ground arith) c')

-- Linking a new stream behind the last one extends the chain by it.
Chain-update-last :
    (xs : List ℕ) (next : ℕ → Option ℕ) (p : Option ℕ) (l s : ℕ)
    → last xs ≡ some l
    → Distinct xs
    → Absent s xs
    → next s ≡ none
    → Chain next p xs
    → Chain (update next l (some s)) p (xs ++ (s ∷ []))
Chain-update-last [] next p l s e d h n c = cc
Chain-update-last (x ∷ []) next p l s e d (ne, h) n (q, c) = (q, (ground arith, ground arith))
Chain-update-last (x ∷ y ∷ xs) next p l s e (a, d) (ne, h) n (q, c) =
    let ih = Chain-update-last (y ∷ xs) next (next x) l s e d h n c in
    let other = last-ne x l (y ∷ xs) a e in
    (q, subst (λ t. Chain (update next l (some s)) t (y ∷ (xs ++ (s ∷ [])))) (ground arith) ih)

-- A stream that is in no queue and links to nothing, pushed on a queue that holds `xs`, is behind
-- them; the count stays exact below 2 ^ 64 streams.
pub push-Holds :
    {f : Fifo} (xs : List ℕ) (s : ℕ)
    → Holds f xs
    → Absent s xs
    → f.next s ≡ none
    → length xs + 1 < 2 ^ 64
    → Holds (stream_fifo_push f s) (xs ++ (s ∷ []))
unfolding stream_fifo_push
push-Holds {f} [] s h a n small =
    rw h.tail (record {
      chain = (refl, n);
      tail = refl;
      count = omega (arith, h.count);
      distinct = (tt, tt);
    })
push-Holds {f} (x ∷ xs) s h a n small =
    let (l, e) = last_exists x xs in
    rw (h.tail, e)
      (record {
        chain = Chain-update-last (x ∷ xs) f.next f.head l s e h.distinct a n h.chain;
        tail = sym (last-append (x ∷ xs) s);
        count = omega (arith, h.count, length-append xs (s ∷ []));
        distinct = Distinct-append (x ∷ xs) s h.distinct a;
      })

-- A pop of a queue that holds a stream returns it and leaves the rest.
pub pop-Holds :
    {f : Fifo} (x : ℕ) (xs : List ℕ)
    → Holds f (x ∷ xs)
    → length xs < 2 ^ 63
    → ((stream_fifo_pop f).0 ≡ some x) × Holds (stream_fifo_pop f).1 xs
unfolding stream_fifo_pop
pop-Holds {f} x [] h small = (
  h.chain.0,
  rw (h.chain.0, h.chain.1)
      (record { chain = refl; tail = refl; count = omega (arith, h.count); distinct = tt }),
)
pop-Holds {f} x (y ∷ xs) h small = (
  h.chain.0,
  rw (h.chain.0, h.chain.1.0)
      (record {
        chain = (refl, h.chain.1.1);
        tail = h.tail;
        count = omega (arith, h.count);
        distinct = h.distinct.1;
      }),
)

-- ===== src/Fifo/Order.antt =====
-- First in, first out: streams pushed one after the other are popped in that order. What
-- stream_fifo_clean frees, and the count of a queue that is popped when empty.
use poplar.Prelude.{
  ℕ, zero, suc, ◌+◌, ◌-◌, ◌^◌, ◌≤◌, ◌<◌, ◌≡◌, refl, sym, ap, ap₂, subst, ◌∙◌, List, [], ◌∷◌, ◌++◌,
  map, Option, none, some, arith, length,
}
use poplar.Prelude.Lists.{length-append}
use mathlib.Core.List.{append_assoc, append-nil}
use poplar.Fifo.{Fifo, stream_fifo_push, stream_fifo_pop, stream_fifo_clean, free_from}
use poplar.Prelude.Distinct.{Absent, Distinct, last-ne, last_exists, Absent-append}
use poplar.Fifo.Queue.{Chain, Holds, push-Holds, pop-Holds}

-- Streams that are in no queue and link to nothing.
abbrev pub Free : (ℕ → Option ℕ) → List ℕ → List ℕ → Type 0
Free next xs [] = Unit
Free next xs (s ∷ ss) = (Absent s xs × (next s ≡ none)) × Free next xs ss

unfoldable pub push_all : Fifo → List ℕ → Fifo
push_all f [] = f
push_all f (s ∷ ss) = push_all (stream_fifo_push f s) ss

unfoldable pub pop_all : ℕ → Fifo → List (Option ℕ)
pop_all zero f = []
pop_all (suc n) f = let (s, g) = stream_fifo_pop f in s ∷ pop_all n g

-- A push writes the link of no stream outside the queue.
next-push :
    {f : Fifo} (xs : List ℕ) (s a : ℕ)
    → Holds f xs
    → Absent a xs
    → (stream_fifo_push f s).next a ≡ f.next a
unfolding stream_fifo_push
next-push {f} [] s a h ab = rw h.tail
next-push {f} (x ∷ xs) s a h ab =
    let (l, e) = last_exists x xs in
    let ne = last-ne a l (x ∷ xs) ab e in rw (h.tail, e) (ground arith)

push-Free :
    {f : Fifo} (xs : List ℕ) (s : ℕ) (ss : List ℕ)
    → Holds f xs
    → Absent s ss
    → Free f.next xs ss
    → Free (stream_fifo_push f s).next (xs ++ (s ∷ [])) ss
push-Free xs s [] h d fr = tt
push-Free xs s (a ∷ ss) h d ((ab, n), fr) = (
  (Absent-append a s xs (λ e. d.0 (sym e)) ab, next-push xs s a h ab ∙ n),
  push-Free xs s ss h d.1 fr,
)

-- Streams pushed in a row stand behind the old ones, in order.
push_all-Holds :
    (ss : List ℕ) {f : Fifo} (xs : List ℕ)
    → Holds f xs
    → Distinct ss
    → Free f.next xs ss
    → length xs + length ss < 2 ^ 63
    → Holds (push_all f ss) (xs ++ ss)
unfolding push_all
push_all-Holds [] {f} xs h d fr small = subst (Holds f) (sym (append-nil xs)) h
push_all-Holds (s ∷ ss) {f} xs h d fr small =
    let h' = push-Holds xs s h fr.0.0 fr.0.1 (omega arith) in
    let rest =
      push_all-Holds ss (xs ++ (s ∷ [])) h' d.1 (push-Free xs s ss h d.0 fr.1)
        (omega (arith, length-append xs (s ∷ []))) in
    subst (Holds (push_all (stream_fifo_push f s) ss)) (append_assoc xs (s ∷ []) ss) rest

pop_all-Holds :
    (xs : List ℕ) {f : Fifo} → Holds f xs → length xs < 2 ^ 63 → pop_all (length xs) f ≡ map some xs
unfolding pop_all
pop_all-Holds [] h small = refl
pop_all-Holds (x ∷ xs) {f} h small =
    let (e, h') = pop-Holds x xs h (omega arith) in
    ap₂ (λ s ss. s ∷ ss) e (pop_all-Holds xs h' (omega arith))

-- Streams pushed in a row on a well-formed queue that holds `xs`, each in no queue and with no
-- successor set, are popped after `xs` in the order of the pushes, none lost and none repeated.
pub pop_all-push_all :
    {f : Fifo} (xs ss : List ℕ)
    → Holds f xs
    → Distinct ss
    → Free f.next xs ss
    → length xs + length ss < 2 ^ 63
    → pop_all (length xs + length ss) (push_all f ss) ≡ map some (xs ++ ss)
pop_all-push_all {f} xs ss h d fr small =
    let n = length-append xs ss in
    ap (λ k. pop_all k (push_all f ss)) (sym n)
    ∙ pop_all-Holds (xs ++ ss) (push_all-Holds ss xs h d fr small) (omega arith)

free_from-Chain :
    (xs : List ℕ) (fuel : ℕ) (next : ℕ → Option ℕ) (p : Option ℕ)
    → Chain next p xs
    → length xs ≤ fuel
    → free_from fuel next p ≡ some xs
unfolding free_from
free_from-Chain [] zero next p c h = rw c
free_from-Chain [] (suc fuel) next p c h = rw c
free_from-Chain (x ∷ xs) zero next p c h = absurd (omega arith)
free_from-Chain (x ∷ xs) (suc fuel) next p c h =
    rw (c.0, free_from-Chain xs fuel next (next x) c.1 (omega arith))

-- With as much fuel as the queue has streams, stream_fifo_clean returns; it frees every stream of
-- the queue, each once and in order, and leaves a well-formed empty queue.
clean-Holds :
    {f : Fifo} (xs : List ℕ) (fuel : ℕ)
    → Holds f xs
    → length xs ≤ fuel
    → (g : Fifo) × (stream_fifo_clean fuel f ≡ some (xs, g)) × Holds g []
unfolding stream_fifo_clean
clean-Holds {f} xs fuel h enough = (
  record f { head = none; tail = none; count = 0 },
  rw (free_from-Chain xs fuel f.next f.head h.chain enough, stream_fifo_clean),
  record { chain = refl; tail = refl; count = refl; distinct = tt },
)

-- A pop of a well-formed empty queue returns NULL and leaves both pointers NULL, and its count, which
-- should stay 0, becomes the largest size_t: the queue is no longer well formed for any list.
pub pop_empty :
    {f : Fifo} (ys : List ℕ)
    → Holds f []
    → ((stream_fifo_pop f).0 ≡ none)
      × ((stream_fifo_pop f).1.head ≡ none)
      × ((stream_fifo_pop f).1.tail ≡ none)
      × ((stream_fifo_pop f).1.count ≡ 2 ^ 64 - 1)
      × ¬ (Holds (stream_fifo_pop f).1 ys)
unfolding stream_fifo_pop
pop_empty {f} ys h =
    (h.chain, rw h.chain h.chain, rw h.chain h.tail, omega (arith, h.count), λ g. no_holds f ys h g)
  where
    no_holds : (f : Fifo) (ys : List ℕ) → Holds f [] → Holds (stream_fifo_pop f).1 ys → ⊥
    no_holds f [] h g = omega (arith, h.count, g.count)
    no_holds f (y ∷ ys) h g =
        let e : (stream_fifo_pop f).1.head ≡ none = rw h.chain h.chain in let e' = g.chain.0 in cc

-- ===== src/Fifo.antt =====
-- apps/pop_stream.c: the queue of streams. Streams are addresses; the field `next` of all of them
-- is one function, since a push writes it in the stream that was last.
pub mod Queue
pub mod Order
mod Tests
use poplar.Prelude.{
  ℕ, zero, suc, ◌+◌, ◌-◌, ◌%◌, ◌^◌, List, [], ◌∷◌, Option, none, some, ◌==◌, if◌then◌else◌,
}

pub record Fifo : Type 0 where
  pub next : ℕ → Option ℕ
  pub count : ℕ
  pub head : Option ℕ
  pub tail : Option ℕ

-- `p->next = v`
abbrev pub update : (ℕ → Option ℕ) → ℕ → Option ℕ → ℕ → Option ℕ
update f p v q = if q == p then v else f q

-- The heap of streams is as it was.
unfoldable pub stream_fifo_new : (ℕ → Option ℕ) → Fifo
stream_fifo_new heap = record { next = heap; count = 0; head = none; tail = none }

unfoldable pub stream_fifo_push : Fifo → ℕ → Fifo
stream_fifo_push fifo s =
    let linked : Fifo = elim fifo.tail [
      | some t ↦ record fifo { next = update fifo.next t (some s) }
      | none ↦ record fifo { head = some s }
    ] in
    record linked { tail = some s; count = (fifo.count + 1) % 2 ^ 64 }

-- count-- stands outside the test.
unfoldable pub stream_fifo_pop : Fifo → Option ℕ × Fifo
stream_fifo_pop fifo =
    let unlinked : Fifo = elim fifo.head [
      | some s ↦ record fifo {
        head = fifo.next s;
        tail = elim (fifo.next s) [ none ↦ none | some n ↦ fifo.tail ];
      }
      | none ↦ fifo
    ] in
    (fifo.head, record unlinked { count = (fifo.count + 2 ^ 64 - 1) % 2 ^ 64 })

unfoldable pub stream_fifo_head : Fifo → Option ℕ
stream_fifo_head fifo = fifo.head

-- The loop of stream_fifo_clean, on fuel: the streams freed, in order. `none` is no fuel left.
unfoldable pub free_from : ℕ → (ℕ → Option ℕ) → Option ℕ → Option (List ℕ)
free_from fuel next none = some []
free_from zero next (some s) = none
free_from (suc fuel) next (some s) =
    let rest = free_from fuel next (next s) in
    elim rest [ none ↦ none | some freed ↦ some (s ∷ freed) ]

unfoldable pub stream_fifo_clean : ℕ → Fifo → Option (List ℕ × Fifo)
unfolding free_from
stream_fifo_clean fuel fifo = elim (free_from fuel fifo.next fifo.head) [
  | none ↦ none
  | some freed ↦ some (freed, record fifo { head = none; tail = none; count = 0 })
]

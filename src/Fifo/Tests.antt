-- ===== src/Fifo/Tests.antt =====
-- A queue of streams at addresses 1 and 2, and a third stream at 3.
use poplar.Prelude.{◌-◌, ◌^◌, ◌≡◌, refl, [], ◌∷◌, map, none, some, arith, ◌==◌, if◌then◌else◌}
use poplar.Fifo.{Fifo, stream_fifo_pop}
use poplar.Fifo.Queue.{Holds}
use poplar.Fifo.Order.{push_all, pop_all, pop_all-push_all, pop_empty}

abbrev two : Fifo
two = record {
  next = λ p. if p == 1 then some 2 else none;
  count = 2;
  head = some 1;
  tail = some 2;
}

abbrev nothing : Fifo
nothing = record { next = λ p. none; count = 0; head = none; tail = none }

two-Holds : Holds two (1 ∷ 2 ∷ [])
two-Holds = record {
  chain = (refl, (refl, refl));
  tail = refl;
  count = refl;
  distinct = ((omega arith, tt), (tt, tt));
}

nothing-Holds : Holds nothing []
nothing-Holds = record { chain = refl; tail = refl; count = refl; distinct = tt }

pop_all-push_all_example : pop_all 4 (push_all two (3 ∷ 4 ∷ [])) ≡ map some (1 ∷ 2 ∷ 3 ∷ 4 ∷ [])
pop_all-push_all_example =
    pop_all-push_all (1 ∷ 2 ∷ []) (3 ∷ 4 ∷ []) two-Holds ((omega arith, tt), (tt, tt))
      (((omega arith, (omega arith, tt)), refl), (((omega arith, (omega arith, tt)), refl), tt))
      (omega arith)

pop_empty_example :
    ((stream_fifo_pop nothing).0 ≡ none)
    × ((stream_fifo_pop nothing).1.head ≡ none)
    × ((stream_fifo_pop nothing).1.tail ≡ none)
    × ((stream_fifo_pop nothing).1.count ≡ 2 ^ 64 - 1)
    × ¬ (Holds (stream_fifo_pop nothing).1 [])
pop_empty_example = pop_empty [] nothing-Holds

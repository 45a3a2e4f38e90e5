-- ===== src/LinkedList/Tests.antt =====
-- A list on the nodes 1 and 2, with the values 10 and 20.
use poplar.Prelude.{
  ℕ, ◌≡◌, refl, true, false, [], ◌∷◌, List, map, Option, none, some, arith, ltb, ◌==◌,
  if◌then◌else◌,
}
use poplar.Prelude.Int.{ℤ, pos, negsuc}
use poplar.Run.{ok, Returns, Completes}
use poplar.Links.{Holds, Ends}
use poplar.Links.Walk.{Sorted}
use poplar.LinkedList.{
  State, links, ends, listnode_add_sort, listnode_delete, listnode_head, listnode_tail,
  listnode_lookup, list_new,
}
use poplar.LinkedList.Added.{Stores}
use poplar.LinkedList.Sorting.{less, sort-Stores}
use poplar.LinkedList.Removed.{delete-Stores}

abbrev order : Option ℕ → Option ℕ → ℤ
order (some a) (some b) = if ltb a b then negsuc 0 else if a == b then pos 0 else pos 1
order _ _ = pos 0

order-asym : (v w : Option ℕ) → less order v w ≡ true → less order w v ≡ false
order-asym none w h = ground arith
order-asym (some a) none h = ground arith
order-asym (some a) (some b) h = ground arith

abbrev two : State
two = record {
  next = λ p. if p == 1 then some 2 else none;
  prev = λ p. if p == 2 then some 1 else none;
  value = λ p. if p == 1 then some 10 else if p == 2 then some 20 else none;
  head = some 1;
  tail = some 2;
  count = 2;
  cmp = some order;
  del = true;
  freed = [];
  deleted = [];
}

two-Holds : Holds (links two) (ends two) (1 ∷ 2 ∷ [])
two-Holds = record {
  linked = (refl, refl, (refl, refl, (refl, refl)));
  distinct = ((omega arith, tt), (tt, tt));
  count = refl;
}

sort-Stores_example : Completes (listnode_add_sort 2 two 3 (some 15)) (λ r. Returns r (λ t.
    (ys : List ℕ) × Stores ys (some 10 ∷ some 15 ∷ some 20 ∷ []) t
    × Sorted (less order) (map t.value ys)))
sort-Stores_example =
    sort-Stores two order (1 ∷ 2 ∷ []) 2 3 15 refl order-asym two-Holds (refl, tt)
      (omega arith, (omega arith, tt)) (omega arith) (omega arith)

delete-Stores_example :
    Completes (listnode_delete 2 two (some 10)) (λ t. (ys : List ℕ) × Stores ys (some 20 ∷ []) t)
delete-Stores_example =
    delete-Stores two (1 ∷ 2 ∷ []) 2 (some 10) two-Holds (omega arith) (omega arith)

looked_up : listnode_lookup 2 two (some 20) ≡ some (ok (some 2))
unfolding listnode_lookup
looked_up = refl

first_and_last : (listnode_head two ≡ some 10) × (listnode_tail two ≡ some 20)
unfolding listnode_head listnode_tail
first_and_last = (refl, refl)

new_empty : (listnode_head (list_new two) ≡ none) × (listnode_tail (list_new two) ≡ none)
unfolding listnode_head listnode_tail list_new
new_empty = (refl, refl)

-- A second list on the nodes 5 and 6, with the values 50 and 60.
abbrev beside : State
beside = record two {
  next = λ p. if p == 1 then some 2 else if p == 5 then some 6 else none;
  prev = λ p. if p == 2 then some 1 else if p == 6 then some 5 else none;
  value = λ p.
      if p == 1 then some 10 else if p == 2 then some 20 else if p == 5 then some 50 else some 60;
}

abbrev second : Ends
second = record { head = some 5; tail = some 6; count = 2 }

beside-Holds : Holds (links beside) (ends beside) (1 ∷ 2 ∷ [])
beside-Holds = record {
  linked = (refl, refl, (refl, refl, (refl, refl)));
  distinct = ((omega arith, tt), (tt, tt));
  count = refl;
}

second-Holds : Holds (links beside) second (5 ∷ 6 ∷ [])
second-Holds = record {
  linked = (refl, refl, (refl, refl, (refl, refl)));
  distinct = ((omega arith, tt), (tt, tt));
  count = refl;
}

-- ===== src/LinkedList.antt =====
-- common/list.c and common/list.h: doubly linked lists of pointers to data. Nodes are addresses; the
-- fields of all of them are functions, and a node that calloc returned is an argument. NULL is
-- `none`. Loops are on fuel, and `none` as a result is no fuel left.
pub mod Added
pub mod Sorting
pub mod Removed
pub mod Joined
mod Tests
use poplar.Prelude.{
  ℕ, zero, suc, ◌+◌, ◌-◌, ◌%◌, ◌^◌, Bool, true, false, List, [], ◌∷◌, ◌++◌, Option, none, some,
  ◌==◌, if◌then◌else◌,
}
use poplar.Prelude.Int.{ℤ, is_negative}
use poplar.Run.{Run, ok, fault, null_pointer, assert_failed, assert, ◌>>=◌, ◌>>◌}
use poplar.Links.{Links, Ends, put}
use poplar.Links.Walk.{find_from}

-- The nodes, one list, what free() was called on, and what del was called on.
pub record State : Type 0 where
  pub next : ℕ → Option ℕ
  pub prev : ℕ → Option ℕ
  pub value : ℕ → Option ℕ
  pub head : Option ℕ
  pub tail : Option ℕ
  pub count : ℕ
  pub cmp : Option (Option ℕ → Option ℕ → ℤ)
  pub del : Bool
  pub freed : List ℕ
  pub deleted : List (Option ℕ)

abbrev pub links : State → Links
links s = record { next = s.next; prev = s.prev }

abbrev pub ends : State → Ends
ends s = record { head = s.head; tail = s.tail; count = s.count }

-- `p->next = v`, `p->prev = v`
abbrev pub set_next : State → ℕ → Option ℕ → State
set_next s p v = record s { next = put s.next p v }

abbrev pub set_prev : State → ℕ → Option ℕ → State
set_prev s p v = record s { prev = put s.prev p v }

-- `list->count++`, `list->count--`
abbrev pub counted : State → State
counted s = record s { count = (s.count + 1) % 2 ^ 32 }

abbrev pub uncounted : State → State
uncounted s = record s { count = (s.count + 2 ^ 32 - 1) % 2 ^ 32 }

abbrev pub is_set : Option ℕ → Bool
is_set none = false
is_set (some p) = true

-- A list that calloc() returned, beside the nodes there are.
unfoldable pub list_new : State → State
list_new s = record s { head = none; tail = none; count = 0; cmp = none; del = false }

-- The node comes from calloc().
unfoldable pub listnode_new : State → ℕ → State
listnode_new s node = record s {
  next = put s.next node none;
  prev = put s.prev node none;
  value = put s.value node none;
}

unfoldable pub listnode_free : State → ℕ → State
listnode_free s node = record s { freed = s.freed ++ (node ∷ []) }

-- `node = listnode_new(); node->data = val`
abbrev pub carrying : State → ℕ → Option ℕ → State
carrying s node val = let new = listnode_new s node in record new { value = put new.value node val }

unfoldable pub listnode_add : State → ℕ → Option ℕ → Run State
unfolding listnode_new
listnode_add s node val = do
  assert (is_set val)
  let new = set_prev (carrying s node val) node s.tail
  linked ← elim s.head [
    | none ↦ ok (record new { head = some node })
    | some h ↦ elim s.tail [ none ↦ fault null_pointer | some t ↦ ok (set_next new t (some node)) ]
  ]
  ok (counted (record linked { tail = some node }))

unfoldable pub listnode_add_head : State → ℕ → Option ℕ → Run State
unfolding listnode_new
listnode_add_head s node val = do
  assert (is_set val)
  let new = set_next (carrying s node val) node s.head
  linked ← elim s.tail [
    | none ↦ ok (record new { tail = some node })
    | some t ↦ elim s.head [ none ↦ fault null_pointer | some h ↦ ok (set_prev new h (some node)) ]
  ]
  ok (counted (record linked { head = some node }))

-- The loop of listnode_add_sort.
unfoldable pub place_for : ℕ → State → Option ℕ → Option (Option ℕ)
place_for fuel s val = elim s.cmp [
  | none ↦ some none
  | some cmp ↦ find_from fuel s.next (λ n. is_negative (cmp val (s.value n))) s.head
]

-- What the loop of listnode_add_sort does before it returns.
unfoldable pub put_before : State → ℕ → ℕ → State
put_before s n new =
    let a = set_next s new (some n) in
    let b = set_prev a new (a.prev n) in
    let c : State = elim (b.prev n) [
      | some q ↦ set_next b q (some new)
      | none ↦ record b { head = some new }
    ] in
    counted (set_prev c n (some new))

-- What listnode_add_sort does after the loop.
unfoldable pub put_last : State → ℕ → State
put_last s new =
    let a = set_prev s new s.tail in
    let b : State = elim s.tail [
      | some t ↦ set_next a t (some new)
      | none ↦ record a { head = some new }
    ] in
    counted (record b { tail = some new })

unfoldable pub listnode_add_sort : ℕ → State → ℕ → Option ℕ → Option (Run State)
unfolding listnode_new place_for put_before put_last
listnode_add_sort fuel s node none = some (fault assert_failed)
listnode_add_sort fuel s node (some val) =
    let new = carrying s node (some val) in
    elim (place_for fuel new (some val)) [
      | none ↦ none
      | some (some n) ↦ some (ok (put_before new n node))
      | some none ↦ some (ok (put_last new node))
    ]

unfoldable pub listnode_add_after : State → Option ℕ → ℕ → Option ℕ → Run State
unfolding listnode_new
listnode_add_after s pp nn val = do
  assert (is_set val)
  let new = carrying s nn val
  let linked : State = elim pp [
    | none ↦
        let a : State = elim s.head [
          | some h ↦ set_prev new h (some nn)
          | none ↦ record new { tail = some nn }
        ] in
        let b = set_prev (set_next a nn a.head) nn none in record b { head = some nn }
    | some p ↦
        let a : State = elim (new.next p) [
          | some q ↦ set_prev new q (some nn)
          | none ↦ record new { tail = some nn }
        ] in
        set_next (set_prev (set_next a nn (a.next p)) nn (some p)) p (some nn)
  ]
  ok (counted linked)

-- The two tests of list_delete_node, on `node->prev` and on `node->next`.
abbrev pub bypass_next : State → ℕ → Option ℕ → State
bypass_next s node (some q) = set_next s q (s.next node)
bypass_next s node none = record s { head = s.next node }

abbrev pub bypass_prev : State → ℕ → Option ℕ → State
bypass_prev s node (some q) = set_prev s q (s.prev node)
bypass_prev s node none = record s { tail = s.prev node }

unfoldable pub list_delete_node : State → ℕ → State
unfolding listnode_free
list_delete_node s node =
    let a = bypass_next s node (s.prev node) in
    let b = bypass_prev a node (a.next node) in listnode_free (uncounted b) node

-- `p == q` on pointers
abbrev pub same : Option ℕ → Option ℕ → Bool
same none none = true
same (some p) (some q) = p == q
same _ _ = false

-- The body under the test of listnode_delete is that of list_delete_node.
unfoldable pub listnode_delete : ℕ → State → Option ℕ → Option State
unfolding list_delete_node
listnode_delete fuel s val = elim (find_from fuel s.next (λ n. same (s.value n) val) s.head) [
  | none ↦ none
  | some none ↦ some s
  | some (some n) ↦ some (list_delete_node s n)
]

unfoldable pub listnode_head : State → Option ℕ
listnode_head s = elim s.head [ some n ↦ s.value n | none ↦ none ]

unfoldable pub listnode_tail : State → Option ℕ
listnode_tail s = elim s.tail [ some n ↦ s.value n | none ↦ none ]

-- The loop of list_delete_all_node.
unfoldable pub delete_from : ℕ → State → Option ℕ → Option State
unfolding listnode_free
delete_from fuel s none = some s
delete_from zero s (some n) = none
delete_from (suc fuel) s (some n) =
    let called = record s {
      deleted = if s.del then s.deleted ++ (s.value n ∷ []) else s.deleted;
    } in
    delete_from fuel (listnode_free called n) (s.next n)

unfoldable pub list_delete_all_node : ℕ → State → Option State
unfolding delete_from
list_delete_all_node fuel s = elim (delete_from fuel s s.head) [
  | none ↦ none
  | some e ↦ some (record e { head = none; tail = none; count = 0 })
]

-- list_free then hands back the list itself, and nothing of it is used again.
unfoldable pub list_delete : ℕ → State → Option State
unfolding list_delete_all_node
list_delete fuel s = list_delete_all_node fuel s

-- `listgetdata(node)` of every node looked at.
unfoldable pub lookup_from : ℕ → State → Option ℕ → Option ℕ → Option (Run (Option ℕ))
lookup_from fuel s value none = some (ok none)
lookup_from zero s value (some n) = none
lookup_from (suc fuel) s value (some n) =
    let rest = lookup_from fuel s value (s.next n) in
    if is_set (s.value n)
    then if same value (s.value n) then some (ok (some n)) else rest
    else some (fault assert_failed)

unfoldable pub listnode_lookup : ℕ → State → Option ℕ → Option (Run (Option ℕ))
unfolding lookup_from
listnode_lookup fuel s value = lookup_from fuel s value s.head

-- The loop of list_add_list from a node of the other list on, with the nodes that calloc returns.
unfoldable pub list_add_list : State → Option ℕ → List ℕ → Option (Run State)
unfolding listnode_add
list_add_list s none fresh = some (ok s)
list_add_list s (some n) [] = none
list_add_list s (some n) (node ∷ fresh) = elim (listnode_add s node (s.value n)) [
  | fault e ↦ some (fault e)
  | ok t ↦ list_add_list t (t.next n) fresh
]

-- ===== src/Event/Lists.antt =====
-- eventsCtl/event_ctl.c: the lists of event nodes. A node is an address and the pointers of all nodes
-- are a heap of links; the length, an int, is kept as its 32 bits.
use poplar.Prelude.{
  ℕ, zero, suc, ◌+◌, ◌-◌, ◌%◌, ◌^◌, Bool, true, false, ◌&&◌, List, [], ◌∷◌, Option, none, some,
  ◌==◌, if◌then◌else◌,
}
use poplar.Links.{Links, Ends, put}
use poplar.Links.Walk.{find_from}

abbrev set_next : Links → ℕ → Option ℕ → Links
set_next h p v = record h { next = put h.next p v }

abbrev set_prev : Links → ℕ → Option ℕ → Links
set_prev h p v = record h { prev = put h.prev p v }

-- What event_list_add does as list->tail is set or not.
abbrev after_tail : Option ℕ → Links → Ends → ℕ → Links × Ends
after_tail (some t) h l event = (set_next h t (some event), l)
after_tail none h l event = (h, record l { head = some event })

unfoldable pub event_list_add : Links → Ends → ℕ → Links × Ends
event_list_add h l event =
    let a = set_prev (set_next h event none) event l.tail in
    let (b, m) = after_tail l.tail a l event in
    (b, record m { tail = some event; count = (m.count + 1) % 2 ^ 32 })

-- What event_list_add_before does as point->prev is set or not.
abbrev after_prev : Option ℕ → Links → Ends → ℕ → Links × Ends
after_prev (some q) h l event = (set_next h q (some event), l)
after_prev none h l event = (h, record l { head = some event })

unfoldable pub event_list_add_before : Links → Ends → ℕ → ℕ → Links × Ends
event_list_add_before h l point event =
    let a = set_next h event (some point) in
    let b = set_prev a event (a.prev point) in
    let (c, m) = after_prev (b.prev point) b l event in
    (set_prev c point (some event), record m { count = (m.count + 1) % 2 ^ 32 })

-- The two tests of event_list_delete, on `event->next` and on `event->prev`.
abbrev without_next : Option ℕ → Links → Ends → ℕ → Links × Ends
without_next (some q) h l event = (set_prev h q (h.prev event), l)
without_next none h l event = (h, record l { tail = h.prev event })

abbrev without_prev : Option ℕ → Links → Ends → ℕ → Links × Ends
without_prev (some q) h l event = (set_next h q (h.next event), l)
without_prev none h l event = (h, record l { head = h.next event })

unfoldable pub event_list_delete : Links → Ends → ℕ → Links × Ends
event_list_delete h l event =
    let (a, m) = without_next (h.next event) h l event in
    let (b, n) = without_prev (a.prev event) a m event in
    (
      set_prev (set_next b event none) event none,
      record n { count = (n.count + 2 ^ 32 - 1) % 2 ^ 32 },
    )

unfoldable pub event_list_empty : Ends → Bool
event_list_empty l = elim l.head [ some h ↦ false | none ↦ true ]

unfoldable pub event_list_check_first : Ends → ℕ → Bool
event_list_check_first l node = elim l.head [ some h ↦ h == node | none ↦ false ]

-- The node taken off, if there is one.
unfoldable pub event_list_trim_head : Links → Ends → Option ℕ × (Links × Ends)
unfolding event_list_delete
event_list_trim_head h l = elim l.head [
  | some e ↦ (some e, event_list_delete h l e)
  | none ↦ (none, (h, l))
]

-- The loop of event_list_free, on fuel: the nodes freed, and the length that is left.
unfoldable pub event_list_free : ℕ → Links → Option ℕ → ℕ → Option (List ℕ × ℕ)
event_list_free fuel h none length = some ([], length)
event_list_free zero h (some t) length = none
event_list_free (suc fuel) h (some t) length =
    elim (event_list_free fuel h (h.next t) ((length + 2 ^ 32 - 1) % 2 ^ 32)) [
      | none ↦ none
      | some (freed, rest) ↦ some (t ∷ freed, rest)
    ]

-- With the fields fd and type of all nodes, on fuel.
unfoldable pub event_list_lookup : ℕ → Links → (ℕ → ℕ) → (ℕ → ℕ) → Ends → ℕ → Option (Option ℕ)
unfolding event_list_empty
event_list_lookup fuel h fd kind l node =
    if event_list_empty l
    then some none
    else find_from fuel h.next (λ p. (fd p == fd node) && (kind p == kind node)) l.head

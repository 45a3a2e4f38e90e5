-- ===== src/Dns.antt =====
-- apps/pop_domain_parse.c: domain names in packets. A char is a byte below 256, and a char from 128 on
-- is negative where it is read as a number.
pub mod Names
pub mod Checking
pub mod Parsing
pub mod Packets
pub mod Wait
pub mod Reply
pub mod Receive
pub mod Connecting
pub mod Query
pub mod Sending
pub mod Cached
pub mod Answers
mod Tests
mod QueryTests
mod ReceiveTests
mod ReplyTests
use poplar.Prelude.{
  ℕ, zero, suc, ◌+◌, ◌-◌, ◌%◌, ◌^◌, Bool, true, false, ◌||◌, List, [], ◌∷◌, ◌++◌, Option, none,
  some, length, ltb, ◌==◌, if◌then◌else◌,
}
use poplar.Run.{Run, ok, fault, out_of_bounds, load, store, copy_from, ◌>>=◌}

-- `*ptr == '.' || *ptr == '\0'`
abbrev pub is_end : ℕ → Bool
is_end c = (c == 46) || (c == 0)

-- The loop of _trans_dns_name_into_pkt_format, with as many iterations as are left.
unfoldable pub trans_loop : ℕ → List ℕ → ℕ → ℕ → ℕ → Run (List ℕ)
unfolding load store
trans_loop zero name ptr mptr count = ok name
trans_loop (suc n) name ptr mptr count = load name ptr >>= λ c. elim (is_end c) [
  | false ↦ trans_loop n name (ptr + 1) mptr (count + 1)
  | true ↦ store name mptr (count % 256) >>= λ next. trans_loop n next (ptr + 1) ptr 0
]

-- The chars of the name without the one that ends it; the result is as long as *out_len says.
unfoldable pub trans_dns_name_into_pkt_format : Option (List ℕ) → Run (Option (List ℕ))
unfolding trans_loop
trans_dns_name_into_pkt_format none = ok none
trans_dns_name_into_pkt_format (some name) =
    trans_loop (length name + 1) (0 ∷ (name ++ 0 ∷ [])) 1 0 0 >>= λ query. ok (some query)

-- `(unsigned int)(*ptr) + 1`
abbrev pub stride : ℕ → ℕ
stride c = if ltb c 128 then c + 1 else (2 ^ 32 - 256 + c + 1) % 2 ^ 32

-- The loop of check_dns_name_pkt_format, on fuel; `none` is no fuel left.
unfoldable pub check_from : ℕ → List ℕ → ℕ → ℕ → Option (Run Bool)
unfolding load
check_from zero buffer len ptr = if ltb ptr len then none else some (ok (ptr == len))
check_from (suc fuel) buffer len ptr = elim (ltb ptr len) [
  | false ↦ some (ok (ptr == len))
  | true ↦ elim (load buffer ptr) [
    | fault e ↦ some (fault e)
    | ok c ↦ check_from fuel buffer len (ptr + stride c)
  ]
]

unfoldable pub check_dns_name_pkt_format : ℕ → List ℕ → ℕ → Option (Run Bool)
unfolding check_from
check_dns_name_pkt_format fuel buffer len = check_from fuel buffer len 0

-- `strlen (s)`, which reads up to a 0 inside the object.
unfoldable pub strlen : List ℕ → Run ℕ
strlen [] = fault out_of_bounds
strlen (c ∷ cs) = elim (c == 0) [ true ↦ ok 0 | false ↦ strlen cs >>= λ n. ok (n + 1) ]

-- `ptr + c`, of a char
abbrev pub advance : ℕ → ℕ → Run ℕ
advance ptr c =
    if ltb c 128
    then ok (ptr + c)
    else if ltb (ptr + c) 256
    then fault out_of_bounds
    else ok (ptr + c - 256)

-- The last loop of _dns_pkt_name_parse, on fuel.
unfoldable pub dot_loop : ℕ → List ℕ → ℕ → ℕ → ℕ → Option (Run (List ℕ))
unfolding load store
dot_loop zero name len ptr count = if ltb ptr len then none else some (ok name)
dot_loop (suc fuel) name len ptr count = elim (ltb ptr len) [
  | false ↦ some (ok name)
  | true ↦ elim (advance ptr count) [
    | fault e ↦ some (fault e)
    | ok p ↦ elim (load name p) [
      | fault e ↦ some (fault e)
      | ok c ↦ elim (c == 0) [
        | true ↦ some (ok name)
        | false ↦ elim (store name p 46) [
          | fault e ↦ some (fault e)
          | ok next ↦ dot_loop fuel next len (p + 1) c
        ]
      ]
    ]
  ]
]

-- What _dns_pkt_name_parse does with a name that is not an offset, from the call of the check on:
-- `buff` is what is in memory from the name on, and NULL stands for a refused name.
unfoldable pub name_of : ℕ → List ℕ → Option (Run (Option (List ℕ)))
unfolding strlen check_dns_name_pkt_format dot_loop load copy_from
name_of fuel buff = elim (strlen buff) [
  | fault e ↦ some (fault e)
  | ok len ↦ elim (check_dns_name_pkt_format fuel buff len) [
    | none ↦ none
    | some (fault e) ↦ some (fault e)
    | some (ok false) ↦ some (ok none)
    | some (ok true) ↦ elim (load buff 0) [
      | fault e ↦ some (fault e)
      | ok count ↦ elim (copy_from buff 1 len) [
        | fault e ↦ some (fault e)
        | ok name ↦ elim (strlen name) [
          | fault e ↦ some (fault e)
          | ok n ↦ elim (dot_loop fuel name n 0 count) [
            | none ↦ none
            | some (fault e) ↦ some (fault e)
            | some (ok text) ↦ some (ok (some text))
          ]
        ]
      ]
    ]
  ]
]

-- ===== src/Peer/Tables.antt =====
-- The cells of the two transition tables.
use poplar.Prelude.{
  ℕ, zero, suc, ◌≤◌, ◌<◌, ◌≡◌, refl, List, [], ◌∷◌, some, arith, length, get_elem?,
}
use poplar.Run.{ok}
use poplar.Peer.Machine.{Handler, cell_at}

-- The cells of a table that is `width` wide, with next statuses from 1 to `top`.
abbrev pub Row : ℕ → List (Handler × ℕ) → Type 0
Row top [] = Unit
Row top (c ∷ cs) = ((1 ≤ c.1) × (c.1 ≤ top)) × Row top cs

abbrev pub Table : ℕ → ℕ → List (List (Handler × ℕ)) → Type 0
Table top width [] = Unit
Table top width (r ∷ rs) = ((length r ≡ width) × Row top r) × Table top width rs

at-Row :
    (top : ℕ) (r : List (Handler × ℕ)) (i : ℕ)
    → Row top r
    → i < length r
    → (c : Handler × ℕ) × (get_elem? r i ≡ some c) × (1 ≤ c.1) × (c.1 ≤ top)
at-Row top [] i a h = absurd (omega arith)
at-Row top (c ∷ cs) zero a h = (c, refl, a.0.0, a.0.1)
at-Row top (c ∷ cs) (suc i) a h = at-Row top cs i a.1 (omega arith)

at-Table :
    (top width : ℕ) (t : List (List (Handler × ℕ))) (i : ℕ)
    → Table top width t
    → i < length t
    → (r : List (Handler × ℕ)) × (get_elem? t i ≡ some r) × (length r ≡ width) × Row top r
at-Table top width [] i a h = absurd (omega arith)
at-Table top width (r ∷ rs) zero a h = (r, refl, a.0.0, a.0.1)
at-Table top width (r ∷ rs) (suc i) a h = at-Table top width rs i a.1 (omega arith)

cell_found :
    (t : List (List (Handler × ℕ))) (status event : ℕ) (r : List (Handler × ℕ)) (c : Handler × ℕ)
    → get_elem? t status ≡ some r
    → get_elem? r event ≡ some c
    → cell_at t (suc status) (suc event) ≡ ok c
cell_found t status event r c e f = rw (cell_at, e, f)

pub cell_lem :
    (top width : ℕ) (t : List (List (Handler × ℕ))) (status event : ℕ)
    → Table top width t
    → 1 ≤ status
    → status ≤ length t
    → 1 ≤ event
    → event ≤ width
    → (c : Handler × ℕ) × (cell_at t status event ≡ ok c) × (1 ≤ c.1) × (c.1 ≤ top)
cell_lem top width t zero event a s s' e e' = absurd (omega arith)
cell_lem top width t (suc status) zero a s s' e e' = absurd (omega arith)
cell_lem top width t (suc status) (suc event) a s s' e e' =
    let (r, runs, n, row) = at-Table top width t status a (omega arith) in
    let (c, found, low, high) = at-Row top r event row (omega (arith, n)) in
    (c, cell_found t status event r c runs found, low, high)

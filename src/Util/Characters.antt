-- ===== src/Util/Characters.antt =====
-- The chars that b64cpy of common/util.c stores, which may stand in the name of a file.
use poplar.Prelude.{
  ℕ, ◌+◌, ◌*◌, ◌/◌, ◌%◌, ◌^◌, ◌<◌, ◌≡◌, ◌≢◌, Bool, true, false, ◌&&◌, List, [], ◌∷◌, ◌++◌, arith,
  get_or, ◌==◌, if◌then◌else◌, length,
}
use poplar.Run.{ok}
use poplar.Util.{b64fss, b64_round, b64cpy}
use poplar.Util.Base64.{table, AllBytes, character, round_lem, chars, length-chars, b64cpy_runs}

abbrev pub SafeName : List ℕ → Type 0
SafeName [] = Unit
SafeName (c ∷ cs) = ((c ≢ 47) × (c ≢ 0)) × SafeName cs

-- No char is NUL, and with the alphabet for file names none is a slash.
abbrev pub Printable : Bool → List ℕ → Type 0
Printable fss [] = Unit
Printable fss (c ∷ cs) = (((fss && (c == 47)) ≡ false) × (c ≢ 0)) × Printable fss cs

safe_at :
    (fss : Bool) (x : ℕ)
    → x < 64
    → ((fss && (get_or (table fss) x 0 == 47)) ≡ false) × (get_or (table fss) x 0 ≢ 0)
safe_at fss x h = let g = character fss x h in (g.no_slash, ground (arith, g.no_nul))

round-Printable :
    (fss : Bool) (a0 a1 a2 : ℕ) (more most : Bool) (rest : List ℕ)
    → a0 < 256
    → a1 < 256
    → a2 < 256
    → Printable fss rest
    → Printable fss (b64_round (table fss) a0 a1 a2 more most ++ rest)
round-Printable fss a0 a1 a2 more most rest h0 h1 h2 r =
    rw (round_lem (table fss) a0 a1 a2 more most h0 h1 h2) (
      safe_at fss (a0 / 4) (omega arith),
      (
        safe_at fss ((a0 % 4) * 16 + a1 / 16) (omega arith),
        (pad more ((a1 % 16) * 4 + a2 / 64) (omega arith), (pad most (a2 % 64) (omega arith), r)),
      ),
    )
  where
    pad :
        (b : Bool) (x : ℕ)
        → x < 64
        → ((fss && ((if b then get_or (table fss) x 0 else 61) == 47)) ≡ false)
          × ((if b then get_or (table fss) x 0 else 61) ≢ 0)
    pad true x h = safe_at fss x h
    pad false x h = (ground arith, omega arith)

chars-Printable : (fss : Bool) (src : List ℕ) → AllBytes src → Printable fss (chars (table fss) src)
unfolding chars b64_round
chars-Printable fss [] h = tt
chars-Printable fss (a0 ∷ []) h =
    round-Printable fss a0 0 0 false false [] h.0 (omega arith) (omega arith) tt
chars-Printable fss (a0 ∷ a1 ∷ []) h =
    round-Printable fss a0 a1 0 true false [] h.0 h.1.0 (omega arith) tt
chars-Printable fss (a0 ∷ a1 ∷ a2 ∷ src) h =
    round-Printable fss a0 a1 a2 true true (chars (table fss) src) h.0 h.1.0 h.1.1.0
      (chars-Printable fss src h.1.1.1)

-- For a list of bytes of which the number of chars fits an int, b64cpy stores four characters for
-- every three bytes begun, with either alphabet, and returns their number. None of them is NUL, and
-- with the alphabet for file names none is "/".
pub b64cpy-Printable :
    (fss : Bool) (src : List ℕ)
    → AllBytes src
    → 4 * ((length src + 2) / 3) < 2 ^ 31
    → (dst : List ℕ) × (b64cpy src fss ≡ ok (dst, 4 * ((length src + 2) / 3)))
      × (length dst ≡ 4 * ((length src + 2) / 3))
      × Printable fss dst
b64cpy-Printable fss src h small = (
  chars (table fss) src,
  b64cpy_runs fss src small,
  length-chars (table fss) src,
  chars-Printable fss src h,
)

Printable-SafeName : (cs : List ℕ) → Printable true cs → SafeName cs
Printable-SafeName [] h = tt
Printable-SafeName (c ∷ cs) ((p, q), h) = ((ground (arith, p), q), Printable-SafeName cs h)

pub chars-SafeName : (src : List ℕ) → AllBytes src → SafeName (chars b64fss src)
chars-SafeName src h = Printable-SafeName (chars b64fss src) (chars-Printable true src h)

-- ===== src/HttpCache/Host.antt =====
-- The loop of urlDirname over the host of a URL.
use poplar.Prelude.{
  ℕ, zero, suc, ◌+◌, ◌≤◌, ◌<◌, ◌≡◌, ◌⊎◌, inl, inr, refl, ap, sym, ◌∙◌, subst, true, false, List, [],
  ◌∷◌, ◌++◌, none, some, arith, length, take, drop, ◌==◌, Bool-cases,
}
use poplar.Prelude.Lists.{length-append}
use poplar.Run.{Run, ok, load, ◌>>=◌}
use poplar.Util.Compare.{AllChars}
use mathlib.Core.List.{append_assoc, append-nil}
use poplar.HttpCache.{Written, put_char, doubled, host_loop}
use poplar.HttpCache.Escape.{
  escape, host_of, encode_host, dot_pair, dotdot, Puts, load-drop, doubled_lem, host_dot,
}
use poplar.HttpCache.Step.{put_char-Puts}

-- What a run of the loop over the chars `cs` of the URL leaves: its buffer and its place, or a
-- refusal, because of two dots or for want of room.
abbrev pub Loops : ℕ → ℕ → ℕ → List ℕ → List ℕ → Written → Type 0
Loops n size j q host (out, none) =
    ((dotdot host ≡ true) ⊎ (n ≤ j + length (encode_host host))) × (length out ≡ size)
Loops n size j q host (out, some k) =
    (dotdot host ≡ false)
    × (k ≡ j + length (encode_host host))
    × (k < n)
    × (take k out ≡ q ++ encode_host host)
    × (length out ≡ size)

loop_end :
    (out : List ℕ) (n : ℕ) (url : List ℕ) (len i j : ℕ)
    → host_loop zero out n url len i j ≡ ok (out, some j)
unfolding host_loop
loop_end out n url len i j = refl

loop_stop :
    (k : ℕ) (out : List ℕ) (n : ℕ) (url : List ℕ) (len i j c : ℕ)
    → load url i ≡ ok c
    → (c == 47) ≡ true
    → host_loop (suc k) out n url len i j ≡ ok (out, some j)
unfolding host_loop
loop_stop k out n url len i j c h e = rw (host_loop, h, ◌>>=◌, e) refl

loop_dots :
    (k : ℕ) (out : List ℕ) (n : ℕ) (url : List ℕ) (len i j c : ℕ)
    → load url i ≡ ok c
    → (c == 47) ≡ false
    → doubled url len i c ≡ ok true
    → host_loop (suc k) out n url len i j ≡ ok (out, none)
unfolding host_loop
loop_dots k out n url len i j c h e d = rw (host_loop, h, ◌>>=◌, e, d) refl

-- What follows the call of put_char in the loop.
abbrev after_char : ℕ → ℕ → List ℕ → ℕ → ℕ → Written → Run Written
after_char k n url len i (out, none) = ok (out, none)
after_char k n url len i (out, some j) = host_loop k out n url len (suc i) j

loop_char :
    (k : ℕ) (out : List ℕ) (n : ℕ) (url : List ℕ) (len i j c : ℕ) (w : Written)
    → load url i ≡ ok c
    → (c == 47) ≡ false
    → doubled url len i c ≡ ok false
    → put_char out n j c ≡ ok w
    → host_loop (suc k) out n url len i j ≡ after_char k n url len i w
unfolding host_loop
loop_char k out n url len i j c (o, none) h e d p = rw (host_loop, h, ◌>>=◌, e, d, p) refl
loop_char k out n url len i j c (o, some j') h e d p =
    rw (host_loop, h, ◌>>=◌, e, d, p) (ap (λ (m : ℕ). host_loop k o n url len m j') (omega arith))

host_cons : (c : ℕ) (cs : List ℕ) → (c == 47) ≡ false → host_of (c ∷ cs) ≡ c ∷ host_of cs
host_cons c cs e = rw e refl

length-encode_cons :
    (c : ℕ) (host : List ℕ)
    → length (encode_host (c ∷ host)) ≡ length (escape c) + length (encode_host host)
length-encode_cons c host = length-append (escape c) (encode_host host)

-- A char before a run of the loop over the rest.
Loops-cons :
    (n size size' j k c : ℕ) (q host : List ℕ) (w : Written)
    → dot_pair c host ≡ false
    → size' ≡ size
    → k ≡ j + length (escape c)
    → Loops n size' k (q ++ escape c) host w
    → Loops n size j q (c ∷ host) w
Loops-cons n size size' j k c q host (out, none) d s e (inl p, l) = (inl (rw (d, p) refl), l ∙ s)
Loops-cons n size size' j k c q host (out, none) d s e (inr p, l) =
    (inr (omega (arith, length-encode_cons c host)), l ∙ s)
Loops-cons n size size' j k c q host (out, some m) d s e (p, at, in', t, l) = (
  rw (d, p) refl,
  omega (arith, length-encode_cons c host),
  in',
  t ∙ append_assoc q (escape c) (encode_host host),
  l ∙ s,
)

-- The loop over the chars `cs`, from any buffer that has room.
abbrev pub Runs : ℕ → ℕ → List ℕ → ℕ → ℕ → List ℕ → Type 0
Runs steps n url len i host =
    (out : List ℕ) (j : ℕ) (q : List ℕ)
    → j < n
    → n ≤ length out
    → take j out ≡ q
    → (w : Written) × (host_loop steps out n url len i j ≡ ok w) × Loops n (length out) j q host w

after_char-Loops :
    (c steps : ℕ) (host url : List ℕ) (n len i size j : ℕ) (q : List ℕ) (w : Written)
    → Runs steps n url len (suc i) host
    → n ≤ size
    → dot_pair c host ≡ false
    → Puts n size j q c w
    → (w' : Written) × (after_char steps n url len i w ≡ ok w') × Loops n size j q (c ∷ host) w'
after_char-Loops c steps host url n len i size j q (o, none) ih h2 d (p, l) =
    ((o, none), refl, (inr (omega (arith, p, length-encode_cons c host)), l))
after_char-Loops c steps host url n len i size j q (o, some k) ih h2 d (at, in', t, l) =
    let (w', runs, loops) = ih o k (q ++ escape c) in' (omega (arith, l, h2)) t in
    (w', runs, Loops-cons n size (length o) j k c q host w' d l at loops)

pub host_loop-Loops :
    (cs url : List ℕ) (n len i : ℕ)
    → drop i url ≡ cs
    → i + length cs ≡ len
    → AllChars cs
    → Runs (length cs) n url len i (host_of cs)
host_loop-Loops [] url n len i e h c out j q h1 h2 t = (
  (out, some j),
  loop_end out n url len i j,
  (refl, omega arith, h1, t ∙ sym (append-nil q), refl),
)
host_loop-Loops (c ∷ cs) url n len i e h (small, chars) out j q h1 h2 t =
    let (read, next) = load-drop url i c cs e in
    let pair = doubled_lem url len i c cs e h in
    elim (Bool-cases (c == 47)) [
      | inl y ↦ (
        (out, some j),
        loop_stop (length cs) out n url len i j c read y,
        rw y (refl, omega arith, h1, t ∙ sym (append-nil q), refl),
      )
      | inr y ↦
          let fit = λ (w : Written).
            subst (λ host. Loops n (length out) j q host w) (sym (host_cons c cs y)) in
          elim (Bool-cases (dot_pair c cs)) [
            | inl d ↦ (
              (out, none),
              loop_dots (length cs) out n url len i j c read y (pair ∙ ap ok d),
              fit (out, none) (inl (rw (host_dot c cs, d) refl), refl),
            )
            | inr d ↦
                let (w, put, puts) = put_char-Puts out n j c q small h1 h2 t in
                let (w', runs, loops) =
                  after_char-Loops c (length cs) (host_of cs) url n len i (length out) j q w
                    (host_loop-Loops cs url n len (suc i) next (omega (arith, h)) chars) h2
                    (host_dot c cs ∙ d) puts in
                (
                  w',
                  loop_char (length cs) out n url len i j c w read y (pair ∙ ap ok d) put ∙ runs,
                  fit w' loops,
                )
          ]
    ]

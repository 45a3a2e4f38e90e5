-- ===== src/Dns/Parsing.antt =====
-- A name that was put in the form of packets is parsed back.
use poplar.Prelude.{
  ℕ, zero, suc, ◌+◌, ◌<◌, ◌≡◌, refl, sym, ap, ap₂, subst, ◌∙◌, true, false, List, [], ◌∷◌, ◌++◌,
  some, arith, length, leb, ltb, ◌==◌,
}
use poplar.Prelude.Lists.{length-append, slice_tail}
use mathlib.Core.List.{append_assoc}
use poplar.Run.{ok, load, store, copy_from, ◌>>=◌}
use poplar.Dns.{
  strlen, dot_loop, name_of, check_dns_name_pkt_format, trans_dns_name_into_pkt_format,
}
use poplar.Dns.Names.{Labels, Plain, join, encode, load_at, store_at, trans-encode}
use poplar.Dns.Checking.{check-encode}

-- Labels that are not empty.
abbrev pub Full : List (List ℕ) → Type 0
Full [] = Unit
Full (l ∷ ls) = (0 < length l) × Full ls

stop :
    (fuel : ℕ) (name : List ℕ) (len ptr count : ℕ)
    → ltb ptr len ≡ true
    → ltb count 128 ≡ true
    → load name (ptr + count) ≡ ok 0
    → dot_loop (suc fuel) name len ptr count ≡ some (ok name)
unfolding dot_loop
stop fuel name len ptr count h small e = rw (dot_loop, h, small, e) refl

dot :
    (fuel : ℕ) (name next : List ℕ) (len ptr count c : ℕ)
    → ltb ptr len ≡ true
    → ltb count 128 ≡ true
    → load name (ptr + count) ≡ ok c
    → (c == 0) ≡ false
    → store name (ptr + count) 46 ≡ ok next
    → dot_loop (suc fuel) name len ptr count ≡ dot_loop fuel next len (ptr + count + 1) c
unfolding dot_loop
dot fuel name next len ptr count c h small e set g = rw (dot_loop, h, small, e, set, g) refl

dotted :
    (l : List ℕ) (ls : List (List ℕ)) (pre : List ℕ) (fuel len : ℕ)
    → Labels 128 (l ∷ ls)
    → Full (l ∷ ls)
    → length (pre ++ join l ls) ≡ len
    → length ls < fuel
    → dot_loop fuel (pre ++ (l ++ encode ls)) len (length pre) (length l)
      ≡ some (ok (pre ++ (join l ls ++ 0 ∷ [])))
dotted l ls pre zero len h f e enough = ground arith
dotted l [] pre (suc fuel) len (p, small, h) (full, f) e enough =
    let more = length-append pre l in
    let read =
      subst (λ as'. load as' (length (pre ++ l)) ≡ ok 0) (append_assoc pre l (0 ∷ []))
        (load_at (pre ++ l) 0 []) in
    stop fuel (pre ++ (l ++ 0 ∷ [])) len (length pre) (length l) (ground (arith, e, more, full))
      (ground (arith, small)) (subst (λ i. load (pre ++ (l ++ 0 ∷ [])) i ≡ ok 0) more read)
dotted l (m ∷ ls) pre (suc fuel) len (p, small, h) (full, f) e enough =
    let rest = m ++ encode ls in
    let c = length m in
    let name = pre ++ (l ++ c ∷ rest) in
    let more = length-append pre l in
    let move = append_assoc pre l (c ∷ rest) in
    let all = ap length (append_assoc pre l (46 ∷ join m ls)) in
    let behind = pre ++ (l ++ 46 ∷ []) in
    let i = length pre + length l in
    let read =
      subst (λ as'. load as' (length (pre ++ l)) ≡ ok c) move (load_at (pre ++ l) c rest) in
    let put_dot =
      subst (λ as'. store as' (length (pre ++ l)) 46 ≡ ok ((pre ++ l) ++ 46 ∷ rest)) move
        (store_at (pre ++ l) c 46 rest) in
    let longer : length (pre ++ join l (m ∷ ls)) ≡ length (pre ++ l) + suc (length (join m ls)) =
      sym all ∙ length-append (pre ++ l) (46 ∷ join m ls) in
    let flat : ((xs : List ℕ) → behind ++ xs ≡ (pre ++ l) ++ 46 ∷ xs) = λ xs.
      ap (λ q. q ++ xs) (sym (append_assoc pre l (46 ∷ [])))
      ∙ append_assoc (pre ++ l) (46 ∷ []) xs in
    let at : length behind ≡ i + 1 =
      ap length (sym (append_assoc pre l (46 ∷ [])))
      ∙ length-append (pre ++ l) (46 ∷ [])
      ∙ ap (λ k. k + 1) more in
    dot fuel name ((pre ++ l) ++ 46 ∷ rest) len (length pre) (length l) c
      (ground (arith, e, longer, more, full)) (ground (arith, small))
      (subst (λ k. load name k ≡ ok c) more read) (ground (arith, f.0))
      (subst (λ k. store name k 46 ≡ ok ((pre ++ l) ++ 46 ∷ rest)) more put_dot)
    ∙ ap₂ (λ as' k. dot_loop fuel as' len k c) (sym (flat rest)) (sym at)
    ∙ dotted m ls behind fuel len h f
        (ap length (flat (join m ls) ∙ append_assoc pre l (46 ∷ join m ls)) ∙ e) (omega arith)
    ∙ ap (λ as'. some (ok as'))
        (flat (join m ls ++ 0 ∷ [])
          ∙ append_assoc pre l (46 ∷ (join m ls ++ 0 ∷ []))
          ∙ ap (λ t. pre ++ t) (sym (append_assoc l (46 ∷ join m ls) (0 ∷ []))))

strlen_step :
    (c : ℕ) (cs : List ℕ) (n : ℕ)
    → (c == 0) ≡ false
    → strlen cs ≡ ok n
    → strlen (c ∷ cs) ≡ ok (n + 1)
unfolding strlen
strlen_step c cs n h e = rw (strlen, h, e, ◌>>=◌) refl

strlen_over :
    (q rest : List ℕ) (n : ℕ)
    → Plain q
    → strlen rest ≡ ok n
    → strlen (q ++ rest) ≡ ok (length q + n)
strlen_over [] rest n p e = e ∙ ap ok (omega arith)
strlen_over (c ∷ q) rest n (h, p) e =
    strlen_step c (q ++ rest) (length q + n) (ground (arith, h)) (strlen_over q rest n p e)
    ∙ ap ok (omega arith)

strlen-join :
    (l : List ℕ) (ls : List (List ℕ))
    → Labels 128 (l ∷ ls)
    → Full (l ∷ ls)
    → strlen (l ++ encode ls) ≡ ok (length (join l ls))
unfolding strlen
strlen-join l [] (p, small, h) f = strlen_over l (0 ∷ []) 0 p refl ∙ ap ok (omega arith)
strlen-join l (m ∷ ls) (p, small, h) (full, f) =
    let rest =
      strlen_step (length m) (m ++ encode ls) (length (join m ls)) (ground (arith, f.0))
        (strlen-join m ls h f) in
    strlen_over l (encode (m ∷ ls)) (length (join m ls) + 1) p rest
    ∙ ap ok (omega (arith, length-append l (46 ∷ join m ls)))

length-join : (l : List ℕ) (ls : List (List ℕ)) → length (l ++ encode ls) ≡ length (join l ls) + 1
length-join l [] = length-append l (0 ∷ [])
length-join l (m ∷ ls) =
    omega
      (arith, length-append l (encode (m ∷ ls)), length-append l (46 ∷ join m ls), length-join m ls)

copy_tail : (c : ℕ) (cs : List ℕ) (n : ℕ) → length cs ≡ n → copy_from (c ∷ cs) 1 n ≡ ok cs
unfolding copy_from
copy_tail c cs n e =
    let inside : leb (1 + n) (suc (length cs)) ≡ true = ground (arith, e) in
    rw (copy_from, inside) (ap ok (slice_tail c cs n e))

load_head : (c : ℕ) (cs : List ℕ) → load (c ∷ cs) 0 ≡ ok c
unfolding load
load_head c cs = refl

wider : (ls : List (List ℕ)) → Labels 128 ls → Labels 256 ls
wider [] h = tt
wider (l ∷ ls) (p, small, h) = (p, omega arith, wider ls h)

steps :
    (fuel : ℕ) (buff name text : List ℕ) (len n count : ℕ)
    → strlen buff ≡ ok len
    → check_dns_name_pkt_format fuel buff len ≡ some (ok true)
    → load buff 0 ≡ ok count
    → copy_from buff 1 len ≡ ok name
    → strlen name ≡ ok n
    → dot_loop fuel name n 0 count ≡ some (ok text)
    → name_of fuel buff ≡ some (ok (some text))
unfolding name_of
steps fuel buff name text len n count a b c d e f = rw (name_of, a, b, c, d, e, f) refl

name_of-encode :
    (l : List ℕ) (ls : List (List ℕ)) (fuel : ℕ)
    → Labels 128 (l ∷ ls)
    → Full (l ∷ ls)
    → length ls < fuel
    → name_of fuel (encode (l ∷ ls)) ≡ some (ok (some (join l ls ++ 0 ∷ [])))
name_of-encode l ls fuel h f enough =
    let n = length (join l ls) in
    let count = length l in
    let total = length-join l ls in
    steps fuel (encode (l ∷ ls)) (l ++ encode ls) (join l ls ++ 0 ∷ []) (n + 1) n count
      (strlen_step count (l ++ encode ls) n (ground (arith, f.0)) (strlen-join l ls h f))
      (check-encode (l ∷ ls) fuel (n + 1) h (omega (arith, total)) (omega arith))
      (load_head count (l ++ encode ls)) (copy_tail count (l ++ encode ls) (n + 1) total)
      (strlen-join l ls h f) (dotted l ls [] fuel n h f refl enough)

-- The name of one or more labels with dots between them, each not empty, without dots and zeros and
-- shorter than 128: what _trans_dns_name_into_pkt_format makes of it, _dns_pkt_name_parse accepts
-- where it is not an offset, with fuel for every label, and gives back the name with a 0 at its end.
-- Neither reads or writes outside its buffers.
pub dns_round_trip :
    (l : List ℕ) (ls : List (List ℕ)) (fuel : ℕ)
    → Labels 128 (l ∷ ls)
    → Full (l ∷ ls)
    → length ls < fuel
    → (query : List ℕ) × (trans_dns_name_into_pkt_format (some (join l ls)) ≡ ok (some query))
      × (name_of fuel query ≡ some (ok (some (join l ls ++ 0 ∷ []))))
dns_round_trip l ls fuel h f enough =
    (encode (l ∷ ls), trans-encode l ls (wider (l ∷ ls) h), name_of-encode l ls fuel h f enough)

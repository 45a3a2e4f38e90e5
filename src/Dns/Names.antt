-- ===== src/Dns/Names.antt =====
-- What _trans_dns_name_into_pkt_format makes of the labels of a name.
use poplar.Prelude.{
  ℕ, suc, ◌+◌, ◌%◌, ◌<◌, ◌≡◌, refl, sym, ap, ap₂, subst, ◌∙◌, true, false, List, [], ◌∷◌, ◌++◌,
  some, arith, length, set, ltb,
}
use poplar.Prelude.Lists.{length-append}
use mathlib.Core.List.{append_assoc, append-nil}
use poplar.Run.{ok, load, store, ◌>>=◌}
use poplar.Dns.{is_end, trans_loop, trans_dns_name_into_pkt_format}

-- The labels of a name with dots between them.
abbrev pub join : List ℕ → List (List ℕ) → List ℕ
join l [] = l
join l (m ∷ ls) = l ++ 46 ∷ join m ls

-- Each label behind its length, and a 0.
abbrev pub encode : List (List ℕ) → List ℕ
encode [] = 0 ∷ []
encode (l ∷ ls) = length l ∷ (l ++ encode ls)

abbrev pub Plain : List ℕ → Type 0
Plain [] = Unit
Plain (c ∷ cs) = (is_end c ≡ false) × Plain cs

-- Labels without dots and zeros, shorter than `bound`.
abbrev pub Labels : ℕ → List (List ℕ) → Type 0
Labels bound [] = Unit
Labels bound (l ∷ ls) = Plain l × (length l < bound) × Labels bound ls

pub load_at : (q : List ℕ) (c : ℕ) (rest : List ℕ) → load (q ++ c ∷ rest) (length q) ≡ ok c
unfolding load
load_at [] c rest = refl
load_at (x ∷ q) c rest = load_at q c rest

set_at : (q : List ℕ) (s v : ℕ) (rest : List ℕ) → set (q ++ s ∷ rest) (length q) v ≡ q ++ v ∷ rest
set_at [] s v rest = refl
set_at (x ∷ q) s v rest = ap (λ t. x ∷ t) (set_at q s v rest)

pub store_at :
    (q : List ℕ) (s v : ℕ) (rest : List ℕ) → store (q ++ s ∷ rest) (length q) v ≡ ok (q ++ v ∷ rest)
unfolding store
store_at q s v rest =
    let inside : ltb (length q) (length (q ++ s ∷ rest)) ≡ true =
      ground (arith, length-append q (s ∷ rest)) in
    rw inside (ap ok (set_at q s v rest))

-- What the loop does at a char of a label, and at the end of one.
at_char :
    (n : ℕ) (name : List ℕ) (ptr mptr count c : ℕ)
    → load name ptr ≡ ok c
    → is_end c ≡ false
    → trans_loop (suc n) name ptr mptr count ≡ trans_loop n name (ptr + 1) mptr (count + 1)
unfolding trans_loop
at_char n name ptr mptr count c h e = rw (trans_loop, h, ◌>>=◌, e) refl

at_end :
    (n : ℕ) (name next : List ℕ) (ptr mptr count c : ℕ)
    → load name ptr ≡ ok c
    → is_end c ≡ true
    → store name mptr (count % 256) ≡ ok next
    → trans_loop (suc n) name ptr mptr count ≡ trans_loop n next (ptr + 1) ptr 0
unfolding trans_loop
at_end n name next ptr mptr count c h e g = rw (trans_loop, h, ◌>>=◌, e, g) refl

along :
    (l q rest : List ℕ) (n mptr count : ℕ)
    → Plain l
    → trans_loop (length l + n) (q ++ (l ++ rest)) (length q) mptr count
      ≡ trans_loop n (q ++ (l ++ rest)) (length (q ++ l)) mptr (count + length l)
along [] q rest n mptr count p =
    ap (λ k. trans_loop k (q ++ rest) (length q) mptr count) (omega arith)
    ∙ ap₂ (λ k j. trans_loop n (q ++ rest) k mptr j) (sym (ap length (append-nil q))) (omega arith)
along (c ∷ l) q rest n mptr count (e, p) =
    let name = q ++ c ∷ (l ++ rest) in
    let move = append_assoc q (c ∷ []) (l ++ rest) in
    let shift = append_assoc q (c ∷ []) l in
    let longer : length (q ++ c ∷ []) ≡ length q + 1 = length-append q (c ∷ []) in
    ap (λ k. trans_loop k name (length q) mptr count) (omega arith)
    ∙ at_char (length l + n) name (length q) mptr count c (load_at q c (l ++ rest)) e
    ∙ ap₂ (λ as' k. trans_loop (length l + n) as' k mptr (count + 1)) (sym move) (sym longer)
    ∙ along l (q ++ c ∷ []) rest n mptr (count + 1) p
    ∙ ap₂ (λ as' k. trans_loop n as' k mptr (count + 1 + length l)) move (ap length shift)
    ∙ ap (λ k. trans_loop n name (length (q ++ c ∷ l)) mptr k) (omega arith)

-- A label, the char that ends it, and its length written before it.
one_label :
    (l pre rest : List ℕ) (s c n : ℕ)
    → Plain l
    → length l < 256
    → is_end c ≡ true
    → trans_loop (length l + suc n) (pre ++ s ∷ (l ++ c ∷ rest)) (length pre + 1) (length pre) 0
      ≡ trans_loop n
          (pre ++ length l ∷ (l ++ c ∷ rest))
          (length (pre ++ length l ∷ l) + 1)
          (length (pre ++ length l ∷ l))
          0
one_label l pre rest s c n p small e =
    let q = pre ++ s ∷ [] in
    let tail = l ++ c ∷ rest in
    let name = pre ++ s ∷ tail in
    let move = append_assoc pre (s ∷ []) tail in
    let flat = append_assoc pre (s ∷ []) l in
    let whole : (pre ++ s ∷ l) ++ c ∷ rest ≡ name = append_assoc pre (s ∷ l) (c ∷ rest) in
    let start : length q ≡ length pre + 1 = length-append pre (s ∷ []) in
    let i = length (pre ++ s ∷ l) in
    let same : i ≡ length (pre ++ length l ∷ l) =
      length-append pre (s ∷ l) ∙ sym (length-append pre (length l ∷ l)) in
    let read = subst (λ as'. load as' i ≡ ok c) whole (load_at (pre ++ s ∷ l) c rest) in
    let cut : length l % 256 ≡ length l = omega arith in
    let written = ap (store name (length pre)) cut ∙ store_at pre s (length l) tail in
    ap₂ (λ as' k. trans_loop (length l + suc n) as' k (length pre) 0) (sym move) (sym start)
    ∙ along l q (c ∷ rest) (suc n) (length pre) 0 p
    ∙ ap (λ k. trans_loop (suc n) (q ++ tail) (length (q ++ l)) (length pre) k) (omega arith)
    ∙ ap₂ (λ as' k. trans_loop (suc n) as' k (length pre) (length l)) move (ap length flat)
    ∙ at_end n name (pre ++ length l ∷ tail) i (length pre) (length l) c read e written
    ∙ ap (λ k. trans_loop n (pre ++ length l ∷ tail) (k + 1) k 0) same

-- All labels from one on, behind what is written already.
from_first :
    (l : List ℕ) (ls : List (List ℕ)) (pre : List ℕ) (s : ℕ)
    → Labels 256 (l ∷ ls)
    → trans_loop
        (length (join l ls) + 1)
        (pre ++ s ∷ (join l ls ++ 0 ∷ []))
        (length pre + 1)
        (length pre)
        0
      ≡ ok (pre ++ encode (l ∷ ls))
unfolding trans_loop
from_first l [] pre s (p, small, h) = one_label l pre [] s 0 0 p small refl
from_first l (m ∷ ls) pre s (p, small, h) =
    let name = join m ls in
    let behind = pre ++ length l ∷ l in
    let split : l ++ 46 ∷ (name ++ 0 ∷ []) ≡ join l (m ∷ ls) ++ 0 ∷ [] =
      sym (append_assoc l (46 ∷ name) (0 ∷ [])) in
    let next : pre ++ length l ∷ (l ++ 46 ∷ (name ++ 0 ∷ [])) ≡ behind ++ 46 ∷ (name ++ 0 ∷ []) =
      sym (append_assoc pre (length l ∷ l) (46 ∷ (name ++ 0 ∷ []))) in
    let chars : length (join l (m ∷ ls)) + 1 ≡ length l + suc (length name + 1) =
      omega (arith, length-append l (46 ∷ name)) in
    ap₂ (λ k as'. trans_loop k (pre ++ s ∷ as') (length pre + 1) (length pre) 0) chars (sym split)
    ∙ one_label l pre (name ++ 0 ∷ []) s 46 (length name + 1) p small refl
    ∙ ap (λ as'. trans_loop (length name + 1) as' (length behind + 1) (length behind) 0) next
    ∙ from_first m ls behind 46 h
    ∙ ap ok (append_assoc pre (length l ∷ l) (encode (m ∷ ls)))

-- The name of one or more labels with dots between them, each without a dot or a zero and shorter
-- than 256: _trans_dns_name_into_pkt_format writes inside its buffer only, and returns each label
-- behind its length, and a 0 at the end.
pub trans-encode :
    (l : List ℕ) (ls : List (List ℕ))
    → Labels 256 (l ∷ ls)
    → trans_dns_name_into_pkt_format (some (join l ls)) ≡ ok (some (encode (l ∷ ls)))
unfolding trans_dns_name_into_pkt_format
trans-encode l ls h = ap (λ r. r >>= λ query. ok (some query)) (from_first l ls [] 0 h)

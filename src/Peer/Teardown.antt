-- ===== src/Peer/Teardown.antt =====
-- The pairing of peers is mutual, and a handler that tears a peer down leaves nothing that points
-- to it.
use poplar.Prelude.{
  ℕ, ◌≡◌, ◌≢◌, inl, inr, ap, sym, ◌∙◌, Option, none, some, arith, ◌==◌, eq_cases, Option-cases,
  if◌then◌else◌,
}
use poplar.Peer.{World, pop_peers_paired, pop_tcp_cancle_paired}

-- Every peer that is paired is what its pair is paired with.
abbrev pub Mutual : World → Type 0
Mutual w = (p q : ℕ) → (w.peers p).paired_peer ≡ some q → (w.peers q).paired_peer ≡ some p

-- Nobody is paired with `p`.
abbrev pub Alone : World → ℕ → Type 0
Alone w p = (q : ℕ) → (w.peers q).paired_peer ≢ some p

cancle_other :
    (w : World) (p q : ℕ)
    → Mutual w
    → (w.peers p).paired_peer ≡ some q
    → (r : ℕ)
    → ((pop_tcp_cancle_paired w p).peers r).paired_peer
      ≡ (if r == p then none else if r == q then none else (w.peers r).paired_peer)
unfolding pop_tcp_cancle_paired
cancle_other w p q m e r = rw e (ground arith)

pub cancle_self : (w : World) (p : ℕ) → ((pop_tcp_cancle_paired w p).peers p).paired_peer ≡ none
unfolding pop_tcp_cancle_paired
cancle_self w p = ground arith

cancle_away :
    (w : World) (p r : ℕ)
    → (w.peers p).paired_peer ≡ none
    → r ≢ p
    → ((pop_tcp_cancle_paired w p).peers r).paired_peer ≡ (w.peers r).paired_peer
unfolding pop_tcp_cancle_paired
cancle_away w p r e ne = rw e (ground (arith, ne))

cancle_none :
    (w : World) (p r : ℕ)
    → (w.peers p).paired_peer ≡ none
    → ((pop_tcp_cancle_paired w p).peers r).paired_peer ≡ (w.peers r).paired_peer
cancle_none w p r e = elim (eq_cases r p) [
  | inl s ↦ rw s (cancle_self w p ∙ sym e)
  | inr ne ↦ cancle_away w p r e ne
]

split_if :
    (r p q x : ℕ) (o : Option ℕ)
    → (if r == p then none else if r == q then none else o) ≡ some x
    → (r ≢ p) × (r ≢ q) × (o ≡ some x)
split_if r p q x o h = (ground arith, ground arith, ground (arith, h))

skip_if :
    (r p q : ℕ) (o : Option ℕ)
    → r ≢ p
    → r ≢ q
    → (if r == p then none else if r == q then none else o) ≡ o
skip_if r p q o m n = ground arith

some_eq : {a b : ℕ} → some a ≡ some b → a ≡ b
some_eq {a} e = ap (λ o. elim o [ none ↦ a | some x ↦ x ]) e

pub Alone-cancle : (w : World) (p : ℕ) → Mutual w → Alone (pop_tcp_cancle_paired w p) p
Alone-cancle w p m r e = elim (Option-cases (w.peers p).paired_peer) [
  | inl n ↦ let h = m r p (sym (cancle_none w p r n) ∙ e) in cc
  | inr (q, s) ↦
      let (a, b, h) = split_if r p q p _ (sym (cancle_other w p q m s r) ∙ e) in
      b (some_eq (sym (m r p h) ∙ s))
]

pub Mutual-cancle : (w : World) (p : ℕ) → Mutual w → Mutual (pop_tcp_cancle_paired w p)
Mutual-cancle w p m a b e = elim (Option-cases (w.peers p).paired_peer) [
  | inl n ↦ cancle_none w p b n ∙ m a b (sym (cancle_none w p a n) ∙ e)
  | inr (q, s) ↦
      let (ap', aq, h) = split_if a p q b _ (sym (cancle_other w p q m s a) ∙ e) in
      let back = m a b h in
      let bp = λ (y : b ≡ p). aq (some_eq (sym back ∙ ap (λ t. (w.peers t).paired_peer) y ∙ s)) in
      let bq =
        λ (y : b ≡ q). ap' (some_eq (sym back ∙ ap (λ t. (w.peers t).paired_peer) y ∙ m p q s)) in
      cancle_other w p q m s b ∙ skip_if b p q _ bp bq ∙ back
]

pub Alone-transfer :
    (w u : World) (p : ℕ)
    → ((q : ℕ) → (u.peers q).paired_peer ≡ (w.peers q).paired_peer)
    → Alone w p
    → Alone u p
Alone-transfer w u p e a q h = a q (sym (e q) ∙ h)

paired_at :
    (w : World) (p1 p2 r : ℕ)
    → ((pop_peers_paired w p1 p2).peers r).paired_peer
      ≡ (if r == p2 then some p1 else if r == p1 then some p2 else (w.peers r).paired_peer)
unfolding pop_peers_paired
paired_at w p1 p2 r = ground arith

-- Where every pairing is mutual, pop_peers_paired of two peers that are paired with nobody makes
-- them each other's pair and keeps every pairing mutual.
pub paired-Mutual :
    (w : World) (p1 p2 : ℕ)
    → Mutual w
    → (w.peers p1).paired_peer ≡ none
    → (w.peers p2).paired_peer ≡ none
    → (((pop_peers_paired w p1 p2).peers p1).paired_peer ≡ some p2)
      × (((pop_peers_paired w p1 p2).peers p2).paired_peer ≡ some p1)
      × Mutual (pop_peers_paired w p1 p2)
paired-Mutual w p1 p2 m n1 n2 = (
  paired_at w p1 p2 p1 ∙ ground arith,
  paired_at w p1 p2 p2 ∙ ground arith,
  λ a b e.
      paired_at w p1 p2 b
      ∙ paired_back p1 p2 a b _ _ (sym (paired_at w p1 p2 a) ∙ e) (m a b)
          (λ s. sym (ap (λ t. (w.peers t).paired_peer) s) ∙ n1)
          (λ s. sym (ap (λ t. (w.peers t).paired_peer) s) ∙ n2),
)
  where
    paired_back :
        (p1 p2 a b : ℕ) (oa ob : Option ℕ)
        → (if a == p2 then some p1 else if a == p1 then some p2 else oa) ≡ some b
        → (oa ≡ some b → ob ≡ some a)
        → (p1 ≡ b → ob ≡ none)
        → (p2 ≡ b → ob ≡ none)
        → (if b == p2 then some p1 else if b == p1 then some p2 else ob) ≡ some a
    paired_back p1 p2 a b oa ob e back m1 m2 = ground (arith, e, back, m1, m2)

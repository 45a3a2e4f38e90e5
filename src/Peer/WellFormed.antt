-- ===== src/Peer/WellFormed.antt =====
-- The invariant of the peers, and that every handler keeps it.
use poplar.Prelude.{
  ℕ, ◌≤◌, ◌≡◌, ◌≢◌, inl, inr, refl, ap, sym, subst, ◌∙◌, Bool, none, arith, ==-refl, eq_cases,
  Option-cases, Bool-cases,
}
use poplar.Prelude.Int.{ℤ, negsuc}
use poplar.Stream.Valid.{verify_sane_ok}
use poplar.Stream.Valid
use poplar.Peer.{Peer, World, modify, pop_tcp_cancle_paired, close_if}
use poplar.Peer.Teardown.{Mutual, Mutual-cancle}

-- What holds of each peer by itself.
pub record IsSound (s : Peer) : Type 0 where
  pub client : (1 ≤ s.tcp_client_status) × (s.tcp_client_status ≤ 3)
  pub server : (1 ≤ s.tcp_server_status) × (s.tcp_server_status ≤ 2)
  pub buffer : Valid.IsValid s.recv_buffer

pub record WellFormed (w : World) : Type 0 where
  pub paired : Mutual w
  pub sound : (p : ℕ) → IsSound (w.peers p)

pub modify_self : (w : World) (p : ℕ) (f : Peer → Peer) → (modify w p f).peers p ≡ f (w.peers p)
modify_self w p f = rw (==-refl p)

modify_ne : (w : World) (p q : ℕ) (f : Peer → Peer) → q ≢ p → (modify w p f).peers q ≡ w.peers q
modify_ne w p q f ne = ground arith

modify_all {ℓ} :
    (P : Peer → Type ℓ) (w : World) (p : ℕ) (f : Peer → Peer)
    → ((q : ℕ) → P (w.peers q))
    → P (f (w.peers p))
    → (q : ℕ) → P ((modify w p f).peers q)
modify_all P w p f all here q = elim (eq_cases q p) [
  | inl s ↦ subst (λ t. P ((modify w p f).peers t)) (sym s) (subst P (sym (modify_self w p f)) here)
  | inr ne ↦ subst P (sym (modify_ne w p q f ne)) (all q)
]

-- A part of a peer that a write leaves alone.
pub modify_kept {ℓ} :
    {B : Type ℓ} (g : Peer → B) (w : World) (p : ℕ) (f : Peer → Peer)
    → g (f (w.peers p)) ≡ g (w.peers p)
    → (q : ℕ) → g ((modify w p f).peers q) ≡ g (w.peers q)
modify_kept g w p f h q = elim (eq_cases q p) [
  | inl s ↦ rw s (ap g (modify_self w p f) ∙ h)
  | inr ne ↦ ap g (modify_ne w p q f ne)
]

pub modify_paired :
    (w : World) (p : ℕ) (f : Peer → Peer)
    → (f (w.peers p)).paired_peer ≡ (w.peers p).paired_peer
    → (q : ℕ) → ((modify w p f).peers q).paired_peer ≡ (w.peers q).paired_peer
modify_paired w p f h q = modify_kept (λ s. s.paired_peer) w p f h q

pub Mutual-transfer :
    (w u : World)
    → ((q : ℕ) → (u.peers q).paired_peer ≡ (w.peers q).paired_peer)
    → Mutual w
    → Mutual u
Mutual-transfer w u e m p q h = e q ∙ m p q (sym (e p) ∙ h)

pub modify-WellFormed :
    (w : World) (p : ℕ) (f : Peer → Peer)
    → WellFormed w
    → (f (w.peers p)).paired_peer ≡ (w.peers p).paired_peer
    → IsSound (f (w.peers p))
    → WellFormed (modify w p f)
modify-WellFormed w p f v same s = record {
  paired = Mutual-transfer w (modify w p f) (modify_paired w p f same) v.paired;
  sound = modify_all IsSound w p f v.sound s;
}

-- A change of a peer that leaves what soundness reads.
pub kept-IsSound :
    (s t : Peer)
    → IsSound s
    → t.tcp_client_status ≡ s.tcp_client_status
    → t.tcp_server_status ≡ s.tcp_server_status
    → t.recv_buffer ≡ s.recv_buffer
    → IsSound t
kept-IsSound s t v c d b = record {
  client = omega (arith, c, v.client);
  server = omega (arith, d, v.server);
  buffer = subst Valid.IsValid (sym b) v.buffer;
}

-- A write to one peer of what neither soundness nor the pairing reads.
pub plain-WellFormed :
    (w : World) (p : ℕ) (f : Peer → Peer)
    → WellFormed w
    → ((s : Peer) → (f s).paired_peer ≡ s.paired_peer)
    → ((s : Peer) → (f s).tcp_client_status ≡ s.tcp_client_status)
    → ((s : Peer) → (f s).tcp_server_status ≡ s.tcp_server_status)
    → ((s : Peer) → (f s).recv_buffer ≡ s.recv_buffer)
    → WellFormed (modify w p f)
plain-WellFormed w p f v a c d b =
    let s : Peer = w.peers p in
    modify-WellFormed w p f v (a s) (kept-IsSound s (f s) (v.sound p) (c s) (d s) (b s))

unpaired_all :
    (w : World) (p : ℕ)
    → ((q : ℕ) → IsSound (w.peers q))
    → (q : ℕ) → IsSound ((modify w p (λ s. record s { paired_peer = none })).peers q)
unpaired_all w p all =
    modify_all IsSound w p (λ s. record s { paired_peer = none }) all
      (kept-IsSound (w.peers p) _ (all p) refl refl refl)

cancle-IsSound :
    (w : World) (p : ℕ)
    → ((q : ℕ) → IsSound (w.peers q))
    → (q : ℕ) → IsSound ((pop_tcp_cancle_paired w p).peers q)
unfolding pop_tcp_cancle_paired
cancle-IsSound w p all = elim (Option-cases (w.peers p).paired_peer) [
  | inl n ↦ rw n (unpaired_all w p all)
  | inr (r, s) ↦
      rw s
        (unpaired_all (modify w r (λ s. record s { paired_peer = none })) p (unpaired_all w r all))
]

pub cancle-WellFormed : (w : World) (p : ℕ) → WellFormed w → WellFormed (pop_tcp_cancle_paired w p)
cancle-WellFormed w p v = record {
  paired = Mutual-cancle w p v.paired;
  sound = cancle-IsSound w p v.sound;
}

pub close-WellFormed :
    (test : ℤ → Bool) (w : World) (p : ℕ) → WellFormed w → WellFormed (close_if test w p)
close-WellFormed test w p v = elim (Bool-cases (test (w.peers p).sockfd)) [
  | inl y ↦
      let f = λ (s : Peer). record s { sockfd = negsuc 0 } in
      let m =
        modify-WellFormed w p f v refl (kept-IsSound (w.peers p) _ (v.sound p) refl refl refl) in
      rw y (record { paired = m.paired; sound = m.sound })
  | inr n ↦ rw n v
]

pub close_kept {ℓ} :
    {B : Type ℓ} (g : Peer → B) (test : ℤ → Bool) (w : World) (p q : ℕ)
    → ((s : Peer) → g (record s { sockfd = negsuc 0 }) ≡ g s)
    → g ((close_if test w p).peers q) ≡ g (w.peers q)
close_kept g test w p q h = elim (Bool-cases (test (w.peers p).sockfd)) [
  | inl y ↦ rw y (modify_kept g w p (λ s. record s { sockfd = negsuc 0 }) (h (w.peers p)) q)
  | inr n ↦ rw n
]

pub cancle_kept {ℓ} :
    {B : Type ℓ} (g : Peer → B) (w : World) (p q : ℕ)
    → ((s : Peer) → g (record s { paired_peer = none }) ≡ g s)
    → g ((pop_tcp_cancle_paired w p).peers q) ≡ g (w.peers q)
unfolding pop_tcp_cancle_paired
cancle_kept g w p q h =
    let f = λ (s : Peer). record s { paired_peer = none } in
    elim (Option-cases (w.peers p).paired_peer) [
      | inl n ↦ rw n (modify_kept g w p f (h (w.peers p)) q)
      | inr (r, e) ↦
          let v : World = modify w r f in
          rw e (modify_kept g v p f (h (v.peers p)) q ∙ modify_kept g w r f (h (w.peers r)) q)
    ]

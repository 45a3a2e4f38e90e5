-- ===== src/Peer/Handlers.antt =====
-- The handlers and the event functions return, keep the invariant, and tear a peer down whole.
use poplar.Prelude.{ℕ, ◌≡◌, refl, ap, sym, subst, ◌∙◌, Bool, false, [], Option, none, some, arith}
use poplar.Prelude.Int.{ℤ}
use poplar.Run.{ok}
use poplar.Stream.Buffer.{Stream, stream_reset}
use poplar.Stream.Valid.{verify_sane_ok}
use poplar.Stream.Valid
use poplar.Peer.{Peer, World, modify, pop_tcp_cancle_paired, close_if, teardown}
use poplar.Peer.Teardown.{Alone, Alone-cancle, Alone-transfer, cancle_self}
use poplar.Peer.WellFormed.{
  WellFormed, modify_self, modify_paired, modify-WellFormed, kept-IsSound, cancle-WellFormed,
  close-WellFormed, close_kept, cancle_kept,
}

pub reset-IsValid :
    (s : Stream) → Valid.IsValid s → (t : Stream) × (stream_reset s ≡ ok t) × Valid.IsValid t
unfolding stream_reset
reset-IsValid s v = (record s { getp = 0; endp = 0 }, rw (verify_sane_ok v), omega (arith, v))

-- A peer that is torn down: paired with none, its queues empty, its event, its
-- timer of connecting and its hold timer off.
pub record IsDown (s : Peer) : Type 0 where
  pub unpaired : s.paired_peer ≡ none
  pub no_client_info : s.tcp_client_info_list ≡ []
  pub no_server_info : s.tcp_server_info_list ≡ []
  pub no_event : s.t_event ≡ none
  pub no_connecting_timer : s.t_connecting_timer ≡ false
  pub no_holdtime : s.t_holdtime ≡ false

timers : Peer → Option ℕ × Bool × Bool
timers s = (s.t_event, s.t_connecting_timer, s.t_holdtime)

pub teardown_lem :
    (test : ℤ → Bool) (w : World) (p : ℕ)
    → WellFormed w
    → (u : World) × (teardown test w p ≡ ok u) × WellFormed u × Alone u p × IsDown (u.peers p)
unfolding teardown timers
teardown_lem test w p v =
    let quiet =
      λ (s : Peer). record s { t_holdtime = false; t_connecting_timer = false; t_event = none } in
    let off : World = modify w p quiet in
    let v1 =
      modify-WellFormed w p quiet v refl (kept-IsSound (w.peers p) _ (v.sound p) refl refl refl) in
    let apart : World = pop_tcp_cancle_paired off p in
    let v2 = cancle-WellFormed off p v1 in
    let shut : World = close_if test apart p in
    let v3 = close-WellFormed test apart p v2 in
    let still : timers (shut.peers p) ≡ (none, false, false) =
      close_kept timers test apart p p (λ s. refl)
      ∙ cancle_kept timers off p p (λ s. refl)
      ∙ ap timers (modify_self w p quiet) in
    let (buffer, runs, vb) = reset-IsValid (shut.peers p).recv_buffer (v3.sound p).buffer in
    let clear = λ (s : Peer). record s {
      tcp_client_info_list = [];
      tcp_server_info_list = [];
      recv_buffer = buffer;
      addr_res = none;
      addr_ptr = elim s.addr_res [ none ↦ s.addr_ptr | some a ↦ none ];
    } in
    let u : World = modify shut p clear in
    (
      u,
      rw runs,
      modify-WellFormed shut p clear v3 refl
          (record { client = (v3.sound p).client; server = (v3.sound p).server; buffer = vb }),
      Alone-transfer apart u p
          (λ q.
            modify_paired shut p clear refl q
            ∙ close_kept (λ s. s.paired_peer) test apart p q (λ s. refl))
          (Alone-cancle off p v1.paired),
      subst IsDown (sym (modify_self shut p clear)) (record {
        unpaired = close_kept (λ s. s.paired_peer) test apart p p (λ s. refl) ∙ cancle_self off p;
        no_client_info = refl;
        no_server_info = refl;
        no_event = ap (λ t. t.0) still;
        no_connecting_timer = ap (λ t. t.1) still;
        no_holdtime = ap (λ t. t.2) still;
      }),
    )

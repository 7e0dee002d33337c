-- ===== src/Paired/Failover.antt =====
-- TrunkLink.cpp: to which host a message goes.
use geu_reflector.Base.{
  ℕ, zero, suc, ◌+◌, ◌%◌, ◌<◌, ◌≡◌, refl, sym, ap, subst, ◌∙◌, true, List, [], ◌∷◌, some, length,
  get_elem?, update_at, Option-cases, and_true, All, inl, inr, arith,
}
use native.Mathlib.Nat.{mod-eq_of_lt}
use geu_reflector.Trunk.State.{
  Msg, Effect, do_effect, paired_written, outbound, heartbeat_tx_cnt_reset,
}
use geu_reflector.Wire.Peers.{packs}
use geu_reflector.Paired.State.{
  PairedLink, PairedClientState, is_live_at, next_live, send_msg_on_paired_outbound,
  send_msg_paired, paired_outbound_ready,
}
use geu_reflector.Paired.Cyclic.{IsNext, next_live-found, is_live_at-bound}

-- A message written to the host at `idx`, and to nobody else.
pub record WrittenTo (idx : ℕ) (m : Msg) (p p' : PairedLink) : Type 0 where
  pub shared : p'.shared ≡ do_effect (paired_written outbound idx m) p.shared
  pub sticky : p'.sticky ≡ idx
  pub ib : p'.ib ≡ p.ib
  pub ob : p'.ob ≡ update_at idx (λ c. record c { hb_tx_cnt = heartbeat_tx_cnt_reset }) p.ob

live-client :
    (idx : ℕ) (cs : List PairedClientState)
    → is_live_at idx cs ≡ true
    → (c : PairedClientState) × (get_elem? cs idx ≡ some c) × (c.is_connected ≡ true)
live-client idx cs h = elim (Option-cases (get_elem? cs idx)) [
  | inl e ↦ absurd (ground (arith, rw (is_live_at, e) at h))
  | inr (c, e) ↦ (c, e, (and_true c.is_connected c.hello_received (rw (is_live_at, e) at h)).0)
]

send_on_outbound-WrittenTo :
    (idx : ℕ) (m : Msg) (p : PairedLink)
    → packs m ≡ true
    → is_live_at idx p.ob ≡ true
    → WrittenTo idx m p (send_msg_on_paired_outbound idx m (record p { sticky = idx }))
unfolding send_msg_on_paired_outbound
send_on_outbound-WrittenTo idx m p ok h =
    let (c, e, up) = live-client idx p.ob h in
    rw (send_msg_on_paired_outbound, e, up, ok)
      (record { shared = refl; sticky = refl; ib = refl; ob = refl })

send_paired-found :
    (m : Msg) (p : PairedLink) (idx : ℕ)
    → next_live (length p.ob) 0 p.sticky p.ob ≡ some idx
    → send_msg_paired m p ≡ send_msg_on_paired_outbound idx m (record p { sticky = idx })
unfolding send_msg_paired
send_paired-found m p idx e = rw (send_msg_paired, e) refl

-- A message that packs is written once, to the first live host from the sticky one on, which
-- becomes the sticky one, where some host is live and the sticky place is one of the hosts.
pub send_msg_paired-IsNext :
    (m : Msg) (p : PairedLink)
    → packs m ≡ true
    → p.sticky < length p.ob
    → paired_outbound_ready p ≡ true
    → (idx : ℕ) × IsNext p.sticky p.ob idx × WrittenTo idx m p (send_msg_paired m p)
unfolding paired_outbound_ready
send_msg_paired-IsNext m p ok s h =
    let (idx, e, next) = next_live-found p.sticky p.ob s h in
    (
      idx,
      next,
      subst (WrittenTo idx m p) (sym (send_paired-found m p idx e))
          (send_on_outbound-WrittenTo idx m p ok next.live),
    )

-- The sticky host, as long as it is live.
next_live-sticky :
    (sticky : ℕ) (cs : List PairedClientState)
    → is_live_at sticky cs ≡ true
    → next_live (length cs) 0 sticky cs ≡ some sticky
unfolding next_live
next_live-sticky sticky [] h = absurd (ground arith)
next_live-sticky sticky (c ∷ cs) h =
    let here : (sticky + 0) % length (c ∷ cs) ≡ sticky =
      ap (λ i. i % length (c ∷ cs)) (omega arith)
      ∙ mod-eq_of_lt (is_live_at-bound sticky (c ∷ cs) h) in
    rw (here, h) refl

send_msg_paired-sticky :
    (m : Msg) (p : PairedLink)
    → packs m ≡ true
    → is_live_at p.sticky p.ob ≡ true
    → WrittenTo p.sticky m p (send_msg_paired m p)
send_msg_paired-sticky m p ok h =
    subst (WrittenTo p.sticky m p)
      (sym (send_paired-found m p p.sticky (next_live-sticky p.sticky p.ob h)))
      (send_on_outbound-WrittenTo p.sticky m p ok h)

-- Counting the heartbeat anew makes no host live or dead.
reset-is_live_at :
    (i j n : ℕ) (cs : List PairedClientState)
    → is_live_at j (update_at i (λ c. record c { hb_tx_cnt = n }) cs) ≡ is_live_at j cs
reset-is_live_at i j n [] = refl
reset-is_live_at zero zero n (c ∷ cs) = refl
reset-is_live_at zero (suc j) n (c ∷ cs) = refl
reset-is_live_at (suc i) zero n (c ∷ cs) = refl
reset-is_live_at (suc i) (suc j) n (c ∷ cs) = reset-is_live_at i j n cs

abbrev pub send_all : List Msg → PairedLink → PairedLink
send_all [] p = p
send_all (m ∷ ms) p = send_all ms (send_msg_paired m p)

-- The effects of messages written one after the other to one host.
abbrev pub all_written : ℕ → List Msg → List Effect → List Effect
all_written idx [] out = out
all_written idx (m ∷ ms) out = all_written idx ms (paired_written outbound idx m ∷ out)

-- Messages that pack all go to the sticky host, in their order, while it is live.
send_all-sticky :
    (ms : List Msg) (p : PairedLink)
    → All (λ m. packs m ≡ true) ms
    → is_live_at p.sticky p.ob ≡ true
    → ((send_all ms p).shared.out ≡ all_written p.sticky ms p.shared.out)
      × ((send_all ms p).sticky ≡ p.sticky)
send_all-sticky [] p ok h = (refl, refl)
send_all-sticky (m ∷ ms) p ok h =
    let w = send_msg_paired-sticky m p ok.0 h in
    let still : is_live_at (send_msg_paired m p).sticky (send_msg_paired m p).ob ≡ true =
      rw (w.sticky, w.ob) (reset-is_live_at p.sticky p.sticky heartbeat_tx_cnt_reset p.ob ∙ h) in
    let rest = send_all-sticky ms (send_msg_paired m p) ok.1 still in
    (
      rest.0
          ∙ ap (λ i. all_written i ms (send_msg_paired m p).shared.out) w.sticky
          ∙ ap (λ l. all_written p.sticky ms l.out) w.shared,
      rest.1 ∙ w.sticky,
    )

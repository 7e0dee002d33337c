-- ===== src/Paired/Lost.antt =====
-- TrunkLink.cpp: messages after the connection to a host is lost.
use geu_reflector.Base.{
  ℕ, zero, suc, ◌+◌, ◌<◌, ◌≡◌, refl, sym, ◌∙◌, true, false, List, [], ◌∷◌, length, get_elem?,
  update_at, length-update_at, ◌==◌, if◌then◌else◌, Bool-cases, Option-cases, inl, inr, arith,
}
use native.Mathlib.Nat.{mod-lt}
use geu_reflector.Trunk.State.{Msg}
use geu_reflector.Wire.Peers.{packs}
use geu_reflector.Paired.State.{
  PairedLink, PairedClientState, is_live_at, send_msg_paired, paired_outbound_ready,
}
use geu_reflector.Paired.Connect.{on_paired_outbound_disconnected}
use geu_reflector.Paired.Cyclic.{is_live_at-any}
use geu_reflector.Paired.Failover.{WrittenTo, send_msg_paired-IsNext}

-- What is left of a host whose connection is lost.
abbrev lose : PairedClientState → PairedClientState
lose c = record c { is_connected = false; hello_received = false; hb_tx_cnt = 0; hb_rx_cnt = 0 }

lose-is_live_at :
    (i j : ℕ) (cs : List PairedClientState)
    → is_live_at j (update_at i lose cs) ≡ (if j == i then false else is_live_at j cs)
lose-is_live_at i j [] = ground arith
lose-is_live_at zero zero (c ∷ cs) = refl
lose-is_live_at zero (suc j) (c ∷ cs) = ground arith
lose-is_live_at (suc i) zero (c ∷ cs) = ground arith
lose-is_live_at (suc i) (suc j) (c ∷ cs) = lose-is_live_at i j cs ∙ ground arith

-- The sticky place stays one of the hosts.
pub disconnected-sticky :
    (idx : ℕ) (p : PairedLink)
    → p.sticky < length p.ob
    → (on_paired_outbound_disconnected idx p).sticky
      < length (on_paired_outbound_disconnected idx p).ob
unfolding on_paired_outbound_disconnected
disconnected-sticky idx p h = elim (Option-cases (get_elem? p.ob idx)) [
  | inl e ↦ rw (on_paired_outbound_disconnected, e) h
  | inr (c, e) ↦
      rw (on_paired_outbound_disconnected, e, length-update_at idx lose p.ob)
        (elim (Bool-cases (p.sticky == idx)) [
          | inl s ↦ rw s (mod-lt (idx + 1) (omega arith))
          | inr s ↦ rw s h
        ])
]

disconnected-ob :
    (idx j : ℕ) (p : PairedLink)
    → is_live_at j (on_paired_outbound_disconnected idx p).ob
      ≡ (if j == idx then false else is_live_at j p.ob)
unfolding on_paired_outbound_disconnected
disconnected-ob idx j p = elim (Option-cases (get_elem? p.ob idx)) [
  | inl e ↦
      rw (on_paired_outbound_disconnected, e)
        (elim (Bool-cases (j == idx)) [
          | inl s ↦ let same : j ≡ idx = ground arith in rw (s, same, is_live_at, e) refl
          | inr s ↦ rw s refl
        ])
  | inr (c, e) ↦ rw (on_paired_outbound_disconnected, e) (lose-is_live_at idx j p.ob)
]

-- When the connection to a host is lost and another host is live, the next message that packs is
-- written to a host that is live and not the lost one, where the sticky place was one of the hosts.
pub on_paired_outbound_disconnected-WrittenTo :
    (m : Msg) (idx other : ℕ) (p : PairedLink)
    → packs m ≡ true
    → p.sticky < length p.ob
    → (other == idx) ≡ false
    → is_live_at other p.ob ≡ true
    → (new : ℕ) × ((new == idx) ≡ false)
      × (is_live_at new p.ob ≡ true)
      × WrittenTo new m
          (on_paired_outbound_disconnected idx p)
          (send_msg_paired m (on_paired_outbound_disconnected idx p))
unfolding paired_outbound_ready
on_paired_outbound_disconnected-WrittenTo m idx other p ok s apart h =
    let q = on_paired_outbound_disconnected idx p in
    let left : is_live_at other q.ob ≡ true = disconnected-ob idx other p ∙ rw apart h in
    let (new, next, written) =
      send_msg_paired-IsNext m q ok (disconnected-sticky idx p s)
        (is_live_at-any other q.ob left) in
    let live : (if new == idx then false else is_live_at new p.ob) ≡ true =
      sym (disconnected-ob idx new p) ∙ next.live in
    (new, ground arith, ground arith, written)

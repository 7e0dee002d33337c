-- ===== src/Paired/Timeout.antt =====
-- TrunkLink.cpp: inbound connections of a link with several hosts that fall silent.
use geu_reflector.Base.{
  ℕ, zero, suc, ◌≡◌, refl, ap, ◌∙◌, Bool, false, ◌||◌, List, [], ◌∷◌, some, get_elem?, update_at,
  update_at-there, ◌==◌, Bool-cases, Option-cases, inl, inr,
}
use geu_reflector.Trunk.State.{
  Msg, Effect, paired_disconnected, inbound, heartbeat, dec32, heartbeat_tx_cnt_reset,
}
use geu_reflector.Wire.Peers.{packs}
use geu_reflector.Paired.State.{
  PairedLink, PairedInboundState, send_msg_on_paired_inbound, paired_inbound_ready, any_greeted,
}
use geu_reflector.Paired.Heartbeat.{
  paired_inbound_tick, paired_inbound_tx_tick, paired_inbound_rx_tick,
}

-- A change that keeps `hello_received` keeps what `isInboundReady` reads.
update-any_greeted :
    (f : PairedInboundState → PairedInboundState)
    → ((c : PairedInboundState) → (f c).hello_received ≡ c.hello_received)
    → (i : ℕ) (cs : List PairedInboundState) → any_greeted (update_at i f cs) ≡ any_greeted cs
unfolding any_greeted
update-any_greeted f h i [] = refl
update-any_greeted f h zero (c ∷ cs) = ap (λ b. b || any_greeted cs) (h c)
update-any_greeted f h (suc i) (c ∷ cs) = ap (◌||◌ c.hello_received) (update-any_greeted f h i cs)

send_on_inbound-ready :
    (i : ℕ) (m : Msg) (p : PairedLink)
    → paired_inbound_ready (send_msg_on_paired_inbound i m p) ≡ paired_inbound_ready p
unfolding send_msg_on_paired_inbound paired_inbound_ready
send_on_inbound-ready i m p = elim (Option-cases (get_elem? p.ib i)) [
  | inl e ↦ rw (send_msg_on_paired_inbound, e) refl
  | inr (c, e) ↦ elim (Bool-cases c.is_connected) [
    | inr down ↦ rw (send_msg_on_paired_inbound, e, down) refl
    | inl up ↦ elim (Bool-cases (packs m)) [
      | inr bad ↦ rw (send_msg_on_paired_inbound, e, up, bad) refl
      | inl ok ↦
          rw (send_msg_on_paired_inbound, e, up, ok)
            (update-any_greeted (λ c'. record c' { hb_tx_cnt = heartbeat_tx_cnt_reset })
              (λ c'. refl) i p.ib)
    ]
  ]
]

tx_tick-ready :
    (i cnt : ℕ) (p : PairedLink)
    → paired_inbound_ready (paired_inbound_tx_tick i cnt p) ≡ paired_inbound_ready p
unfolding paired_inbound_tx_tick paired_inbound_ready
tx_tick-ready i cnt p =
    let counted = update-any_greeted (λ c. record c { hb_tx_cnt = dec32 cnt }) (λ c. refl) i p.ib in
    elim (Bool-cases (dec32 cnt == 0)) [
      | inr e ↦ rw e counted
      | inl e ↦ rw e (send_on_inbound-ready i heartbeat _ ∙ counted)
    ]

rx_tick-ready :
    (i con cnt : ℕ) (p : PairedLink)
    → paired_inbound_ready (paired_inbound_rx_tick i con cnt p) ≡ paired_inbound_ready p
unfolding paired_inbound_rx_tick paired_inbound_ready
rx_tick-ready i con cnt p =
    let counted = update-any_greeted (λ c. record c { hb_rx_cnt = dec32 cnt }) (λ c. refl) i p.ib in
    elim (Bool-cases (dec32 cnt == 0)) [
      | inr e ↦ rw e counted
      | inl e ↦
          rw e
            (update-any_greeted (λ c. record c { is_connected = false }) (λ c. refl) i _ ∙ counted)
    ]

-- The tick of an inbound connection, also one that times out and is disconnected, changes nothing
-- of what `isInboundReady` says.
paired_inbound_tick-ready :
    (i : ℕ) (any_con : Bool) (p : PairedLink)
    → paired_inbound_ready (paired_inbound_tick i (any_con, p)).1 ≡ paired_inbound_ready p
unfolding paired_inbound_tick
paired_inbound_tick-ready i any_con p = elim (Option-cases (get_elem? p.ib i)) [
  | inl e ↦ rw (paired_inbound_tick, e) refl
  | inr (c, e) ↦ elim (Bool-cases (c.hb_rx_cnt == 0)) [
    | inl z ↦ rw (paired_inbound_tick, e, z) refl
    | inr z ↦
        rw (paired_inbound_tick, e, z)
          (rx_tick-ready i c.con c.hb_rx_cnt (paired_inbound_tx_tick i c.hb_tx_cnt p)
            ∙ tx_tick-ready i c.hb_tx_cnt p)
  ]
]

-- The connection at a place, with this `hello_received`.
record Stays (i : ℕ) (greeted : Bool) (cs : List PairedInboundState) : Type 0 where
  con : PairedInboundState
  there : get_elem? cs i ≡ some con
  same : con.hello_received ≡ greeted

update-Stays :
    (i : ℕ) (greeted : Bool) (f : PairedInboundState → PairedInboundState)
    (cs : List PairedInboundState)
    → ((c : PairedInboundState) → (f c).hello_received ≡ c.hello_received)
    → Stays i greeted cs
    → Stays i greeted (update_at i f cs)
update-Stays i greeted f cs h s = record {
  con = f s.con;
  there = update_at-there i f cs s.con s.there;
  same = h s.con ∙ s.same;
}

send_on_inbound-Stays :
    (i : ℕ) (greeted : Bool) (m : Msg) (p : PairedLink)
    → Stays i greeted p.ib
    → Stays i greeted (send_msg_on_paired_inbound i m p).ib
unfolding send_msg_on_paired_inbound
send_on_inbound-Stays i greeted m p s = elim (Bool-cases s.con.is_connected) [
  | inr down ↦ rw (send_msg_on_paired_inbound, s.there, down) s
  | inl up ↦ elim (Bool-cases (packs m)) [
    | inr bad ↦ rw (send_msg_on_paired_inbound, s.there, up, bad) s
    | inl ok ↦
        rw (send_msg_on_paired_inbound, s.there, up, ok)
          (update-Stays i greeted (λ c. record c { hb_tx_cnt = heartbeat_tx_cnt_reset }) p.ib
            (λ c. refl) s)
  ]
]

tx_tick-Stays :
    (i cnt : ℕ) (greeted : Bool) (p : PairedLink)
    → Stays i greeted p.ib
    → Stays i greeted (paired_inbound_tx_tick i cnt p).ib
unfolding paired_inbound_tx_tick
tx_tick-Stays i cnt greeted p s =
    let t = update-Stays i greeted (λ c. record c { hb_tx_cnt = dec32 cnt }) p.ib (λ c. refl) s in
    elim (Bool-cases (dec32 cnt == 0)) [
      | inr e ↦ rw e t
      | inl e ↦ rw e (send_on_inbound-Stays i greeted heartbeat _ t)
    ]

-- The connection that was at a place is closed, and its disconnect is the newest of what was done;
-- its entry stays, with `hello_received`.
pub record TimedOut (i : ℕ) (c : PairedInboundState) (p p' : PairedLink) : Type 0 where
  con : PairedInboundState
  there : get_elem? p'.ib i ≡ some con
  closed : con.is_connected ≡ false
  greeted : con.hello_received ≡ c.hello_received
  older : List Effect
  told : p'.shared.out ≡ paired_disconnected inbound c.con ∷ older
  ready : paired_inbound_ready p' ≡ paired_inbound_ready p

rx_tick-closed :
    (i con : ℕ) (greeted : Bool) (p : PairedLink)
    → Stays i greeted p.ib
    → (c : PairedInboundState) × (get_elem? (paired_inbound_rx_tick i con 1 p).ib i ≡ some c)
      × (c.is_connected ≡ false)
      × (c.hello_received ≡ greeted)
      × ((paired_inbound_rx_tick i con 1 p).shared.out
          ≡ paired_disconnected inbound con ∷ p.shared.out)
unfolding paired_inbound_rx_tick
rx_tick-closed i con greeted p s =
    let t = update-Stays i greeted (λ c. record c { hb_rx_cnt = 0 }) p.ib (λ c. refl) s in
    let last = update_at-there i (λ c. record c { is_connected = false }) _ t.con t.there in
    (record t.con { is_connected = false }, last, refl, t.same, refl)

-- The tick in which the count of an inbound connection runs out closes it, with the disconnect as
-- the last of its effects, but leaves its entry at its place, with `hello_received`; so
-- `isInboundReady` says of the link what it said before.
pub paired_inbound_tick-timeout :
    (i : ℕ) (any_con : Bool) (c : PairedInboundState) (p : PairedLink)
    → get_elem? p.ib i ≡ some c
    → c.hb_rx_cnt ≡ 1
    → TimedOut i c p (paired_inbound_tick i (any_con, p)).1
unfolding paired_inbound_tick
paired_inbound_tick-timeout i any_con c p e one =
    let q = paired_inbound_tx_tick i c.hb_tx_cnt p in
    let (c', there, closed, greeted, told) = rx_tick-closed i c.con c.hello_received q (
      tx_tick-Stays i c.hb_tx_cnt c.hello_received p
        (record { con = c; there = e; same = refl })) in
    let ticked : (paired_inbound_tick i (any_con, p)).1 ≡ paired_inbound_rx_tick i c.con 1 q =
      rw (paired_inbound_tick, e, one) refl in
    record {
      con = c';
      there = rw ticked there;
      closed = closed;
      greeted = greeted;
      older = q.shared.out;
      told = rw ticked told;
      ready = paired_inbound_tick-ready i any_con p;
    }

-- ===== src/Twin/Silence.antt =====
-- TwinLink.cpp: a twin that says nothing.
use geu_reflector.Base.{
  ℕ, zero, suc, ◌+◌, ◌≡◌, refl, ◌∙◌, sym, ap, subst, Bool, true, false, not, ◌&&◌, ◌||◌, List, [],
  ◌∷◌, Option, none, some, is_some, is_empty, leb, ltb, if◌then◌else◌, Bool-cases, inl, inr, arith,
}
use geu_reflector.Nodes.Entry.{NodeEntry}
use geu_reflector.Twin.State.{
  TwinLink, is_inbound_open, is_twin_active, send_on_twin_outbound, send_on_twin_inbound,
  twin_hb_rx_threshold,
}
use geu_reflector.Twin.Connect.{
  clear_partner_roster_if_inactive, twin_outbound_tx_tick, twin_outbound_rx_tick,
  twin_outbound_tick, twin_inbound_tx_tick, twin_inbound_rx_tick, twin_inbound_tick,
  stop_idle_timer, twin_heartbeat_tick,
}

-- A connection that ends by silence in some ticks: it is closed, or its counter is below the
-- threshold and reaches it in so many ticks.
abbrev pub is_waning : ℕ → Bool → ℕ → Bool
is_waning n is_open cnt =
    not is_open || (ltb cnt twin_hb_rx_threshold && leb twin_hb_rx_threshold (cnt + n))

-- Both connections end by silence; where there is an accepted connection, it is open.
pub record Waning (n : ℕ) (l : TwinLink) : Type 0 where
  pub outbound : is_waning n l.con_connected l.ob_hb_rx_cnt ≡ true
  pub inbound : is_waning n (is_some l.inbound_con) l.ib_hb_rx_cnt ≡ true
  pub live : is_some l.inbound_con ≡ is_inbound_open l

-- What the ticks of the outbound connection leave alone.
record SameInbound (l l' : TwinLink) : Type 0 where
  pub con : l'.inbound_con ≡ l.inbound_con
  pub connected : l'.inbound_connected ≡ l.inbound_connected
  pub count : l'.ib_hb_rx_cnt ≡ l.ib_hb_rx_cnt

outbound_tick-SameInbound : (l : TwinLink) → SameInbound l (twin_outbound_tick l)
unfolding twin_outbound_tick twin_outbound_rx_tick twin_outbound_tx_tick send_on_twin_outbound
outbound_tick-SameInbound l = record {
  con = ground arith;
  connected = ground arith;
  count = ground arith;
}

outbound_tx-same :
    (l : TwinLink)
    → ((twin_outbound_tx_tick l).con_connected ≡ l.con_connected)
      × ((twin_outbound_tx_tick l).ob_hb_rx_cnt ≡ l.ob_hb_rx_cnt)
unfolding twin_outbound_tx_tick send_on_twin_outbound
outbound_tx-same l = (ground arith, ground arith)

inbound_tx-same :
    (l : TwinLink)
    → ((twin_inbound_tx_tick l).con_connected ≡ l.con_connected)
      × ((twin_inbound_tx_tick l).ob_hb_rx_cnt ≡ l.ob_hb_rx_cnt)
      × ((twin_inbound_tx_tick l).inbound_con ≡ l.inbound_con)
      × ((twin_inbound_tx_tick l).inbound_connected ≡ l.inbound_connected)
      × ((twin_inbound_tx_tick l).ib_hb_rx_cnt ≡ l.ib_hb_rx_cnt)
unfolding twin_inbound_tx_tick send_on_twin_inbound
inbound_tx-same l = (ground arith, ground arith, ground arith, ground arith, ground arith)

outbound_rx-waning :
    (n : ℕ) (l : TwinLink)
    → l.con_connected ≡ true
    → is_waning (suc n) true l.ob_hb_rx_cnt ≡ true
    → is_waning n (twin_outbound_rx_tick l).con_connected (twin_outbound_rx_tick l).ob_hb_rx_cnt
      ≡ true
unfolding twin_outbound_rx_tick
outbound_rx-waning n l c h = ground arith

outbound_tick-open :
    (l : TwinLink)
    → l.con_connected ≡ true
    → twin_outbound_tick l ≡ twin_outbound_rx_tick (twin_outbound_tx_tick l)
unfolding twin_outbound_tick
outbound_tick-open l c =
    ap (λ b. if b then twin_outbound_rx_tick (twin_outbound_tx_tick l) else l) c

outbound_tick-closed : (l : TwinLink) → l.con_connected ≡ false → twin_outbound_tick l ≡ l
unfolding twin_outbound_tick
outbound_tick-closed l c =
    ap (λ b. if b then twin_outbound_rx_tick (twin_outbound_tx_tick l) else l) c

outbound_tick-waning :
    (n : ℕ) (l : TwinLink)
    → is_waning (suc n) l.con_connected l.ob_hb_rx_cnt ≡ true
    → is_waning n (twin_outbound_tick l).con_connected (twin_outbound_tick l).ob_hb_rx_cnt ≡ true
outbound_tick-waning n l h = elim (Bool-cases l.con_connected) [
  | inl c ↦
      let (a, b) = outbound_tx-same l in
      let h' : is_waning (suc n) true (twin_outbound_tx_tick l).ob_hb_rx_cnt ≡ true =
        ap (λ k. is_waning (suc n) true k) b
        ∙ (ap (λ k. is_waning (suc n) k l.ob_hb_rx_cnt) (sym c) ∙ h) in
      subst (λ k. is_waning n k.con_connected k.ob_hb_rx_cnt ≡ true) (sym (outbound_tick-open l c))
        (outbound_rx-waning n (twin_outbound_tx_tick l) (a ∙ c) h')
  | inr c ↦
      subst (λ k. is_waning n k.con_connected k.ob_hb_rx_cnt ≡ true)
        (sym (outbound_tick-closed l c)) (ap (λ k. is_waning n k l.ob_hb_rx_cnt) c)
]

inbound_rx-waning :
    (n : ℕ) (l : TwinLink)
    → is_some l.inbound_con ≡ is_inbound_open l
    → is_waning (suc n) true l.ib_hb_rx_cnt ≡ true
    → (is_waning n
          (is_some (twin_inbound_rx_tick l).inbound_con)
          (twin_inbound_rx_tick l).ib_hb_rx_cnt
        ≡ true)
      × (is_some (twin_inbound_rx_tick l).inbound_con ≡ is_inbound_open (twin_inbound_rx_tick l))
      × ((twin_inbound_rx_tick l).con_connected ≡ l.con_connected)
      × ((twin_inbound_rx_tick l).ob_hb_rx_cnt ≡ l.ob_hb_rx_cnt)
unfolding twin_inbound_rx_tick
inbound_rx-waning n l live h = (ground arith, ground arith, ground arith, ground arith)

-- The two ticks, without the timer and the roster.
abbrev ticked : TwinLink → TwinLink
ticked l = twin_inbound_tick (twin_outbound_tick l)

inbound_tick-Waning :
    (n : ℕ) (l : TwinLink)
    → is_waning n l.con_connected l.ob_hb_rx_cnt ≡ true
    → is_waning (suc n) (is_some l.inbound_con) l.ib_hb_rx_cnt ≡ true
    → is_some l.inbound_con ≡ is_inbound_open l
    → Waning n (twin_inbound_tick l)
unfolding twin_inbound_tick
inbound_tick-Waning n l o h live = elim (Bool-cases (is_inbound_open l)) [
  | inl c ↦
      let k = twin_inbound_tx_tick l in
      let (a, b, d, e, f) = inbound_tx-same l in
      let live' : is_some k.inbound_con ≡ is_inbound_open k = rw (d, e) live in
      let h' : is_waning (suc n) true k.ib_hb_rx_cnt ≡ true = rw f (rw (live, c) at h) in
      let (w, v, s, t) = inbound_rx-waning n k live' h' in
      rw c (record { outbound = rw (s, t, a, b) o; inbound = w; live = v })
  | inr c ↦
      let none_there : is_some l.inbound_con ≡ false = live ∙ c in
      rw c (record { outbound = o; inbound = rw none_there refl; live = live })
]

ticked-Waning : (n : ℕ) (l : TwinLink) → Waning (suc n) l → Waning n (ticked l)
ticked-Waning n l w =
    let s = outbound_tick-SameInbound l in
    inbound_tick-Waning n (twin_outbound_tick l) (outbound_tick-waning n l w.outbound)
      (rw (s.con, s.count) w.inbound) (rw (s.con, s.connected) w.live)

rest-Waning :
    (n : ℕ) (l : TwinLink)
    → Waning n l
    → Waning n (clear_partner_roster_if_inactive (stop_idle_timer l))
unfolding clear_partner_roster_if_inactive
rest-Waning n l w = record {
  outbound = ground (arith, w.outbound);
  inbound = ground (arith, w.inbound);
  live = ground (arith, w.live);
}

-- A link that has lost its twin: it is not active, shows no clients of it, and its timer is off.
pub record IsLost (l : TwinLink) : Type 0 where
  pub inactive : is_twin_active l ≡ false
  pub roster : l.partner_nodes ≡ []
  pub timer : l.heartbeat_timer ≡ false

closed_outbound : (b : Bool) (cnt : ℕ) → is_waning 0 b cnt ≡ true → b ≡ false
closed_outbound b cnt h = ground arith

none_there : {A : Type 0} (o : Option A) → is_some o ≡ false → o ≡ none
none_there none h = refl
none_there (some x) h = absurd (ground arith)

no_nodes : (ns : List NodeEntry) → is_empty ns ≡ true → ns ≡ []
no_nodes [] h = refl
no_nodes (n ∷ ns) h = absurd (ground arith)

rest-IsLost :
    (l : TwinLink) → Waning 0 l → IsLost (clear_partner_roster_if_inactive (stop_idle_timer l))
unfolding clear_partner_roster_if_inactive is_twin_active
rest-IsLost l w =
    let a = closed_outbound l.con_connected l.ob_hb_rx_cnt w.outbound in
    let b =
      none_there l.inbound_con (closed_outbound (is_some l.inbound_con) l.ib_hb_rx_cnt w.inbound) in
    elim (Bool-cases (is_empty l.partner_nodes)) [
      | inl e ↦
          rw (a, b, e)
            (record { inactive = refl; roster = no_nodes l.partner_nodes e; timer = refl })
      | inr e ↦ rw (a, b, e) (record { inactive = refl; roster = refl; timer = refl })
    ]

-- Ticks of the link with no frame and no new connection between them.
unfoldable pub quiet_ticks : ℕ → TwinLink → TwinLink
quiet_ticks zero l = l
quiet_ticks (suc n) l = quiet_ticks n (twin_heartbeat_tick l)

-- A twin that says nothing for as many ticks as are left to the counters of its connections: after
-- them the link is not active, shows no clients of the twin, and its timer is off, where no
-- connection begins in between.
pub quiet_ticks-IsLost : (n : ℕ) (l : TwinLink) → Waning (suc n) l → IsLost (quiet_ticks (suc n) l)
unfolding quiet_ticks twin_heartbeat_tick
quiet_ticks-IsLost zero l w = rest-IsLost (ticked l) (ticked-Waning 0 l w)
quiet_ticks-IsLost (suc n) l w =
    quiet_ticks-IsLost n (twin_heartbeat_tick l)
      (rest-Waning (suc n) (ticked l) (ticked-Waning (suc n) l w))

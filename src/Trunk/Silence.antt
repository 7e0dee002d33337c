-- ===== src/Trunk/Silence.antt =====
-- The heartbeat of TrunkLink.cpp over any number of ticks in which the peer says nothing.
use geu_reflector.Wire.Peers.{packs-heartbeat}
use geu_reflector.Base.{
  ℕ, suc, ◌+◌, ◌<◌, ◌≡◌, refl, ◌∙◌, true, false, List, [], ◌∷◌, none, some, length, ltb, ◌==◌,
  if◌then◌else◌, Bool-cases, inl, inr, arith,
}
use geu_reflector.Trunk.State.{
  World, Link, Reflector, written, outbound, heartbeat, dec32, heartbeat_tx_cnt_reset,
  is_inbound_con,
}
use geu_reflector.Trunk.Send.{send_msg_on_outbound, send_msg_on_inbound}
use geu_reflector.Trunk.Connect.{clear_active, clear_peer_talker_state, on_inbound_disconnected}
use geu_reflector.Trunk.Heartbeat.{
  outbound_tx_tick, outbound_rx_tick, outbound_tick, inbound_tx_tick, inbound_rx_tick, inbound_tick,
  heartbeat_tick,
}

-- The tick at each of the given times.
pub ticks : Reflector → List ℕ → World → World
ticks r [] w = w
ticks r (t ∷ ts) w = ticks r ts (heartbeat_tick r t w)

dec32_pos : (n : ℕ) → n < 4294967295 → dec32 (suc n) ≡ n
dec32_pos n h = omega arith

-- The outbound fields of a link.
record Same (a b : Link) : Type 0 where
  con : a.con_connected ≡ b.con_connected
  rx : a.ob_hb_rx_cnt ≡ b.ob_hb_rx_cnt
  tx : a.ob_hb_tx_cnt ≡ b.ob_hb_tx_cnt

clear_active-Same :
    (r : Reflector) (now : ℕ) (tgs : List ℕ) (w : World)
    → Same (clear_active r now tgs w).link w.link
unfolding clear_active
clear_active-Same r now [] w = record { con = refl; rx = refl; tx = refl }
clear_active-Same r now (tg ∷ tgs) w =
    let ih = clear_active-Same r now tgs _ in record { con = ih.con; rx = ih.rx; tx = ih.tx }

on_inbound_disconnected-Same :
    (r : Reflector) (now con : ℕ) (w : World)
    → Same (on_inbound_disconnected r now con w).link w.link
unfolding on_inbound_disconnected clear_peer_talker_state
on_inbound_disconnected-Same r now con w = elim (Bool-cases (is_inbound_con w.link con)) [
  | inr e ↦ rw e (record { con = refl; rx = refl; tx = refl })
  | inl e ↦
      let ih = clear_active-Same r now w.link.peer_active_tgs (record w {
        link = record w.link {
          inbound_con = none;
          ib_hello_received = false;
          ib_hb_tx_cnt = 0;
          ib_hb_rx_cnt = 0;
        };
      }) in
      rw e (record { con = ih.con; rx = ih.rx; tx = ih.tx })
]

inbound_tx_tick-Same : (l : Link) → Same (inbound_tx_tick l) l
unfolding inbound_tx_tick send_msg_on_inbound
inbound_tx_tick-Same l = record { con = ground arith; rx = ground arith; tx = ground arith }

inbound_rx_tick-Same :
    (r : Reflector) (now con : ℕ) (w : World) → Same (inbound_rx_tick r now con w).link w.link
unfolding inbound_rx_tick
inbound_rx_tick-Same r now con w = elim (Bool-cases (dec32 w.link.ib_hb_rx_cnt == 0)) [
  | inr e ↦ rw e (record { con = refl; rx = refl; tx = refl })
  | inl e ↦ rw e (
      let ih = on_inbound_disconnected-Same r now con _ in
      record { con = ih.con; rx = ih.rx; tx = ih.tx })
]

inbound_tick-Same : (r : Reflector) (now : ℕ) (w : World) → Same (inbound_tick r now w).link w.link
unfolding inbound_tick
inbound_tick-Same r now w =
    elim w.link.inbound_con
      as (λ o.
        Same
          (let w' : World = elim o [
            | none ↦ w
            | some con ↦
                if ltb 0 w.link.ib_hb_rx_cnt
                then inbound_rx_tick r now con (record w { link = inbound_tx_tick w.link })
                else w
          ] in
            w'.link)
          w.link) [
            | none ↦ record { con = refl; rx = refl; tx = refl }
            | some c ↦ elim (Bool-cases (ltb 0 w.link.ib_hb_rx_cnt)) [
              | inr z ↦ rw z (record { con = refl; rx = refl; tx = refl })
              | inl z ↦
                  let a = inbound_tx_tick-Same w.link in
                  let b =
                    inbound_rx_tick-Same r now c (record w { link = inbound_tx_tick w.link }) in
                  rw z (record { con = b.con ∙ a.con; rx = b.rx ∙ a.rx; tx = b.tx ∙ a.tx })
            ]
          ]

heartbeat_tick-Same :
    (r : Reflector) (now : ℕ) (w : World)
    → Same (heartbeat_tick r now w).link (outbound_tick w.link)
unfolding heartbeat_tick
heartbeat_tick-Same r now w =
    let a = inbound_tick-Same r now (record w { link = outbound_tick w.link }) in
    record { con = a.con; rx = a.rx; tx = a.tx }

-- One tick of a connected link whose counter is above one.
outbound_tick-live :
    (l : Link) (n : ℕ)
    → n < 4294967294
    → l.con_connected ≡ true
    → l.ob_hb_rx_cnt ≡ suc (suc n)
    → ((outbound_tick l).con_connected ≡ true) × ((outbound_tick l).ob_hb_rx_cnt ≡ suc n)
unfolding outbound_tick outbound_tx_tick outbound_rx_tick send_msg_on_outbound
outbound_tick-live l n b c h = ground arith

outbound_tick-last :
    (l : Link)
    → l.con_connected ≡ true
    → l.ob_hb_rx_cnt ≡ 1
    → (outbound_tick l).con_connected ≡ false
unfolding outbound_tick outbound_tx_tick outbound_rx_tick send_msg_on_outbound
outbound_tick-last l c h = ground arith

ticks-live :
    (r : Reflector) (times : List ℕ) (n : ℕ) (w : World)
    → w.link.con_connected ≡ true
    → w.link.ob_hb_rx_cnt ≡ suc (length times + n)
    → length times + n < 4294967295
    → ((ticks r times w).link.con_connected ≡ true) × ((ticks r times w).link.ob_hb_rx_cnt ≡ suc n)
unfolding ticks
ticks-live r [] n w c h b = (c, omega arith)
ticks-live r (u ∷ us) n w c h b =
    let one = outbound_tick-live w.link (length us + n) (omega arith) c (omega arith) in
    let same = heartbeat_tick-Same r u w in
    ticks-live r us n (heartbeat_tick r u w) (same.con ∙ one.0) (same.rx ∙ one.1) (omega arith)

-- While the peer says nothing on it, the outbound connection stays up for all but the last of the
-- ticks that its receive counter counts, and the last one closes it, for a counter of 32 bits.
heartbeat_tick-timeout :
    (r : Reflector) (times : List ℕ) (last : ℕ) (w : World)
    → w.link.con_connected ≡ true
    → w.link.ob_hb_rx_cnt ≡ suc (length times)
    → length times < 4294967295
    → ((ticks r times w).link.con_connected ≡ true)
      × ((heartbeat_tick r last (ticks r times w)).link.con_connected ≡ false)
heartbeat_tick-timeout r times last w c h b =
    let live = ticks-live r times 0 w c (omega arith) (omega arith) in
    (
      live.0,
      (heartbeat_tick-Same r last (ticks r times w)).con
          ∙ outbound_tick-last (ticks r times w).link live.0 live.1,
    )

-- One tick of a link whose transmit counter is not at its end only counts.
outbound_tick-tx :
    (l : Link) (m : ℕ)
    → m < 4294967294
    → l.con_connected ≡ true
    → 1 < l.ob_hb_rx_cnt
    → l.ob_hb_rx_cnt < 4294967296
    → l.ob_hb_tx_cnt ≡ suc (suc m)
    → (outbound_tick l).ob_hb_tx_cnt ≡ suc m
unfolding outbound_tick outbound_tx_tick outbound_rx_tick send_msg_on_outbound
outbound_tick-tx l m b c r r' h = ground arith

ticks-tx :
    (r : Reflector) (times : List ℕ) (m n : ℕ) (w : World)
    → w.link.con_connected ≡ true
    → w.link.ob_hb_rx_cnt ≡ suc (length times + n)
    → length times + n < 4294967295
    → w.link.ob_hb_tx_cnt ≡ suc (length times + m)
    → length times + m < 4294967295
    → (ticks r times w).link.ob_hb_tx_cnt ≡ suc m
unfolding ticks
ticks-tx r [] m n w c h b g d = omega arith
ticks-tx r (u ∷ us) m n w c h b g d =
    let one = outbound_tick-live w.link (length us + n) (omega arith) c (omega arith) in
    let two =
      outbound_tick-tx w.link (length us + m) (omega arith) c (omega arith) (omega arith)
        (omega arith) in
    let same = heartbeat_tick-Same r u w in
    ticks-tx r us m n (heartbeat_tick r u w) (same.con ∙ one.0) (same.rx ∙ one.1) (omega arith)
      (same.tx ∙ two) (omega arith)

-- A connected link that sends nothing else writes a heartbeat on the outbound connection in the
-- tick in which its transmit counter ends, and then counts ten ticks; its receive counter, of 32
-- bits, is to last longer.
heartbeat_tick-period :
    (r : Reflector) (times : List ℕ) (n : ℕ) (w : World)
    → w.link.con_connected ≡ true
    → w.link.ob_hb_tx_cnt ≡ suc (length times)
    → w.link.ob_hb_rx_cnt ≡ suc (length times + suc n)
    → length times + suc n < 4294967295
    → ((outbound_tick (ticks r times w).link).out
        ≡ written outbound heartbeat ∷ (ticks r times w).link.out)
      × ((outbound_tick (ticks r times w).link).ob_hb_tx_cnt ≡ heartbeat_tx_cnt_reset)
unfolding outbound_tick outbound_tx_tick outbound_rx_tick send_msg_on_outbound
heartbeat_tick-period r times n w c g h b =
    let live = ticks-live r times (suc n) w c (omega arith) (omega arith) in
    let tx =
      ticks-tx r times 0 (suc n) w c (omega arith) (omega arith) (omega arith) (omega arith) in
    (ground (arith, live, tx, packs-heartbeat), ground (arith, live, tx, packs-heartbeat))

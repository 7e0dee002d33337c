-- ===== src/Satellite/Stopped.antt =====
-- SatelliteClient.cpp: the heartbeat of a satellite that has closed its connection.
use geu_reflector.Base.{
  ℕ, zero, suc, ◌-◌, ◌^◌, ◌<◌, ◌≡◌, refl, ◌∙◌, ap, true, false, Option, none, some, ◌==◌, arith,
}
use geu_reflector.Trunk.State.{heartbeat, dec32}
use geu_reflector.Wire.Links.{peer, packs_link}
use geu_reflector.Satellite.Client.{
  SatelliteClient, client_send, client_tx_tick, client_rx_tick, client_heartbeat_tick,
}

abbrev then_tick :
    (SatelliteClient → Option SatelliteClient) → Option SatelliteClient → Option SatelliteClient
then_tick f none = none
then_tick f (some c) = f c

-- Ticks of the heartbeat timer, with nothing between them.
unfoldable pub client_ticks : ℕ → SatelliteClient → Option SatelliteClient
client_ticks zero c = some c
client_ticks (suc n) c = then_tick (client_ticks n) (client_heartbeat_tick c)

last_tx :
    (c : SatelliteClient)
    → packs_link (peer heartbeat) ≡ true
    → c.con_connected ≡ false
    → dec32 c.hb_tx_cnt ≡ 0
    → client_heartbeat_tick c ≡ none
unfolding client_heartbeat_tick client_tx_tick client_send
last_tx c p closed z = rw (z, p, closed) refl

-- A tick that sends nothing.
waiting_tick :
    (c : SatelliteClient) (n : ℕ)
    → dec32 c.hb_tx_cnt ≡ suc n
    → client_heartbeat_tick c ≡ some (client_rx_tick (record c { hb_tx_cnt = dec32 c.hb_tx_cnt }))
unfolding client_heartbeat_tick client_tx_tick
waiting_tick c n z =
    let on : (dec32 c.hb_tx_cnt == 0) ≡ false = rw z (ground arith) in
    rw (client_heartbeat_tick, on) refl

rx_tick-same :
    (c : SatelliteClient)
    → c.con_connected ≡ false
    → ((client_rx_tick c).con_connected ≡ false) × ((client_rx_tick c).hb_tx_cnt ≡ c.hb_tx_cnt)
unfolding client_rx_tick
rx_tick-same c closed = (ground arith, ground arith)

-- A satellite that has itself closed its connection, as it does after a silent parent or one that
-- fails the check of its secret, writes its next heartbeat to it, which stops the program: after as
-- many ticks as its transmit counter has, which is positive and has 32 bits, where nothing happens
-- between them.
pub client_ticks-none :
    (n : ℕ) (c : SatelliteClient)
    → packs_link (peer heartbeat) ≡ true
    → c.con_connected ≡ false
    → c.hb_tx_cnt ≡ suc n
    → n < 2 ^ 32 - 1
    → client_ticks (suc n) c ≡ none
unfolding client_ticks
client_ticks-none zero c p closed z b =
    ap (then_tick (client_ticks 0)) (last_tx c p closed (rw z refl))
client_ticks-none (suc n) c p closed z b =
    let left : dec32 c.hb_tx_cnt ≡ suc n = rw z (omega arith) in
    let d = record c { hb_tx_cnt = dec32 c.hb_tx_cnt } in
    let (e, f) = rx_tick-same d closed in
    ap (then_tick (client_ticks (suc n))) (waiting_tick c n left)
    ∙ client_ticks-none n (client_rx_tick d) p e (f ∙ left) (omega arith)

-- ===== src/Paired/Heartbeat.antt =====
-- TrunkLink.cpp: the tick of the heartbeat timer of a link with several hosts.
use geu_reflector.Base.{
  ℕ, zero, suc, Bool, true, false, not, ◌&&◌, ◌||◌, none, some, ◌==◌, if◌then◌else◌, length,
  get_elem?, update_at,
}
use geu_reflector.TgHandler.State.{seconds}
use geu_reflector.Trunk.State.{
  heartbeat, dec32, paired_disconnected, paired_connect, inbound, outbound,
}
use geu_reflector.Trunk.Heartbeat.{prune}
use geu_reflector.Paired.State.{
  PairedLink, emit_paired, send_msg_on_paired_outbound, send_msg_on_paired_inbound,
}

-- `if (--hb_tx_cnt == 0)` for the client at a place with this count.
unfoldable pub paired_outbound_tx_tick : ℕ → ℕ → PairedLink → PairedLink
paired_outbound_tx_tick i cnt p =
    let cnt' = dec32 cnt in
    let p' = record p { ob = update_at i (λ c. record c { hb_tx_cnt = cnt' }) p.ob } in
    if cnt' == 0 then send_msg_on_paired_outbound i heartbeat p' else p'

unfoldable pub paired_outbound_rx_tick : ℕ → ℕ → PairedLink → PairedLink
paired_outbound_rx_tick i cnt p =
    let cnt' = dec32 cnt in
    let p' = record p { ob = update_at i (λ c. record c { hb_rx_cnt = cnt' }) p.ob } in
    if cnt' == 0
    then emit_paired (paired_connect i) (
        emit_paired (paired_disconnected outbound i)
          (record p' { ob = update_at i (λ c. record c { is_connected = false }) p'.ob }))
    else p'

-- One round of the first loop, with `any_ob_connected`.
unfoldable pub paired_outbound_tick : ℕ → Bool × PairedLink → Bool × PairedLink
paired_outbound_tick i (any_con, p) = elim (get_elem? p.ob i) [
  | none ↦ (any_con, p)
  | some c ↦
      if not c.is_connected || c.hb_rx_cnt == 0
      then (any_con, p)
      else (true, paired_outbound_rx_tick i c.hb_rx_cnt (paired_outbound_tx_tick i c.hb_tx_cnt p))
]

unfoldable pub paired_inbound_tx_tick : ℕ → ℕ → PairedLink → PairedLink
paired_inbound_tx_tick i cnt p =
    let cnt' = dec32 cnt in
    let p' = record p { ib = update_at i (λ c. record c { hb_tx_cnt = cnt' }) p.ib } in
    if cnt' == 0 then send_msg_on_paired_inbound i heartbeat p' else p'

unfoldable pub paired_inbound_rx_tick : ℕ → ℕ → ℕ → PairedLink → PairedLink
paired_inbound_rx_tick i con cnt p =
    let cnt' = dec32 cnt in
    let p' = record p { ib = update_at i (λ c. record c { hb_rx_cnt = cnt' }) p.ib } in
    if cnt' == 0
    then emit_paired (paired_disconnected inbound con)
        (record p' { ib = update_at i (λ c. record c { is_connected = false }) p'.ib })
    else p'

unfoldable pub paired_inbound_tick : ℕ → Bool × PairedLink → Bool × PairedLink
paired_inbound_tick i (any_con, p) = elim (get_elem? p.ib i) [
  | none ↦ (any_con, p)
  | some c ↦ if c.hb_rx_cnt == 0 then (any_con, p) else (
    true,
    paired_inbound_rx_tick i c.con c.hb_rx_cnt (paired_inbound_tx_tick i c.hb_tx_cnt p),
  )
]

-- A loop from place `i` on, with so many tick_rounds left.
unfoldable pub tick_rounds :
    (ℕ → Bool × PairedLink → Bool × PairedLink) → ℕ → ℕ → Bool × PairedLink → Bool × PairedLink
tick_rounds f zero i b = b
tick_rounds f (suc left) i b = tick_rounds f left (suc i) (f i b)

unfoldable pub paired_heartbeat_tick : ℕ → PairedLink → PairedLink
paired_heartbeat_tick now p =
    let (any_ob_connected, p1) = tick_rounds paired_outbound_tick (length p.ob) 0 (false, p) in
    let (any_ib_connected, p2) = tick_rounds paired_inbound_tick (length p1.ib) 0 (false, p1) in
    record p2 {
      shared = record p2.shared {
        peer_interested_tgs = prune (seconds now) p2.shared.peer_interested_tgs;
        heartbeat_timer =
            if not any_ob_connected && not any_ib_connected
            then false
            else p2.shared.heartbeat_timer;
      };
    }

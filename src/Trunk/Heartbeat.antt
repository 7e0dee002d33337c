-- ===== src/Trunk/Heartbeat.antt =====
-- TrunkLink.cpp: the tick of the heartbeat timer, once a second.
use geu_reflector.Base.{
  ℕ, ◌-◌, false, not, ◌&&◌, ◌==◌, [], ◌∷◌, none, some, Map, ltb, leb, if◌then◌else◌, is_some,
}
use geu_reflector.TgHandler.State.{seconds}
use geu_reflector.Trunk.State.{
  Link, World, Reflector, heartbeat, do_effect, dec32, inbound, outbound, disconnected, reconnected,
  forgotten, peer_interest_timeout_s,
}
use geu_reflector.Trunk.Send.{send_msg_on_outbound, send_msg_on_inbound}
use geu_reflector.Trunk.Connect.{on_inbound_disconnected}

-- `if (--m_ob_hb_tx_cnt == 0) sendMsgOnOutbound(MsgPeerHeartbeat());`
unfoldable pub outbound_tx_tick : Link → Link
outbound_tx_tick l =
    let l' = record l { ob_hb_tx_cnt = dec32 l.ob_hb_tx_cnt } in
    if l'.ob_hb_tx_cnt == 0 then send_msg_on_outbound heartbeat l' else l'

unfoldable pub outbound_rx_tick : Link → Link
outbound_rx_tick l =
    let l' = record l { ob_hb_rx_cnt = dec32 l.ob_hb_rx_cnt } in
    if l'.ob_hb_rx_cnt == 0
    then do_effect reconnected
        (do_effect (disconnected outbound) (record l' { con_connected = false }))
    else l'

unfoldable pub outbound_tick : Link → Link
outbound_tick l =
    if l.con_connected && ltb 0 l.ob_hb_rx_cnt then outbound_rx_tick (outbound_tx_tick l) else l

unfoldable pub inbound_tx_tick : Link → Link
inbound_tx_tick l =
    let l' = record l { ib_hb_tx_cnt = dec32 l.ib_hb_tx_cnt } in
    if l'.ib_hb_tx_cnt == 0 then send_msg_on_inbound heartbeat l' else l'

unfoldable pub inbound_rx_tick : Reflector → ℕ → ℕ → World → World
inbound_rx_tick r now dead w =
    let l = record w.link { ib_hb_rx_cnt = dec32 w.link.ib_hb_rx_cnt } in
    if l.ib_hb_rx_cnt == 0
    then on_inbound_disconnected r now dead (record w {
      link =
          do_effect (forgotten dead)
            (do_effect (disconnected inbound) (record l { inbound_connected = false }));
    })
    else record w { link = l }

unfoldable pub inbound_tick : Reflector → ℕ → World → World
inbound_tick r now w = elim w.link.inbound_con [
  | none ↦ w
  | some con ↦
      if ltb 0 w.link.ib_hb_rx_cnt
      then inbound_rx_tick r now con (record w { link = inbound_tx_tick w.link })
      else w
]

-- The loop that erases expired entries.
unfoldable pub prune : ℕ → Map ℕ → Map ℕ
prune now [] = []
prune now ((tg, t) ∷ m) =
    let rest = prune now m in if leb peer_interest_timeout_s (now - t) then rest else (tg, t) ∷ rest

unfoldable pub heartbeat_tick : Reflector → ℕ → World → World
heartbeat_tick r now w =
    let w' = inbound_tick r now (record w { link = outbound_tick w.link }) in
    let l = w'.link in
    record w' {
      link = record l {
        peer_interested_tgs = prune (seconds now) l.peer_interested_tgs;
        heartbeat_timer =
            if not l.con_connected && not (is_some l.inbound_con) then false else l.heartbeat_timer;
      };
    }

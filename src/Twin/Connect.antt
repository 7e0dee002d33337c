-- ===== src/Twin/Connect.antt =====
-- TwinLink.cpp: the beginning and the end of the connections to the twin, and the heartbeat.
use geu_reflector.Base.{
  ℕ, Bool, true, false, not, ◌&&◌, [], Option, none, some, leb, ◌==◌, is_empty, is_some,
  if◌then◌else◌,
}
use geu_reflector.Trunk.State.{Reflector, Hello, heartbeat}
use geu_reflector.Wire.Links.{peer}
use geu_reflector.Twin.State.{
  TwinLink, outbound_disconnect, outbound_connect, inbound_disconnect, twin_node_list, call_twin,
  twin_peer_id, is_inbound_open, is_twin_active, inc32, send_on_twin_outbound, send_on_twin_inbound,
  twin_hello, twin_hb_tx_threshold, twin_hb_rx_threshold,
}

abbrev pub adopt_inbound : Reflector → ℕ → Hello → TwinLink → TwinLink
adopt_inbound r con h l =
    let l' = record l {
      inbound_con = some con;
      inbound_connected = true;
      peer_priority = h.priority;
      peer_id_received = h.id;
      ib_hello_received = true;
      ib_hb_tx_cnt = 0;
      ib_hb_rx_cnt = 0;
      heartbeat_timer = true;
    } in
    send_on_twin_inbound (twin_hello r l') l'

-- acceptInboundConnection: a connection that is there and open stays.
unfoldable pub accept_twin_inbound : Reflector → ℕ → Hello → TwinLink → TwinLink
accept_twin_inbound r con h l =
    if is_inbound_open l then call_twin (inbound_disconnect con) l else adopt_inbound r con h l

abbrev pub is_twin_inbound : Option ℕ → TwinLink → Bool
is_twin_inbound none l = false
is_twin_inbound (some con) l = elim l.inbound_con [ none ↦ false | some c ↦ con == c ]

-- The handler of `disconnected` that acceptInboundConnection sets.
unfoldable pub twin_inbound_disconnected : ℕ → TwinLink → TwinLink
twin_inbound_disconnected con l =
    if is_twin_inbound (some con) l
    then record l {
      inbound_con = none;
      inbound_connected = false;
      ib_hello_received = false;
      ib_hb_tx_cnt = 0;
      ib_hb_rx_cnt = 0;
    }
    else l

unfoldable pub clear_partner_roster_if_inactive : TwinLink → TwinLink
clear_partner_roster_if_inactive l =
    if is_twin_active l
    then l
    else if is_empty l.partner_nodes
    then l
    else call_twin (twin_node_list (twin_peer_id l) []) (record l { partner_nodes = [] })

unfoldable pub twin_connected : Reflector → TwinLink → TwinLink
twin_connected r l =
    let l' = record l {
      con_connected = true;
      ob_hello_received = false;
      ob_hb_tx_cnt = 0;
      ob_hb_rx_cnt = 0;
      heartbeat_timer = true;
    } in
    send_on_twin_outbound (twin_hello r l') l'

unfoldable pub twin_disconnected : TwinLink → TwinLink
twin_disconnected l = clear_partner_roster_if_inactive (record l {
  con_connected = false;
  ob_hello_received = false;
  ob_hb_tx_cnt = 0;
  ob_hb_rx_cnt = 0;
  heartbeat_timer = if is_some l.inbound_con then l.heartbeat_timer else false;
})

unfoldable pub twin_outbound_tx_tick : TwinLink → TwinLink
twin_outbound_tx_tick l =
    let cnt = inc32 l.ob_hb_tx_cnt in
    if leb twin_hb_tx_threshold cnt
    then record (send_on_twin_outbound (peer heartbeat) (record l { ob_hb_tx_cnt = cnt })) {
      ob_hb_tx_cnt = 0;
    }
    else record l { ob_hb_tx_cnt = cnt }

unfoldable pub twin_outbound_rx_tick : TwinLink → TwinLink
twin_outbound_rx_tick l =
    let cnt = inc32 l.ob_hb_rx_cnt in
    if leb twin_hb_rx_threshold cnt
    then call_twin outbound_connect
        (call_twin outbound_disconnect (record l { con_connected = false; ob_hb_rx_cnt = 0 }))
    else record l { ob_hb_rx_cnt = cnt }

unfoldable pub twin_outbound_tick : TwinLink → TwinLink
twin_outbound_tick l =
    if l.con_connected then twin_outbound_rx_tick (twin_outbound_tx_tick l) else l

unfoldable pub twin_inbound_tx_tick : TwinLink → TwinLink
twin_inbound_tx_tick l =
    let cnt = inc32 l.ib_hb_tx_cnt in
    if leb twin_hb_tx_threshold cnt
    then record (send_on_twin_inbound (peer heartbeat) (record l { ib_hb_tx_cnt = cnt })) {
      ib_hb_tx_cnt = 0;
    }
    else record l { ib_hb_tx_cnt = cnt }

abbrev pub close_inbound : Option ℕ → TwinLink → TwinLink
close_inbound none l = l
close_inbound (some con) l = call_twin (inbound_disconnect con) l

unfoldable pub twin_inbound_rx_tick : TwinLink → TwinLink
twin_inbound_rx_tick l =
    let cnt = inc32 l.ib_hb_rx_cnt in
    if leb twin_hb_rx_threshold cnt
    then record (close_inbound l.inbound_con l) {
      inbound_con = none;
      inbound_connected = false;
      ib_hb_rx_cnt = 0;
      ib_hello_received = false;
    }
    else record l { ib_hb_rx_cnt = cnt }

unfoldable pub twin_inbound_tick : TwinLink → TwinLink
twin_inbound_tick l = if is_inbound_open l then twin_inbound_rx_tick (twin_inbound_tx_tick l) else l

abbrev pub stop_idle_timer : TwinLink → TwinLink
stop_idle_timer l =
    if not l.con_connected && not (is_some l.inbound_con)
    then record l { heartbeat_timer = false }
    else l

unfoldable pub twin_heartbeat_tick : TwinLink → TwinLink
twin_heartbeat_tick l =
    clear_partner_roster_if_inactive (stop_idle_timer (twin_inbound_tick (twin_outbound_tick l)))

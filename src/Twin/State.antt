-- ===== src/Twin/State.antt =====
-- TwinLink.{h,cpp}: the link to the twin, what it writes, and the reports of the reflector that it
-- passes on. The newest entries of `out` are the first ones. What goes to MQTT is left out.
use geu_reflector.Base.{
  ℕ, suc, ◌%◌, ◌^◌, Bool, not, ◌&&◌, ◌||◌, List, ◌∷◌, Option, Bytes, is_empty, is_some,
  if◌then◌else◌,
}
use geu_reflector.Trunk.State.{
  Reflector, hello, talker_start, talker_stop, audio, flush, make_hello, role_twin,
}
use geu_reflector.Wire.Links.{
  LinkMsg, peer, node_list, ext_talker_start, ext_talker_stop, client_connected,
  client_disconnected, client_rx, client_status, packs_link,
}
use geu_reflector.Nodes.Json.{Json}
use geu_reflector.Nodes.Entry.{NodeEntry, columns_of}
use geu_reflector.Satellite.State.{Parent}

-- TWIN_HB_TX_THRESHOLD, TWIN_HB_RX_THRESHOLD
abbrev pub twin_hb_tx_threshold : ℕ
twin_hb_tx_threshold = 2

abbrev pub twin_hb_rx_threshold : ℕ
twin_hb_rx_threshold = 5

-- What the link does to its connections, and what it tells the reflector.
pub data TwinCall : Type 0 where
  sent_outbound : LinkMsg → TwinCall
  sent_inbound : LinkMsg → TwinCall
  outbound_disconnect : TwinCall
  outbound_connect : TwinCall
  inbound_disconnect : ℕ → TwinCall
  twin_node_list : Bytes → List NodeEntry → TwinCall

pub record TwinLink : Type 0 where
  pub secret : Bytes
  pub local_prefix : Bytes
  pub peer_id_config : Bytes
  pub peer_id_received : Bytes
  pub priority : ℕ
  pub peer_priority : ℕ
  pub con_connected : Bool
  pub inbound_con : Option ℕ
  pub inbound_connected : Bool
  pub heartbeat_timer : Bool
  pub ob_hello_received : Bool
  pub ob_hb_tx_cnt : ℕ
  pub ob_hb_rx_cnt : ℕ
  pub ib_hello_received : Bool
  pub ib_hb_tx_cnt : ℕ
  pub ib_hb_rx_cnt : ℕ
  pub partner_nodes : List NodeEntry
  pub out : List TwinCall

-- The link with its reflector.
pub record TwinWorld : Type 0 where
  pub link : TwinLink
  pub parent : Parent

abbrev pub call_twin : TwinCall → TwinLink → TwinLink
call_twin c l = record l { out = c ∷ l.out }

abbrev pub twin_peer_id : TwinLink → Bytes
twin_peer_id l = if is_empty l.peer_id_received then l.peer_id_config else l.peer_id_received

-- `m_inbound_con != nullptr && m_inbound_con->isConnected()`
abbrev pub is_inbound_open : TwinLink → Bool
is_inbound_open l = is_some l.inbound_con && l.inbound_connected

unfoldable pub is_twin_active : TwinLink → Bool
is_twin_active l =
    l.con_connected && l.ob_hello_received || is_some l.inbound_con && l.ib_hello_received

abbrev pub inc32 : ℕ → ℕ
inc32 n = suc n % 2 ^ 32

unfoldable pub send_on_twin_outbound : LinkMsg → TwinLink → TwinLink
send_on_twin_outbound m l =
    if not l.con_connected
    then l
    else if not (packs_link m)
    then l
    else call_twin (sent_outbound m) (record l { ob_hb_tx_cnt = 0 })

unfoldable pub send_on_twin_inbound : LinkMsg → TwinLink → TwinLink
send_on_twin_inbound m l =
    if not (is_inbound_open l)
    then l
    else if not (packs_link m)
    then l
    else call_twin (sent_inbound m) (record l { ib_hb_tx_cnt = 0 })

unfoldable pub send_to_twin : LinkMsg → TwinLink → TwinLink
send_to_twin m l =
    if l.con_connected && l.ob_hello_received
    then send_on_twin_outbound m l
    else if is_inbound_open l && l.ib_hello_received
    then send_on_twin_inbound m l
    else l

abbrev pub report_to_twin : LinkMsg → TwinLink → TwinLink
report_to_twin m l = if not (is_twin_active l) then l else send_to_twin m l

unfoldable pub twin_local_talker_updated : ℕ → Bytes → TwinLink → TwinLink
twin_local_talker_updated tg callsign l =
    report_to_twin
      (if is_empty callsign then peer (talker_stop tg) else peer (talker_start tg callsign)) l

unfoldable pub twin_local_audio : ℕ → Bytes → TwinLink → TwinLink
twin_local_audio tg samples l = report_to_twin (peer (audio tg samples)) l

unfoldable pub twin_local_flush : ℕ → TwinLink → TwinLink
twin_local_flush tg l = report_to_twin (peer (flush tg)) l

unfoldable pub twin_external_start : ℕ → Bytes → Bytes → TwinLink → TwinLink
twin_external_start tg id callsign l = report_to_twin (ext_talker_start tg id callsign) l

unfoldable pub twin_external_stop : ℕ → Bytes → TwinLink → TwinLink
twin_external_stop tg id l = report_to_twin (ext_talker_stop tg id) l

unfoldable pub twin_send_client_connected : Bytes → ℕ → Bytes → TwinLink → TwinLink
twin_send_client_connected callsign tg ip l = report_to_twin (client_connected callsign tg ip) l

unfoldable pub twin_send_client_disconnected : Bytes → TwinLink → TwinLink
twin_send_client_disconnected callsign l = report_to_twin (client_disconnected callsign) l

unfoldable pub twin_send_client_rx : Bytes → Bytes → TwinLink → TwinLink
twin_send_client_rx callsign json l = report_to_twin (client_rx callsign json) l

unfoldable pub twin_send_client_status : Bytes → Bytes → TwinLink → TwinLink
twin_send_client_status callsign json l = report_to_twin (client_status callsign json) l

unfoldable pub twin_local_nodes :
    (Json → Bytes) → (Bytes → Option Json) → List NodeEntry → TwinLink → TwinLink
twin_local_nodes write parse ns l = report_to_twin (node_list (columns_of write parse ns)) l

unfoldable pub twin_hello : Reflector → TwinLink → LinkMsg
twin_hello r l =
    peer (hello (make_hello r l.peer_id_config l.local_prefix l.priority l.secret role_twin))

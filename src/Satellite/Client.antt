-- ===== src/Satellite/Client.antt =====
-- SatelliteClient.{h,cpp}: a reflector that is a satellite, and its connection to the parent. The
-- reflector is a Parent too, one that has no satellites. The newest entries of `out` are the first
-- ones. A write on a closed connection stops the program (`assert(sock >= 0)` of
-- AsyncTcpConnection.cpp), which is `none`. What goes to MQTT is left out.
use geu_reflector.Base.{
  ℕ, Bool, true, false, not, ◌&&◌, ◌||◌, List, [], ◌∷◌, Option, none, some, Bytes, is_empty, ◌==◌,
  if◌then◌else◌,
}
use geu_reflector.TgFilter.Entry.{TgFilter, matches}
use geu_reflector.TgHandler.TrunkTalkers.{
  set_trunk_talker_for_tg_via_peer, clear_trunk_talker_for_tg, talker_keys,
}
use geu_reflector.Trunk.State.{
  Reflector, Hello, heartbeat, hello, talker_start, talker_stop, audio, flush, tg_interest,
  make_hello, verify, role_satellite, dec32,
}
use geu_reflector.Trunk.Ident.{sanitize_ident}
use geu_reflector.Wire.Links.{
  LinkMsg, peer, node_list, peer_filter, client_connected, client_disconnected, client_rx,
  client_status, packs_link,
}
use geu_reflector.Nodes.Json.{Json}
use geu_reflector.Nodes.Entry.{NodeEntry, Columns, nodes, columns_of, sanitize_nodes, passed_sat_id}
use geu_reflector.Audio.Broadcast.{sent_udp, udp_audio, udp_flush_samples, broadcast, listeners}
use geu_reflector.Satellite.State.{Parent, satellite_tx_cnt_reset, satellite_rx_cnt_reset}
use geu_reflector.Satellite.Events.{with_handler}
use geu_reflector.Satellite.Life.{clear_talkers}
use geu_reflector.Satellite.Frames.{SatFrame, message, is_first, has_bad_header}

pub data SatelliteCall : Type 0 where
  sent : LinkMsg → SatelliteCall
  parent_disconnect : SatelliteCall
  parent_node_list : Bytes → List NodeEntry → SatelliteCall
  roster_update : SatelliteCall

pub record SatelliteClient : Type 0 where
  pub con_connected : Bool
  pub secret : Bytes
  pub satellite_id : Bytes
  pub priority : ℕ
  pub hello_received : Bool
  pub heartbeat_timer : Bool
  pub hb_tx_cnt : ℕ
  pub hb_rx_cnt : ℕ
  pub filter : TgFilter
  pub filter_str : Bytes
  pub parent_id : Bytes
  pub parent_nodes : List NodeEntry
  pub out : List SatelliteCall

pub record Child : Type 0 where
  pub client : SatelliteClient
  pub own : Parent

abbrev pub call_client : SatelliteCall → SatelliteClient → SatelliteClient
call_client x c = record c { out = x ∷ c.out }

abbrev pub then_client :
    (SatelliteClient → SatelliteClient) → Option SatelliteClient → Option SatelliteClient
then_client f none = none
then_client f (some c) = some (f c)

unfoldable pub client_send : LinkMsg → SatelliteClient → Option SatelliteClient
client_send m c =
    if not (packs_link m)
    then some c
    else if not c.con_connected
    then none
    else some (call_client (sent m) (record c { hb_tx_cnt = satellite_tx_cnt_reset }))

-- `!m_con.isConnected() || !m_hello_received`, and the filter.
abbrev pub client_report : LinkMsg → SatelliteClient → Option SatelliteClient
client_report m c = if not c.con_connected || not c.hello_received then some c else client_send m c

unfoldable pub client_passes_tg : SatelliteClient → ℕ → Bool
client_passes_tg c tg = if is_empty c.filter then true else matches tg c.filter

abbrev pub client_report_tg : ℕ → LinkMsg → SatelliteClient → Option SatelliteClient
client_report_tg tg m c = if not (client_passes_tg c tg) then some c else client_report m c

unfoldable pub client_local_talker_start : ℕ → Bytes → SatelliteClient → Option SatelliteClient
client_local_talker_start tg callsign c = client_report_tg tg (peer (talker_start tg callsign)) c

unfoldable pub client_local_talker_stop : ℕ → SatelliteClient → Option SatelliteClient
client_local_talker_stop tg c = client_report_tg tg (peer (talker_stop tg)) c

unfoldable pub client_local_audio : ℕ → Bytes → SatelliteClient → Option SatelliteClient
client_local_audio tg samples c = client_report_tg tg (peer (audio tg samples)) c

unfoldable pub client_local_flush : ℕ → SatelliteClient → Option SatelliteClient
client_local_flush tg c = client_report_tg tg (peer (flush tg)) c

unfoldable pub client_send_connected : Bytes → ℕ → Bytes → SatelliteClient → Option SatelliteClient
client_send_connected callsign tg ip c = client_report (client_connected callsign tg ip) c

unfoldable pub client_send_disconnected : Bytes → SatelliteClient → Option SatelliteClient
client_send_disconnected callsign c = client_report (client_disconnected callsign) c

unfoldable pub client_send_rx : Bytes → Bytes → SatelliteClient → Option SatelliteClient
client_send_rx callsign json c = client_report (client_rx callsign json) c

unfoldable pub client_send_status : Bytes → Bytes → SatelliteClient → Option SatelliteClient
client_send_status callsign json c = client_report (client_status callsign json) c

unfoldable pub client_hello : Reflector → SatelliteClient → LinkMsg
client_hello r c = peer (hello (make_hello r c.satellite_id [] c.priority c.secret role_satellite))

-- onConnected
unfoldable pub client_on_connected : Reflector → SatelliteClient → Option SatelliteClient
client_on_connected r c =
    let c' = record c {
      con_connected = true;
      hello_received = false;
      hb_tx_cnt = satellite_tx_cnt_reset;
      hb_rx_cnt = satellite_rx_cnt_reset;
    } in
    then_client (λ d. record d { heartbeat_timer = true }) (client_send (client_hello r c') c')

abbrev pub drop_parent_nodes : SatelliteClient → SatelliteClient
drop_parent_nodes c =
    if not (is_empty c.parent_nodes) && not (is_empty c.parent_id)
    then call_client (parent_node_list c.parent_id []) (record c { parent_nodes = [] })
    else c

-- onDisconnected, with clearAllTrunkTalkers.
unfoldable pub client_on_disconnected : ℕ → Child → Child
client_on_disconnected now w = record {
  client =
      drop_parent_nodes (record w.client {
        con_connected = false;
        heartbeat_timer = false;
        hello_received = false;
      });
  own = clear_talkers now (talker_keys w.own.hub.tgs.trunk_talkers) w.own;
}

unfoldable pub send_filter : SatelliteClient → Option SatelliteClient
send_filter c = if is_empty c.filter_str then some c else client_send (peer_filter c.filter_str) c

unfoldable pub client_hello_received : Reflector → Hello → SatelliteClient → Option SatelliteClient
client_hello_received r h c =
    if not (verify r h c.secret)
    then some (call_client parent_disconnect (record c { con_connected = false }))
    else then_client (call_client roster_update)
        (send_filter (record c { hello_received = true; parent_id = sanitize_ident h.id 64 }))

abbrev pub with_client : Option SatelliteClient → Child → Option Child
with_client none w = none
with_client (some c) w = some (record w { client = c })

abbrev pub at_own : (Parent → Parent) → Child → Option Child
at_own f w = some (record w { own = f w.own })

unfoldable pub child_audio_received : ℕ → Bytes → Parent → Parent
child_audio_received tg samples p =
    if is_empty samples
    then p
    else record p { hub = broadcast (λ d. sent_udp d (udp_audio samples)) (listeners tg) p.hub }

unfoldable pub child_flush_received : ℕ → Parent → Parent
child_flush_received tg p = record p {
  hub = broadcast (λ d. sent_udp d udp_flush_samples) (listeners tg) p.hub;
}

-- heartbeatTick: the disconnect at the end emits no signal and the timer goes on.
unfoldable pub client_tx_tick : SatelliteClient → Option SatelliteClient
client_tx_tick c =
    let cnt = dec32 c.hb_tx_cnt in
    if cnt == 0
    then client_send (peer heartbeat) (record c { hb_tx_cnt = satellite_tx_cnt_reset })
    else some (record c { hb_tx_cnt = cnt })

unfoldable pub client_rx_tick : SatelliteClient → SatelliteClient
client_rx_tick c =
    let cnt = dec32 c.hb_rx_cnt in
    if cnt == 0
    then call_client parent_disconnect (record c { hb_rx_cnt = cnt; con_connected = false })
    else record c { hb_rx_cnt = cnt }

unfoldable pub client_heartbeat_tick : SatelliteClient → Option SatelliteClient
client_heartbeat_tick c = then_client client_rx_tick (client_tx_tick c)

module _ (write : Json → Bytes) (parse_json : Bytes → Option Json) where
  abbrev pub tell_nodes : List NodeEntry → SatelliteClient → SatelliteClient
  tell_nodes kept c =
      if not (is_empty c.parent_id) then call_client (parent_node_list c.parent_id kept) c else c

  unfoldable pub client_nodes_received : Columns → SatelliteClient → SatelliteClient
  client_nodes_received x c =
      let kept = sanitize_nodes passed_sat_id (nodes write parse_json x) in
      record (tell_nodes kept c) { parent_nodes = kept }

  abbrev pub client_passing : SatelliteClient → List NodeEntry → List NodeEntry
  client_passing c [] = []
  client_passing c (n ∷ ns) =
      let rest = client_passing c ns in if not (client_passes_tg c n.tg) then rest else n ∷ rest

  unfoldable pub client_send_nodes : List NodeEntry → SatelliteClient → Option SatelliteClient
  client_send_nodes ns c =
      client_report (node_list (columns_of write parse_json (client_passing c ns))) c

  unfoldable pub handle_client_msg : Reflector → ℕ → LinkMsg → Child → Option Child
  handle_client_msg r now (peer (hello h)) w = with_client (client_hello_received r h w.client) w
  handle_client_msg r now (peer heartbeat) w = some w
  handle_client_msg r now (peer (talker_start tg callsign)) w =
      at_own (with_handler (set_trunk_talker_for_tg_via_peer now tg callsign w.client.parent_id)) w
  handle_client_msg r now (peer (talker_stop tg)) w =
      at_own (with_handler (clear_trunk_talker_for_tg now tg)) w
  handle_client_msg r now (peer (audio tg samples)) w = at_own (child_audio_received tg samples) w
  handle_client_msg r now (peer (flush tg)) w = at_own (child_flush_received tg) w
  handle_client_msg r now (peer (tg_interest id tgs)) w = some w
  handle_client_msg r now (node_list x) w =
      some (record w { client = client_nodes_received x w.client })
  handle_client_msg r now m w = some w

  unfoldable pub dispatch_client : Reflector → ℕ → SatFrame → Child → Option Child
  dispatch_client r now (message m) w = handle_client_msg r now m w
  dispatch_client r now f w = some w

  unfoldable pub parent_frame_received : Reflector → ℕ → SatFrame → Child → Option Child
  parent_frame_received r now f w =
      if has_bad_header f
      then some w
      else if not w.client.hello_received && not (is_first f)
      then some w
      else dispatch_client r now f
          (record w { client = record w.client { hb_rx_cnt = satellite_rx_cnt_reset } })

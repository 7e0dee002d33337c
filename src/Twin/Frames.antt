-- ===== src/Twin/Frames.antt =====
-- TwinLink.cpp: the frames of the twin. `write` and `parse` are those of JSON; a connection is `none`
-- for the outbound one and its number for one that was accepted.
use geu_reflector.Base.{
  ℕ, ◌==◌, Bool, true, false, not, ◌&&◌, [], Option, Bytes, bytes_eq, is_empty, if◌then◌else◌,
}
use geu_reflector.TgHandler.TrunkTalkers.{
  set_trunk_talker_for_tg_via_peer, clear_trunk_talker_for_tg, peer_id_for_tg,
}
use geu_reflector.Trunk.State.{
  Reflector, Hello, heartbeat, hello, talker_start, talker_stop, audio, flush, tg_interest, verify,
  role_twin,
}
use geu_reflector.Wire.Links.{
  LinkMsg, peer, node_list, peer_filter, ext_talker_start, ext_talker_stop, client_connected,
  client_disconnected, client_rx, client_status,
}
use geu_reflector.Nodes.Json.{Json}
use geu_reflector.Nodes.Entry.{Columns, nodes, sanitize_nodes, passed_sat_id}
use geu_reflector.Audio.Broadcast.{sent_udp, udp_audio, udp_flush_samples, broadcast, listeners}
use geu_reflector.Satellite.State.{Parent, every_satellite, on_parent_audio, on_parent_flush}
use geu_reflector.Satellite.Events.{with_handler}
use geu_reflector.Satellite.Frames.{
  SatFrame, bad_header, bad_body, odd_frame, message, is_first, has_bad_header,
}
use geu_reflector.Twin.State.{
  TwinLink, TwinWorld, outbound_disconnect, twin_node_list, call_twin, twin_peer_id,
}
use geu_reflector.Twin.Connect.{is_twin_inbound}

unfoldable pub refuse_twin : TwinLink → TwinLink
refuse_twin l = call_twin outbound_disconnect (record l { con_connected = false })

unfoldable pub twin_hello_received : Reflector → Bool → Hello → TwinLink → TwinLink
twin_hello_received r is_inbound h l =
    if is_inbound
    then l
    else if not (h.role == role_twin)
    then refuse_twin l
    else if not (verify r h l.secret)
    then refuse_twin l
    else if not (bytes_eq h.local_prefix l.local_prefix)
    then refuse_twin l
    else record l { peer_priority = h.priority; peer_id_received = h.id; ob_hello_received = true }

unfoldable pub twin_talker_start : ℕ → Bytes → ℕ → Bytes → Parent → Parent
twin_talker_start now id tg callsign p =
    with_handler (set_trunk_talker_for_tg_via_peer now tg callsign id) p

unfoldable pub twin_talker_stop : ℕ → ℕ → Parent → Parent
twin_talker_stop now tg p = with_handler (clear_trunk_talker_for_tg now tg) p

unfoldable pub twin_ext_stop : ℕ → ℕ → Bytes → Parent → Parent
twin_ext_stop now tg id p =
    if bytes_eq (peer_id_for_tg tg p.hub.tgs) id
    then with_handler (set_trunk_talker_for_tg_via_peer now tg [] id) p
    else p

unfoldable pub twin_audio_received : ℕ → Bytes → Parent → Parent
twin_audio_received tg samples p = if is_empty samples then p else record p {
  hub = broadcast (λ d. sent_udp d (udp_audio samples)) (listeners tg) p.hub;
  sats = every_satellite (on_parent_audio tg samples) p.sats;
}

unfoldable pub twin_flush_received : ℕ → Parent → Parent
twin_flush_received tg p = record p {
  hub = broadcast (λ d. sent_udp d udp_flush_samples) (listeners tg) p.hub;
  sats = every_satellite (on_parent_flush tg) p.sats;
}

-- The counter of the connection that the frame comes on.
unfoldable pub twin_rx_reset : Bool → TwinLink → TwinLink
twin_rx_reset is_inbound l =
    if is_inbound then record l { ib_hb_rx_cnt = 0 } else record l { ob_hb_rx_cnt = 0 }

abbrev pub at_parent : (Parent → Parent) → TwinWorld → TwinWorld
at_parent f w = record w { parent = f w.parent }

abbrev pub at_twin : (TwinLink → TwinLink) → TwinWorld → TwinWorld
at_twin f w = record w { link = f w.link }

module _ (write : Json → Bytes) (parse_json : Bytes → Option Json) where
  unfoldable pub twin_nodes_received : Columns → TwinLink → TwinLink
  twin_nodes_received c l =
      let kept = sanitize_nodes passed_sat_id (nodes write parse_json c) in
      record (call_twin (twin_node_list (twin_peer_id l) kept) l) { partner_nodes = kept }

  -- The messages of clients' liveness go to MQTT alone.
  unfoldable pub handle_twin_msg : Reflector → ℕ → Bool → LinkMsg → TwinWorld → TwinWorld
  handle_twin_msg r now is_inbound (peer (hello h)) w =
      at_twin (twin_hello_received r is_inbound h) w
  handle_twin_msg r now is_inbound (peer heartbeat) w = w
  handle_twin_msg r now is_inbound (peer (talker_start tg callsign)) w =
      at_parent (twin_talker_start now w.link.peer_id_config tg callsign) w
  handle_twin_msg r now is_inbound (peer (talker_stop tg)) w = at_parent (twin_talker_stop now tg) w
  handle_twin_msg r now is_inbound (peer (audio tg samples)) w =
      at_parent (twin_audio_received tg samples) w
  handle_twin_msg r now is_inbound (peer (flush tg)) w = at_parent (twin_flush_received tg) w
  handle_twin_msg r now is_inbound (peer (tg_interest id tgs)) w = w
  handle_twin_msg r now is_inbound (node_list c) w = at_twin (twin_nodes_received c) w
  handle_twin_msg r now is_inbound (peer_filter text) w = w
  handle_twin_msg r now is_inbound (ext_talker_start tg id callsign) w =
      at_parent (twin_talker_start now id tg callsign) w
  handle_twin_msg r now is_inbound (ext_talker_stop tg id) w = at_parent (twin_ext_stop now tg id) w
  handle_twin_msg r now is_inbound (client_connected callsign tg ip) w = w
  handle_twin_msg r now is_inbound (client_disconnected callsign) w = w
  handle_twin_msg r now is_inbound (client_rx callsign json) w = w
  handle_twin_msg r now is_inbound (client_status callsign json) w = w

  unfoldable pub dispatch_twin : Reflector → ℕ → Bool → SatFrame → TwinWorld → TwinWorld
  dispatch_twin r now is_inbound bad_header w = w
  dispatch_twin r now is_inbound (bad_body first) w = w
  dispatch_twin r now is_inbound odd_frame w = w
  dispatch_twin r now is_inbound (message m) w = handle_twin_msg r now is_inbound m w

  unfoldable pub twin_frame_received : Reflector → ℕ → Option ℕ → SatFrame → TwinWorld → TwinWorld
  twin_frame_received r now con f w =
      let is_inbound = is_twin_inbound con w.link in
      let hello_done = if is_inbound then w.link.ib_hello_received else w.link.ob_hello_received in
      if has_bad_header f
      then w
      else if not hello_done && not (is_first f)
      then w
      else dispatch_twin r now is_inbound f (at_twin (twin_rx_reset is_inbound) w)

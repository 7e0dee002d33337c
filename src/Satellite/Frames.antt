-- ===== src/Satellite/Frames.antt =====
-- SatelliteLink.cpp and Reflector.cpp: the frames of a satellite, its heartbeat, and the beginning and
-- end of its connection. `write` and `parse` are those of JSON.
use geu_reflector.Base.{
  ℕ, Bool, true, false, not, ◌&&◌, List, [], ◌∷◌, ◌++◌, Option, none, some, Bytes, find, ◌==◌,
  if◌then◌else◌, is_empty,
}
use geu_reflector.TgFilter.Entry.{parse}
use geu_reflector.Trunk.State.{
  Reflector, Hello, heartbeat, hello, talker_start, talker_stop, audio, flush, tg_interest,
  make_hello, verify, role_peer, role_satellite,
}
use geu_reflector.Wire.Links.{
  LinkMsg, peer, node_list, peer_filter, ext_talker_start, ext_talker_stop, client_connected,
  client_disconnected, client_rx, client_status,
}
use geu_reflector.Nodes.Json.{Json}
use geu_reflector.Nodes.Entry.{NodeEntry, Columns, nodes, columns_of, sanitize_nodes}
use geu_reflector.Satellite.State.{
  SatelliteLink, Parent, status_changed, schedule_node_list_update, peer_node_list,
  disconnect_satellite, call_parent, at_satellite, send_to_satellite, resolve_satellite_secret,
  satellite_rx_cnt_reset, filter_passes_tg,
}
use geu_reflector.Satellite.Events.{
  on_satellite_talker_start, on_satellite_talker_stop, satellite_audio_received,
  satellite_flush_received,
}

-- A frame by what is unpacked of it: a header that fails, a body that fails, with whether its type is
-- one that may come first, a type that is not handled, and a message.
pub data SatFrame : Type 0 where
  bad_header : SatFrame
  bad_body : Bool → SatFrame
  odd_frame : SatFrame
  message : LinkMsg → SatFrame

unfoldable pub may_begin : LinkMsg → Bool
may_begin (peer heartbeat) = true
may_begin (peer (hello h)) = true
may_begin m = false

unfoldable pub is_first : SatFrame → Bool
unfolding may_begin
is_first bad_header = false
is_first (bad_body first) = first
is_first odd_frame = false
is_first (message m) = may_begin m

unfoldable pub has_bad_header : SatFrame → Bool
has_bad_header bad_header = true
has_bad_header (bad_body first) = false
has_bad_header odd_frame = false
has_bad_header (message m) = false

unfoldable pub on_satellite_link_failed : ℕ → Parent → Parent
on_satellite_link_failed con p = record p {
  cleanup_pending = p.cleanup_pending ++ con ∷ [];
  cleanup_timer = true;
}

-- `m_con->disconnect(); linkFailed(this);`
unfoldable pub refuse_satellite : ℕ → Parent → Parent
refuse_satellite con p = on_satellite_link_failed con (
    call_parent (disconnect_satellite con) (at_satellite con (λ l. record l { is_open = false }) p))

-- The name in the hello that answers.
abbrev pub parent_name : Bytes
parent_name = b'P' ∷ b'A' ∷ b'R' ∷ b'E' ∷ b'N' ∷ b'T' ∷ []

unfoldable pub parent_hello : Reflector → Bytes → LinkMsg
parent_hello r secret = peer (hello (make_hello r parent_name [] 0 secret role_peer))

unfoldable pub admit_satellite : Reflector → Hello → Bytes → SatelliteLink → SatelliteLink
admit_satellite r h secret l = send_to_satellite (parent_hello r secret) (record l {
  resolved_secret = secret;
  satellite_id = h.id;
  hello_received = true;
  heartbeat_timer = true;
})

unfoldable pub satellite_hello : Reflector → ℕ → Hello → Parent → Parent
satellite_hello r con h p =
    if is_empty h.id
    then refuse_satellite con p
    else if not (h.role == role_satellite)
    then refuse_satellite con p
    else elim (resolve_satellite_secret p h.id) [
      | none ↦ refuse_satellite con p
      | some secret ↦
          if not (verify r h secret)
          then refuse_satellite con p
          else call_parent (status_changed con) (
              call_parent schedule_node_list_update
                (at_satellite con (admit_satellite r h secret) p))
    ]

unfoldable pub satellite_filter : ℕ → Bytes → Parent → Parent
satellite_filter con text p =
    call_parent (status_changed con)
      (at_satellite con (λ l. record l { tg_filter = if is_empty text then [] else parse text }) p)

module _ (write : Json → Bytes) (parse_json : Bytes → Option Json) where
  unfoldable pub satellite_nodes : ℕ → SatelliteLink → Columns → Parent → Parent
  satellite_nodes con l c p =
      let kept = sanitize_nodes (λ n. l.satellite_id) (nodes write parse_json c) in
      call_parent (status_changed con) (
        call_parent schedule_node_list_update (
          at_satellite con (λ l'. record l' { partner_nodes = kept })
            (call_parent (peer_node_list l.satellite_id kept) p)))

  -- The messages of clients' liveness go to MQTT alone.
  unfoldable pub handle_satellite_msg :
      Reflector → ℕ → ℕ → SatelliteLink → LinkMsg → Parent → Parent
  handle_satellite_msg r now con l (peer heartbeat) p = p
  handle_satellite_msg r now con l (peer (hello h)) p = satellite_hello r con h p
  handle_satellite_msg r now con l (peer (talker_start tg callsign)) p =
      on_satellite_talker_start r now con l.satellite_id tg callsign p
  handle_satellite_msg r now con l (peer (talker_stop tg)) p =
      on_satellite_talker_stop r now con tg p
  handle_satellite_msg r now con l (peer (audio tg samples)) p =
      satellite_audio_received r now con l.sat_active_tgs tg samples p
  handle_satellite_msg r now con l (peer (flush tg)) p = satellite_flush_received r now con tg p
  handle_satellite_msg r now con l (peer (tg_interest id tgs)) p = p
  handle_satellite_msg r now con l (node_list c) p = satellite_nodes con l c p
  handle_satellite_msg r now con l (peer_filter text) p = satellite_filter con text p
  handle_satellite_msg r now con l (ext_talker_start tg id callsign) p = p
  handle_satellite_msg r now con l (ext_talker_stop tg id) p = p
  handle_satellite_msg r now con l (client_connected callsign tg ip) p = p
  handle_satellite_msg r now con l (client_disconnected callsign) p = p
  handle_satellite_msg r now con l (client_rx callsign json) p = p
  handle_satellite_msg r now con l (client_status callsign json) p = p

  unfoldable pub dispatch_satellite : Reflector → ℕ → ℕ → SatelliteLink → SatFrame → Parent → Parent
  dispatch_satellite r now con l bad_header p = p
  dispatch_satellite r now con l (bad_body first) p = p
  dispatch_satellite r now con l odd_frame p = p
  dispatch_satellite r now con l (message m) p = handle_satellite_msg r now con l m p

  unfoldable pub satellite_frame_received : Reflector → ℕ → ℕ → SatFrame → Parent → Parent
  satellite_frame_received r now con f p = elim (find con p.sats) [
    | none ↦ p
    | some l ↦
        if has_bad_header f
        then p
        else if not l.hello_received && not (is_first f)
        then p
        else dispatch_satellite r now con l f
            (at_satellite con (λ l'. record l' { hb_rx_cnt = satellite_rx_cnt_reset }) p)
  ]

  -- sendNodeList
  unfoldable pub passing_nodes : SatelliteLink → List NodeEntry → List NodeEntry
  passing_nodes l [] = []
  passing_nodes l (n ∷ ns) =
      let rest = passing_nodes l ns in if not (filter_passes_tg l n.tg) then rest else n ∷ rest

  unfoldable pub send_nodes_to_satellite : List NodeEntry → SatelliteLink → SatelliteLink
  send_nodes_to_satellite ns l =
      if not l.hello_received
      then l
      else send_to_satellite (node_list (columns_of write parse_json (passing_nodes l ns))) l

-- ===== src/Satellite/Events.antt =====
-- Reflector.cpp: what a talker of a trunk or a satellite brings about on the parent, and the messages
-- of a satellite's talkers (SatelliteLink.cpp).
use geu_reflector.Base.{
  ℕ, not, List, [], ◌∷◌, NatSet, Bytes, contains, insert, remove, ltb, if◌then◌else◌, is_empty,
  length,
}
use geu_reflector.TgHandler.State.{
  TgHandler, Signal, talker_updated, request_auto_qsy, set_block, trunk_talker_updated,
}
use geu_reflector.TgHandler.TrunkTalkers.{
  set_trunk_talker_for_tg_via_peer, clear_trunk_talker_for_tg,
}
use geu_reflector.Trunk.State.{Link, Reflector}
use geu_reflector.Trunk.Local.{
  on_local_talker_start, on_local_talker_stop, on_local_audio, on_local_flush,
}
use geu_reflector.Trunk.Relay.{every}
use geu_reflector.Audio.Broadcast.{
  Hub, HubCall, sent_udp, udp_audio, udp_flush_samples, sent_talker_start, sent_talker_stop,
  twin_talker, twin_audio, twin_flush, call_hub, broadcast, listeners, informed,
}
use geu_reflector.Satellite.State.{
  Parent, status_changed, call_parent, at_satellite, every_satellite, satellites_except,
  on_parent_talker_start, on_parent_talker_stop, on_parent_audio, on_parent_flush,
}

-- The messages to the clients.
unfoldable pub trunk_talker_gone : ℕ → Bytes → Hub → Hub
trunk_talker_gone tg old h =
    if is_empty old
    then h
    else broadcast (λ d. sent_udp d udp_flush_samples) (listeners tg)
        (broadcast (λ d. sent_talker_stop d tg old) (informed tg) h)

unfoldable pub trunk_talker_here : ℕ → Bytes → Hub → Hub
trunk_talker_here tg new h =
    if is_empty new then h else broadcast (λ d. sent_talker_start d tg new) (informed tg) h

unfoldable pub on_trunk_talker_updated : ℕ → Bytes → Bytes → Parent → Parent
on_trunk_talker_updated tg old new p = record p {
  hub = trunk_talker_here tg new (trunk_talker_gone tg old p.hub);
  sats =
      if not (is_empty new)
      then every_satellite (on_parent_talker_start tg new) p.sats
      else if not (is_empty old)
      then every_satellite (on_parent_talker_stop tg) p.sats
      else p.sats;
}

-- The talk group handler's call, and behind it the handler of the signal that the call emits: the
-- newest one, where the log has grown.
unfoldable pub run_signal : List Signal → Parent → Parent
run_signal [] p = p
run_signal (trunk_talker_updated tg old new id ∷ log) p = on_trunk_talker_updated tg old new p
run_signal (talker_updated tg old new ∷ log) p = p
run_signal (request_auto_qsy tg ∷ log) p = p
run_signal (set_block c t ∷ log) p = p

unfoldable pub with_handler : (TgHandler → TgHandler) → Parent → Parent
with_handler f p =
    let h = f p.hub.tgs in
    let p' = record p { hub = record p.hub { tgs = h } } in
    if ltb (length p.hub.tgs.log) (length h.log) then run_signal h.log p' else p'

abbrev pub with_links : (Link → Link) → Hub → Hub
with_links f h = record h { links = every f h.links }

abbrev pub with_twin : HubCall → Hub → Hub
with_twin c h = if h.has_twin then call_hub c h else h

unfoldable pub on_satellite_talker_start : Reflector → ℕ → ℕ → Bytes → ℕ → Bytes → Parent → Parent
on_satellite_talker_start r now con id tg callsign p =
    let p1 = at_satellite con (λ l. record l { sat_active_tgs = insert tg l.sat_active_tgs }) p in
    let p2 = with_handler (set_trunk_talker_for_tg_via_peer now tg callsign id) p1 in
    call_parent (status_changed con) (record p2 {
      hub =
          with_twin (twin_talker tg callsign)
            (with_links (on_local_talker_start r now tg callsign) p2.hub);
    })

unfoldable pub on_satellite_talker_stop : Reflector → ℕ → ℕ → ℕ → Parent → Parent
on_satellite_talker_stop r now con tg p =
    let p1 = at_satellite con (λ l. record l { sat_active_tgs = remove tg l.sat_active_tgs }) p in
    let p2 = with_handler (clear_trunk_talker_for_tg now tg) p1 in
    call_parent (status_changed con) (record p2 {
      hub = with_twin (twin_talker tg []) (with_links (on_local_talker_stop r now tg) p2.hub);
    })

unfoldable pub satellite_audio_received : Reflector → ℕ → ℕ → NatSet → ℕ → Bytes → Parent → Parent
satellite_audio_received r now con active tg samples p =
    if is_empty samples then p else if not (contains tg active) then p else record p {
      hub = with_twin (twin_audio tg samples) (
          with_links (on_local_audio r now tg samples)
            (broadcast (λ d. sent_udp d (udp_audio samples)) (listeners tg) p.hub));
      sats = satellites_except con (on_parent_audio tg samples) p.sats;
    }

unfoldable pub satellite_flush_received : Reflector → ℕ → ℕ → ℕ → Parent → Parent
satellite_flush_received r now con tg p = record p {
  hub = with_twin (twin_flush tg) (
      with_links (on_local_flush r now tg)
        (broadcast (λ d. sent_udp d udp_flush_samples) (listeners tg) p.hub));
  sats = satellites_except con (on_parent_flush tg) p.sats;
}

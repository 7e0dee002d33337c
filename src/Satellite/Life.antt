-- ===== src/Satellite/Life.antt =====
-- SatelliteLink.cpp and Reflector.cpp: the heartbeat of a satellite's link, and the beginning and end
-- of its connection.
use geu_reflector.Base.{
  ℕ, false, not, ◌&&◌, List, [], ◌∷◌, none, some, NatSet, find, erase, assign, ◌==◌, if◌then◌else◌,
  is_empty,
}
use geu_reflector.TgHandler.TrunkTalkers.{clear_trunk_talker_for_tg}
use geu_reflector.Trunk.State.{heartbeat, dec32}
use geu_reflector.Wire.Links.{peer}
use geu_reflector.Satellite.State.{
  SatelliteLink, new_satellite_link, Parent, peer_node_list, disconnect_satellite, call_parent,
  at_satellite, send_to_satellite, satellite_tx_cnt_reset,
}
use geu_reflector.Satellite.Events.{with_handler}
use geu_reflector.Satellite.Frames.{on_satellite_link_failed}

unfoldable pub tick_satellite_tx : SatelliteLink → SatelliteLink
tick_satellite_tx l =
    let cnt = dec32 l.hb_tx_cnt in
    if cnt == 0
    then send_to_satellite (peer heartbeat) (record l { hb_tx_cnt = satellite_tx_cnt_reset })
    else record l { hb_tx_cnt = cnt }

unfoldable pub tick_satellite_rx : SatelliteLink → SatelliteLink
tick_satellite_rx l =
    let cnt = dec32 l.hb_rx_cnt in
    record l { hb_rx_cnt = cnt; heartbeat_timer = if cnt == 0 then false else l.heartbeat_timer }

-- The tick of the timer of a link.
unfoldable pub satellite_heartbeat_tick : ℕ → Parent → Parent
satellite_heartbeat_tick con p = elim (find con p.sats) [
  | none ↦ p
  | some l ↦
      let p' = at_satellite con (λ l'. tick_satellite_rx (tick_satellite_tx l')) p in
      if dec32 l.hb_rx_cnt == 0 then on_satellite_link_failed con p' else p'
]

unfoldable pub satellite_connected : ℕ → Parent → Parent
satellite_connected con p = record p { sats = assign con new_satellite_link p.sats }

-- The loop of the destructor.
unfoldable pub clear_talkers : ℕ → NatSet → Parent → Parent
clear_talkers now [] p = p
clear_talkers now (tg ∷ tgs) p =
    clear_talkers now tgs (with_handler (clear_trunk_talker_for_tg now tg) p)

unfoldable pub delete_satellite : ℕ → ℕ → SatelliteLink → Parent → Parent
delete_satellite now con l p =
    let p' = clear_talkers now l.sat_active_tgs p in
    let p'' =
      if not (is_empty l.partner_nodes) && not (is_empty l.satellite_id)
      then call_parent (peer_node_list l.satellite_id []) p'
      else p' in
    record p'' { sats = erase con p''.sats }

unfoldable pub satellite_disconnected : ℕ → ℕ → Parent → Parent
satellite_disconnected now con p = elim (find con p.sats) [
  | none ↦ p
  | some l ↦ delete_satellite now con l (at_satellite con (λ l'. record l' { is_open = false }) p)
]

-- The links that failed, in order; a link that is gone is passed over.
unfoldable pub clean_up : ℕ → List ℕ → Parent → Parent
clean_up now [] p = p
clean_up now (con ∷ cons) p = elim (find con p.sats) [
  | none ↦ clean_up now cons p
  | some l ↦
      clean_up now cons (call_parent (disconnect_satellite con) (delete_satellite now con l p))
]

unfoldable pub process_satellite_cleanup : ℕ → Parent → Parent
process_satellite_cleanup now p =
    clean_up now p.cleanup_pending (record p { cleanup_pending = []; cleanup_timer = false })

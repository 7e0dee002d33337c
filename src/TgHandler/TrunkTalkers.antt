-- ===== src/TgHandler/TrunkTalkers.antt =====
-- TGHandler.cpp: the talkers that trunk peers report.
use geu_reflector.Base.{
  ℕ, Bool, ◌&&◌, List, [], ◌∷◌, Option, Map, find, assign, erase, length, is_empty, Bytes, bytes_eq,
  leb, if◌then◌else◌, value_or, not, is_some,
}
use geu_reflector.TgHandler.State.{TgHandler, trunk_talker_updated, emit, max_trunk_talkers}

unfoldable pub trunk_talker_for_tg : ℕ → TgHandler → Bytes
trunk_talker_for_tg tg s = value_or (find tg s.trunk_talkers) []

unfoldable pub has_trunk_talker : ℕ → TgHandler → Bool
has_trunk_talker tg s = is_some (find tg s.trunk_talkers)

unfoldable pub peer_id_for_tg : ℕ → TgHandler → Bytes
peer_id_for_tg tg s = value_or (find tg s.trunk_talker_peer_ids) []

unfoldable pub trunk_talker_start_time_for_tg : ℕ → TgHandler → Option ℕ
trunk_talker_start_time_for_tg tg s = find tg s.trunk_talker_start_times

unfoldable pub set_trunk_talker_for_tg : ℕ → ℕ → Bytes → TgHandler → TgHandler
unfolding trunk_talker_for_tg peer_id_for_tg
set_trunk_talker_for_tg now tg callsign s =
    let old = trunk_talker_for_tg tg s in
    let peer_id = peer_id_for_tg tg s in
    if bytes_eq callsign old
    then s
    else if is_empty callsign
    then emit (trunk_talker_updated tg old callsign peer_id)
        (record s { trunk_talkers = erase tg s.trunk_talkers })
    else if not (is_some (find tg s.trunk_talkers))
        && leb max_trunk_talkers (length s.trunk_talkers)
    then s
    else emit (trunk_talker_updated tg old callsign peer_id) (record s {
      trunk_talkers = assign tg callsign s.trunk_talkers;
      trunk_talker_start_times = assign tg now s.trunk_talker_start_times;
    })

unfoldable pub clear_trunk_talker_for_tg : ℕ → ℕ → TgHandler → TgHandler
unfolding set_trunk_talker_for_tg
clear_trunk_talker_for_tg now tg s =
    let s' = set_trunk_talker_for_tg now tg [] s in
    record s' { trunk_talker_peer_ids = erase tg s'.trunk_talker_peer_ids }

-- The loop over the keys that were collected first.
unfoldable pub clear_tgs : ℕ → List ℕ → TgHandler → TgHandler
clear_tgs now [] s = s
clear_tgs now (tg ∷ tgs) s = clear_tgs now tgs (clear_trunk_talker_for_tg now tg s)

unfoldable pub talker_keys : Map Bytes → List ℕ
talker_keys [] = []
talker_keys ((tg, c) ∷ m) = tg ∷ talker_keys m

unfoldable pub clear_all_trunk_talkers : ℕ → TgHandler → TgHandler
clear_all_trunk_talkers now s = clear_tgs now (talker_keys s.trunk_talkers) s

unfoldable pub set_trunk_talker_for_tg_via_peer : ℕ → ℕ → Bytes → Bytes → TgHandler → TgHandler
unfolding set_trunk_talker_for_tg
set_trunk_talker_for_tg_via_peer now tg callsign peer_id s =
    let s₁ =
      if is_empty callsign
      then s
      else record s { trunk_talker_peer_ids = assign tg peer_id s.trunk_talker_peer_ids } in
    let s₂ = set_trunk_talker_for_tg now tg callsign s₁ in
    if is_empty callsign
    then record s₂ { trunk_talker_peer_ids = erase tg s₂.trunk_talker_peer_ids }
    else s₂

unfoldable pub tgs_of_peer : Bytes → Map Bytes → List ℕ
tgs_of_peer peer_id [] = []
tgs_of_peer peer_id ((tg, p) ∷ m) =
    let rest = tgs_of_peer peer_id m in if bytes_eq p peer_id then tg ∷ rest else rest

unfoldable pub clear_trunk_talkers_for_peer : ℕ → Bytes → TgHandler → TgHandler
clear_trunk_talkers_for_peer now peer_id s =
    clear_tgs now (tgs_of_peer peer_id s.trunk_talker_peer_ids) s

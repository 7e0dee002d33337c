-- ===== src/Trunk/Local.antt =====
-- TrunkLink.cpp: what a link tells its peer about the local talkers.
use geu_reflector.Base.{
  ℕ, Bool, true, false, not, ◌&&◌, ◌||◌, Bytes, contains, find, if◌then◌else◌, is_some,
}
use geu_reflector.Trunk.Prefixes.{is_shared_tg}
use geu_reflector.Trunk.State.{
  Link, Reflector, talker_start, talker_stop, audio, flush, is_active, is_blacklisted, is_allowed,
  is_cluster_tg, is_peer_interested_tg, alias_to_route, map_tg_out,
}
use geu_reflector.Trunk.Send.{send_msg}

-- The guard that the four functions below repeat, on the number that the mesh uses.
unfoldable pub is_carried : Reflector → ℕ → Link → ℕ → Bool
is_carried r now l rtg =
    if is_blacklisted l rtg || not (is_allowed l rtg)
    then false
    else let mapped = is_some (find rtg l.tg_map_out) in
      if not mapped
        && not (is_shared_tg l.routes rtg)
        && not (is_cluster_tg r rtg)
        && not (is_peer_interested_tg now l rtg)
      then false
      else true

unfoldable pub on_local_talker_start : Reflector → ℕ → ℕ → Bytes → Link → Link
on_local_talker_start r now tg callsign l =
    let rtg = alias_to_route r tg in
    if not (is_active l)
    then l
    else if not (is_carried r now l rtg)
    then l
    else send_msg (talker_start (map_tg_out l rtg) callsign) l

unfoldable pub on_local_talker_stop : Reflector → ℕ → ℕ → Link → Link
on_local_talker_stop r now tg l =
    let rtg = alias_to_route r tg in
    if not (is_active l)
    then l
    else if not (is_carried r now l rtg)
    then l
    else if contains tg l.yielded_tgs
    then l
    else send_msg (talker_stop (map_tg_out l rtg)) l

unfoldable pub on_local_audio : Reflector → ℕ → ℕ → Bytes → Link → Link
on_local_audio r now tg samples l =
    let rtg = alias_to_route r tg in
    if not (is_active l) || contains tg l.yielded_tgs
    then l
    else if not (is_carried r now l rtg)
    then l
    else send_msg (audio (map_tg_out l rtg) samples) l

unfoldable pub on_local_flush : Reflector → ℕ → ℕ → Link → Link
on_local_flush r now tg l =
    let rtg = alias_to_route r tg in
    if not (is_active l)
    then l
    else if not (is_carried r now l rtg)
    then l
    else send_msg (flush (map_tg_out l rtg)) l

-- ===== src/Paired/Local.antt =====
-- TrunkLink.cpp: what a link with several hosts tells its peer about the local talkers, and the
-- talk groups of interest.
use geu_reflector.Base.{ℕ, not, ◌||◌, ◌&&◌, Bool, List, Bytes, contains, if◌then◌else◌}
use geu_reflector.Trunk.State.{
  Link, Reflector, talker_start, talker_stop, audio, flush, tg_interest, alias_to_route, map_tg_out,
}
use geu_reflector.Trunk.Local.{is_carried}
use geu_reflector.Trunk.Interest.{build_outgoing_tg_interest, same_set, map_all_out}
use geu_reflector.Paired.State.{PairedLink, paired_active, send_msg_paired}

unfoldable pub paired_on_local_talker_start : Reflector → ℕ → ℕ → Bytes → PairedLink → PairedLink
paired_on_local_talker_start r now tg callsign p =
    let rtg = alias_to_route r tg in
    if not (paired_active p)
    then p
    else if not (is_carried r now p.shared rtg)
    then p
    else send_msg_paired (talker_start (map_tg_out p.shared rtg) callsign) p

unfoldable pub paired_on_local_talker_stop : Reflector → ℕ → ℕ → PairedLink → PairedLink
paired_on_local_talker_stop r now tg p =
    let rtg = alias_to_route r tg in
    if not (paired_active p)
    then p
    else if not (is_carried r now p.shared rtg)
    then p
    else if contains tg p.shared.yielded_tgs
    then p
    else send_msg_paired (talker_stop (map_tg_out p.shared rtg)) p

unfoldable pub paired_on_local_audio : Reflector → ℕ → ℕ → Bytes → PairedLink → PairedLink
paired_on_local_audio r now tg samples p =
    let rtg = alias_to_route r tg in
    if not (paired_active p) || contains tg p.shared.yielded_tgs
    then p
    else if not (is_carried r now p.shared rtg)
    then p
    else send_msg_paired (audio (map_tg_out p.shared rtg) samples) p

unfoldable pub paired_on_local_flush : Reflector → ℕ → ℕ → PairedLink → PairedLink
paired_on_local_flush r now tg p =
    let rtg = alias_to_route r tg in
    if not (paired_active p)
    then p
    else if not (is_carried r now p.shared rtg)
    then p
    else send_msg_paired (flush (map_tg_out p.shared rtg)) p

unfoldable pub paired_send_tg_interest : ℕ → List Link → Bool → PairedLink → PairedLink
paired_send_tg_interest now others force p =
    let outgoing = build_outgoing_tg_interest now others p.shared in
    if not (paired_active p)
    then p
    else if not force && same_set outgoing p.shared.last_sent_tg_interest
    then p
    else let sent =
        send_msg_paired (tg_interest p.shared.peer_id_config (map_all_out p.shared outgoing)) p in
      record sent { shared = record sent.shared { last_sent_tg_interest = outgoing } }

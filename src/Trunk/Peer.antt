-- ===== src/Trunk/Peer.antt =====
-- TrunkLink.cpp: the messages of the peer. `now` is in microseconds, as in the talk group handler;
-- the time of interest is in seconds. A talker update that the handler emits is in its log: the
-- reflector's answer to it, `onLocalTalkerStop` of this link, is not run inside the handler.
use geu_reflector.Base.{
  ℕ, Bool, true, false, not, ◌&&◌, ◌||◌, Option, none, some, Bytes, insert, remove, contains,
  assign, find, leb, if◌then◌else◌, is_some, is_empty,
}
use geu_reflector.TgHandler.State.{talker_for_tg, seconds}
use geu_reflector.TgHandler.Talkers.{set_talker_for_tg}
use geu_reflector.TgHandler.TrunkTalkers.{
  trunk_talker_for_tg, clear_trunk_talker_for_tg, set_trunk_talker_for_tg_via_peer,
}
use geu_reflector.Trunk.Prefixes.{is_owned_tg, matches_routable}
use geu_reflector.Trunk.Ident.{sanitize_ident}
use geu_reflector.Trunk.State.{
  verify, Link, World, Reflector, Hello, Effect, do_effect, outbound, disconnected, interest_update,
  external_start, external_stop, relayed_start, relayed_stop, relayed_audio, relayed_flush,
  broadcast_audio, broadcast_flush, satellites_audio, satellites_flush, twin_audio, twin_flush,
  map_tg_in, is_cluster_tg, alias_to_local, is_blacklisted, is_allowed, is_callsign_muted, peer_id,
}
use geu_reflector.Trunk.Relay.{has_prefix_route, should_relay_inbound}

abbrev pub tell : Effect → World → World
tell e w = record w { link = do_effect e w.link }

-- The guard that the four handlers of talker messages repeat.
unfoldable pub is_accepted : Reflector → Link → ℕ → Bool
is_accepted r l wire_tg =
    let local_tg = map_tg_in l wire_tg in
    if is_blacklisted l wire_tg || is_blacklisted l local_tg || not (is_allowed l wire_tg)
    then false
    else let mapped = is_some (find wire_tg l.tg_map_in) in
      if not mapped
        && not (is_owned_tg l.routes wire_tg)
        && not (is_cluster_tg r wire_tg)
        && not (has_prefix_route r wire_tg)
        && not (matches_routable l.routes wire_tg)
      then false
      else true

unfoldable pub handle_msg_peer_hello : Reflector → Bool → Hello → Link → Link
handle_msg_peer_hello r is_inbound h l =
    if is_inbound
    then l
    else if is_empty h.id || not (verify r h l.secret)
    then do_effect (disconnected outbound) (record l { con_connected = false })
    else do_effect interest_update (record l {
      peer_priority = h.priority;
      peer_id_received = sanitize_ident h.id 64;
      ob_hello_received = true;
      tg_interest_timer = true;
    })

-- The tie-break: with a local talker, `none` is that the peer's claim is ignored.
unfoldable pub tie_break : ℕ → ℕ → World → Option World
tie_break now deliver_tg w =
    if not (is_some (talker_for_tg deliver_tg w.tgs))
    then some w
    else if leb w.link.priority w.link.peer_priority
    then none
    else some (record {
      link = record w.link { yielded_tgs = insert deliver_tg w.link.yielded_tgs };
      tgs = set_talker_for_tg now deliver_tg none w.tgs;
    })

-- What follows the tie-break in `handleMsgPeerTalkerStart`.
unfoldable pub accept_claim : Reflector → ℕ → ℕ → ℕ → Bytes → World → World
accept_claim r now local_tg deliver_tg callsign w =
    let l = record w.link {
      peer_active_tgs = insert local_tg w.link.peer_active_tgs;
      peer_interested_tgs = assign local_tg (seconds now) w.link.peer_interested_tgs;
    } in
    let tgs = set_trunk_talker_for_tg_via_peer now deliver_tg callsign (peer_id l) w.tgs in
    let l' = do_effect (external_start deliver_tg callsign) l in
    record {
      link =
          if should_relay_inbound r local_tg
          then do_effect (relayed_start local_tg callsign) l'
          else l';
      tgs = tgs;
    }

unfoldable pub handle_msg_peer_talker_start : Reflector → ℕ → ℕ → Bytes → World → World
handle_msg_peer_talker_start r now wire_tg callsign w =
    if not (is_accepted r w.link wire_tg)
    then w
    else let local_tg = map_tg_in w.link wire_tg in
      let deliver_tg = alias_to_local r local_tg in
      elim (tie_break now deliver_tg w) [
        | none ↦ w
        | some w' ↦ accept_claim r now local_tg deliver_tg callsign w'
      ]

unfoldable pub handle_msg_peer_talker_stop : Reflector → ℕ → ℕ → World → World
handle_msg_peer_talker_stop r now wire_tg w =
    if not (is_accepted r w.link wire_tg)
    then w
    else let local_tg = map_tg_in w.link wire_tg in
      let deliver_tg = alias_to_local r local_tg in
      let l = do_effect (external_stop deliver_tg) (record w.link {
        yielded_tgs = remove deliver_tg w.link.yielded_tgs;
        peer_active_tgs = remove local_tg w.link.peer_active_tgs;
      }) in
      record {
        link = if should_relay_inbound r local_tg then do_effect (relayed_stop local_tg) l else l;
        tgs = clear_trunk_talker_for_tg now deliver_tg w.tgs;
      }

unfoldable pub handle_msg_peer_audio : Reflector → ℕ → ℕ → Bytes → World → World
handle_msg_peer_audio r now wire_tg samples w =
    let local_tg = map_tg_in w.link wire_tg in
    let deliver_tg = alias_to_local r local_tg in
    let cs = trunk_talker_for_tg deliver_tg w.tgs in
    if is_empty samples || not (is_accepted r w.link wire_tg)
    then w
    else if not (contains local_tg w.link.peer_active_tgs)
    then w
    else if not (is_empty cs) && is_callsign_muted w.link cs
    then w
    else let l = do_effect (twin_audio deliver_tg samples) (
        do_effect (satellites_audio deliver_tg samples) (
          do_effect (broadcast_audio deliver_tg samples) (record w.link {
            peer_interested_tgs = assign local_tg (seconds now) w.link.peer_interested_tgs;
          }))) in
      record w {
        link =
            if should_relay_inbound r local_tg
            then do_effect (relayed_audio local_tg samples) l
            else l;
      }

unfoldable pub handle_msg_peer_flush : Reflector → ℕ → World → World
handle_msg_peer_flush r wire_tg w =
    if not (is_accepted r w.link wire_tg)
    then w
    else let local_tg = map_tg_in w.link wire_tg in
      let deliver_tg = alias_to_local r local_tg in
      let l =
        do_effect (twin_flush deliver_tg) (
          do_effect (satellites_flush deliver_tg)
            (do_effect (broadcast_flush deliver_tg) w.link)) in
      record w {
        link = if should_relay_inbound r local_tg then do_effect (relayed_flush local_tg) l else l;
      }

-- ===== src/Tests/Twin.antt =====
-- Two twins, at concrete states.
use geu_reflector.Base.{
  ℕ, ◌≡◌, refl, true, false, ◌&&◌, ◌==◌, [], ◌∷◌, none, some, codes, find, bytes_eq, is_some,
  if◌then◌else◌, arith,
}
use geu_reflector.TgHandler.State.{TgHandler, new_handler}
use geu_reflector.TgHandler.TrunkTalkers.{peer_id_for_tg}
use geu_reflector.TgHandler.Peers.{IsSound}
use geu_reflector.Trunk.State.{Hello, verify, make_hello, hello, talker_start, role_twin}
use geu_reflector.Wire.Codec.{and_then, pack_two}
use geu_reflector.Wire.Numbers.{pack8}
use geu_reflector.Wire.Sequences.{pack_vector, pack_items, all_values}
use geu_reflector.Wire.Texts.{pack_text}
use geu_reflector.Wire.Peers.{pack_msg, pack_members, type_of}
use geu_reflector.Wire.Links.{peer, packs_link, pack_link_msg}
use geu_reflector.Server.Handshake.{IsSigned}
use geu_reflector.Satellite.State.{Parent, new_satellite_link}
use geu_reflector.Satellite.Frames.{message}
use geu_reflector.Twin.State.{
  TwinLink, TwinWorld, sent_outbound, sent_inbound, is_twin_active, twin_hello,
}
use geu_reflector.Twin.Connect.{twin_connected}
use geu_reflector.Twin.Frames.{twin_frame_received, twin_ext_stop}
use geu_reflector.Twin.Server.{TwinServer, is_twin_hello, twin_pending_frame_received}
use geu_reflector.Twin.Handshake.{AreTwins, twin_handshake}
use geu_reflector.Twin.Strangers.{Unheard, receive_twin, receive_twin-Unheard}
use geu_reflector.Twin.Silence.{IsLost, quiet_ticks, quiet_ticks-IsLost}
use geu_reflector.Twin.Attribution.{twin_ext_stop_lem}
use geu_reflector.Tests.Link.{keyed, some_nonce}
use geu_reflector.Tests.Nodes.{print_true, read_true, silent_node}
use geu_reflector.Tests.Satellite.{parent_of, quiet_hub}

abbrev twin_of : ℕ → TwinLink
twin_of priority = record {
  secret = codes "secret";
  local_prefix = codes "222";
  peer_id_config = codes "TWIN";
  peer_id_received = [];
  priority = priority;
  peer_priority = 0;
  con_connected = false;
  inbound_con = none;
  inbound_connected = false;
  heartbeat_timer = false;
  ob_hello_received = false;
  ob_hb_tx_cnt = 0;
  ob_hb_rx_cnt = 0;
  ib_hello_received = false;
  ib_hb_tx_cnt = 0;
  ib_hb_rx_cnt = 0;
  partner_nodes = [];
  out = [];
}

abbrev world_of : TwinLink → TwinWorld
world_of l = record { link = l; parent = parent_of new_satellite_link }

abbrev server_of : TwinLink → TwinServer
server_of l = record {
  twin_pending = (7, 70) ∷ [];
  next_timer = 71;
  world = world_of l;
  closed = [];
}

pub keyed-IsSigned : IsSigned keyed keyed (codes "secret") some_nonce (1 ∷ codes "secret")
keyed-IsSigned = record { drawn = refl; long = refl; digested = refl; full = refl; checked = refl }

twin_1-packs : packs_link (twin_hello keyed (twin_of 1)) ≡ true
unfolding packs_link pack_link_msg twin_hello pack_msg pack_members type_of make_hello all_values
    and_then pack_two pack8 pack_vector pack_items pack_text
twin_1-packs = refl

twin_2-packs : packs_link (twin_hello keyed (twin_of 2)) ≡ true
unfolding packs_link pack_link_msg twin_hello pack_msg pack_members type_of make_hello all_values
    and_then pack_two pack8 pack_vector pack_items pack_text
twin_2-packs = refl

twins_1_2 : AreTwins keyed keyed (twin_of 1) (twin_of 2)
twins_1_2 = record {
  secret = refl;
  prefix = refl;
  nonce = some_nonce;
  digest = 1 ∷ codes "secret";
  signed = keyed-IsSigned;
  packed = twin_1-packs;
}

twins_2_1 : AreTwins keyed keyed (twin_of 2) (twin_of 1)
twins_2_1 = record {
  secret = refl;
  prefix = refl;
  nonce = some_nonce;
  digest = 1 ∷ codes "secret";
  signed = keyed-IsSigned;
  packed = twin_2-packs;
}

seven_waits : is_some (find 7 (server_of (twin_of 2)).twin_pending) ≡ true
unfolding find
seven_waits = refl

twin_handshake_example :
    ((twin_connected keyed (twin_of 1)).out ≡ sent_outbound (twin_hello keyed (twin_of 1)) ∷ [])
    × (is_twin_active
          (twin_pending_frame_received keyed 7
            (message (twin_hello keyed (twin_of 1)))
            (server_of (twin_of 2))).world.link
        ≡ true)
    × ((twin_pending_frame_received keyed 7
          (message (twin_hello keyed (twin_of 1)))
          (server_of (twin_of 2))).world.link.out
        ≡ sent_inbound (twin_hello keyed (twin_of 2)) ∷ [])
    × (is_twin_active
          (twin_frame_received print_true read_true keyed 5 none
            (message (twin_hello keyed (twin_of 2)))
            (record (world_of (twin_of 1)) { link = twin_connected keyed (twin_of 1) })).link
        ≡ true)
twin_handshake_example =
    twin_handshake print_true read_true keyed keyed 5 7 (world_of (twin_of 1))
      (server_of (twin_of 2)) twins_1_2 twins_2_1 seven_waits refl

abbrev impostor : Hello
impostor = record {
  id = codes "TWIN";
  local_prefix = codes "222";
  priority = 3;
  nonce = some_nonce;
  digest = codes "guess";
  role = role_twin;
}

impostor-fails : is_twin_hello keyed (twin_of 1) impostor ≡ false
unfolding is_twin_hello verify bytes_eq
impostor-fails = refl

receive_twin-Unheard_example : Unheard (world_of (twin_of 1)) (
    receive_twin print_true read_true keyed
      ((5, message (peer (hello impostor))) ∷ (6, message (peer (talker_start 240 []))) ∷ [])
      (world_of (twin_of 1)))
receive_twin-Unheard_example =
    receive_twin-Unheard print_true read_true keyed
      ((5, message (peer (hello impostor))) ∷ (6, message (peer (talker_start 240 []))) ∷ [])
      (world_of (twin_of 1)) (impostor-fails, (refl, tt)) refl

-- A link that has both connections, and has heard nothing for one tick on one and two on the other.
abbrev paired_up : TwinLink
paired_up = record (twin_of 1) {
  con_connected = true;
  inbound_con = some 7;
  inbound_connected = true;
  ob_hello_received = true;
  ib_hello_received = true;
  heartbeat_timer = true;
  ob_hb_rx_cnt = 1;
  ib_hb_rx_cnt = 2;
  partner_nodes = silent_node ∷ [];
}

quiet_ticks-IsLost_example : IsLost (quiet_ticks 4 paired_up)
quiet_ticks-IsLost_example =
    quiet_ticks-IsLost 3 paired_up (record { outbound = refl; inbound = refl; live = refl })

-- A talker on 240 that the peer "B" has reported.
abbrev held_240 : TgHandler
held_240 = record new_handler {
  trunk_talkers = (240, codes "SM0A") ∷ [];
  trunk_talker_peer_ids = (240, codes "B") ∷ [];
}

abbrev holding : Parent
holding = record (parent_of new_satellite_link) { hub = record quiet_hub { tgs = held_240 } }

held-IsSound : IsSound held_240
unfolding new_handler find
held-IsSound = record { named = λ tg. ground arith; limited = omega arith; keyed = (refl, tt) }

twin_ext_stop_example : find 240 (twin_ext_stop 9 240 (codes "B") holding).hub.tgs.trunk_talkers ≡ (
    if (240 == 240) && bytes_eq (peer_id_for_tg 240 held_240) (codes "B")
    then none
    else find 240 held_240.trunk_talkers)
twin_ext_stop_example = twin_ext_stop_lem 9 240 240 (codes "B") holding held-IsSound

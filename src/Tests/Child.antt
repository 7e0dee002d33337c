-- ===== src/Tests/Child.antt =====
-- A satellite that connects to its parent, at concrete states.
use geu_reflector.Base.{◌≡◌, refl, true, false, [], ◌∷◌, none, some, codes, find, bytes_eq, arith}
use geu_reflector.TgFilter.Entry.{parse}
use geu_reflector.Trunk.State.{heartbeat, make_hello}
use geu_reflector.Wire.Codec.{and_then, pack_two}
use geu_reflector.Wire.Numbers.{pack8}
use geu_reflector.Wire.Sequences.{pack_vector, pack_items, all_values}
use geu_reflector.Wire.Texts.{pack_text}
use geu_reflector.Wire.Peers.{pack_msg, pack_members, type_of}
use geu_reflector.Wire.Links.{peer, peer_filter, packs_link, pack_link_msg}
use geu_reflector.Satellite.State.{SatelliteLink, resolve_satellite_secret, find_secret}
use geu_reflector.Satellite.Frames.{message, parent_hello, satellite_frame_received}
use geu_reflector.Satellite.Client.{
  SatelliteClient, Child, sent, roster_update, client_hello, parent_frame_received,
}
use geu_reflector.Satellite.Stopped.{client_ticks, client_ticks-none}
use geu_reflector.Satellite.Agreement.{Known, Agreed, satellite_joins}
use geu_reflector.Tests.Nodes.{print_true, read_true}
use geu_reflector.Tests.Satellite.{parent_of}
use geu_reflector.Tests.Link.{keyed, some_nonce}
use geu_reflector.Tests.Twin.{keyed-IsSigned}

abbrev child_client : SatelliteClient
child_client = record {
  con_connected = true;
  secret = codes "secret";
  satellite_id = codes "S";
  priority = 1;
  hello_received = false;
  heartbeat_timer = true;
  hb_tx_cnt = 10;
  hb_rx_cnt = 15;
  filter = parse (codes "24*");
  filter_str = codes "24*";
  parent_id = [];
  parent_nodes = [];
  out = [];
}

abbrev fresh_link : SatelliteLink
fresh_link = record {
  is_open = true;
  resolved_secret = [];
  satellite_id = [];
  hello_received = false;
  heartbeat_timer = false;
  hb_tx_cnt = 10;
  hb_rx_cnt = 15;
  sat_active_tgs = [];
  tg_filter = [];
  partner_nodes = [];
  out = [];
}

abbrev child_of : SatelliteClient → Child
child_of c = record { client = c; own = parent_of fresh_link }

child-resolved : resolve_satellite_secret (parent_of fresh_link) (codes "S") ≡ some (codes "secret")
unfolding resolve_satellite_secret find_secret bytes_eq
child-resolved = refl

child-Known : Known keyed keyed child_client (parent_of fresh_link)
child-Known = record {
  named = refl;
  resolved = child-resolved;
  nonce = some_nonce;
  digest = 1 ∷ codes "secret";
  signed = keyed-IsSigned;
  parent_nonce = some_nonce;
  parent_digest = 1 ∷ codes "secret";
  parent_signed = keyed-IsSigned;
}

parent_hello-packs : packs_link (parent_hello keyed (codes "secret")) ≡ true
unfolding packs_link pack_link_msg parent_hello pack_msg pack_members type_of make_hello all_values
    and_then pack_two pack8 pack_vector pack_items pack_text
parent_hello-packs = refl

filter-packs : packs_link (peer_filter (codes "24*")) ≡ true
unfolding packs_link pack_link_msg and_then pack_two pack8 pack_text
filter-packs = refl

heartbeat-packs : packs_link (peer heartbeat) ≡ true
unfolding packs_link pack_link_msg pack_msg pack_members type_of and_then pack_two pack8
heartbeat-packs = refl

fresh_there : find 3 (parent_of fresh_link).sats ≡ some fresh_link
unfolding find
fresh_there = refl

satellite_joins_example :
    (w' : Child) × (parent_frame_received print_true read_true keyed 5
        (message (parent_hello keyed (codes "secret")))
        (child_of child_client)
      ≡ some w')
    × (w'.client.out ≡ roster_update ∷ sent (peer_filter (codes "24*")) ∷ [])
    × Agreed print_true read_true keyed 3 fresh_link
        (codes "secret")
        (satellite_frame_received print_true read_true keyed 5 3
          (message (peer_filter (codes "24*")))
          (satellite_frame_received print_true read_true keyed 5 3
            (message (client_hello keyed child_client))
            (parent_of fresh_link)))
        w'
satellite_joins_example =
    satellite_joins print_true read_true keyed keyed 5 3 fresh_link (parent_of fresh_link)
      (child_of child_client) child-Known fresh_there refl parent_hello-packs refl refl refl
      filter-packs

client_ticks-none_example :
    client_ticks 10 (record child_client { con_connected = false; hello_received = true }) ≡ none
client_ticks-none_example =
    client_ticks-none 9 (record child_client { con_connected = false; hello_received = true })
      heartbeat-packs refl refl (omega arith)

-- ===== src/Tests/Fanout.antt =====
-- Clients of which peers are told, at concrete states.
use geu_reflector.Base.{
  ◌≡◌, ◌≤◌, refl, true, false, List, [], ◌∷◌, ◌++◌, find, none, some, codes, inl, bytes_eq,
  value_or, arith,
}
use geu_reflector.Audio.Filters.{Client}
use geu_reflector.Nodes.Json.{Json, unsigned, array, object, element, nil, end, member, find_member}
use geu_reflector.Nodes.Entry.{NodeEntry, columns_of, status_blob}
use geu_reflector.Satellite.State.{SatelliteLink, filter_passes_tg}
use geu_reflector.Fanout.Clients.{Outlets}
use geu_reflector.Fanout.Debounce.{RxDebounce, emit_rx_debounced, rx_debounce_expired}
use geu_reflector.Fanout.Rate.{
  rx_changed, timer_fired, rx_events, latest, IsPaced, rx_events-latest, rx_events-IsPaced,
}
use geu_reflector.Fanout.Rosters.{
  plain_node, local_node, local_nodes, satellite_nodes_of, for_this_sat,
  send_node_list_to_all_peers,
}
use geu_reflector.Satellite.Frames.{passing_nodes}
use geu_reflector.Wire.Codec.{and_then, pack_two}
use geu_reflector.Wire.Numbers.{pack8}
use geu_reflector.Wire.Sequences.{pack_vector, pack_items}
use geu_reflector.Wire.Texts.{pack_text}
use geu_reflector.Wire.Links.{packs_link, pack_link_msg, node_list}
use geu_reflector.Fanout.Foreign.{is_odd_status, send_node_list_to_all_peers_throws}
use geu_reflector.Fanout.Chosen.{given, Roster, send_node_list_to_all_peers-Roster}
use geu_reflector.Tests.Nodes.{silent_node, print_true, read_true}
use geu_reflector.Tests.Satellite.{talking}

-- The first change is passed on at 600 ms; the next ones, at 700 and 800 ms, wait.
abbrev idle : RxDebounce
idle = record { last_emit = 0; pending = none; pending_value = []; emitted = [] }

rx_due :
    value_or
      (emit_rx_debounced 800000000 (codes "c") (
        rx_events
          (rx_changed 600000000 (codes "a") ∷ rx_changed 700000000 (codes "b") ∷ [])
          idle)).pending
      1100000000
    ≤ 1100000000
unfolding emit_rx_debounced rx_events
rx_due = omega arith

rx_events-latest_example :
    latest
      (rx_debounce_expired 1100000000 (
        emit_rx_debounced 800000000 (codes "c") (
          rx_events
            (rx_changed 600000000 (codes "a") ∷ rx_changed 700000000 (codes "b") ∷ [])
            idle))).emitted
    ≡ some (codes "c")
rx_events-latest_example =
    rx_events-latest (rx_changed 600000000 (codes "a") ∷ rx_changed 700000000 (codes "b") ∷ [])
      800000000 1100000000 (codes "c") idle (omega arith, (omega arith, omega arith)) (omega arith)
      rx_due

rx_events-IsPaced_example : IsPaced (
    rx_events
      (rx_changed 600000000 (codes "a")
        ∷ rx_changed 700000000 (codes "b")
        ∷ timer_fired 1100000000
        ∷ [])
      idle)
rx_events-IsPaced_example =
    rx_events-IsPaced
      (rx_changed 600000000 (codes "a")
        ∷ rx_changed 700000000 (codes "b")
        ∷ timer_fired 1100000000
        ∷ [])
      idle tt

-- `{"qth":[5]}`
abbrev odd_info : Json
odd_info = object (member (codes "qth") (array (element (unsigned 5) nil)) end)

abbrev odd_client : Client
odd_client = record {
  callsign = codes "SM0A";
  is_connected = true;
  proto_ver = record { major_ver = 3; minor_ver = 0 };
  current_tg = 240;
  monitored_tgs = [];
  blocktime = 0;
  remaining_blocktime = 0;
}

abbrev outlets : Outlets
outlets = record {
  clients = (7, odd_client) ∷ [];
  sats = (3, talking) ∷ [];
  satellite_client = none;
  is_satellite = false;
  twin = none;
  trunk_lists = [];
  rx_debounce = [];
}

odd_info-odd : is_odd_status odd_info ≡ true
unfolding find_member bytes_eq
odd_info-odd = refl

send_node_list_to_all_peers_throws_example :
    send_node_list_to_all_peers print_true read_true (λ v. 0) (λ callsign. some odd_info) outlets
    ≡ none
send_node_list_to_all_peers_throws_example =
    send_node_list_to_all_peers_throws print_true read_true (λ v. 0) (λ callsign. some odd_info)
      odd_info odd_client 7 outlets (inl refl) refl refl odd_info-odd

-- The satellite has told a client of its own.
abbrev own_node : NodeEntry
own_node = record silent_node { sat_id = codes "S" }

abbrev telling : SatelliteLink
telling = record talking { partner_nodes = own_node ∷ [] }

abbrev told_outlets : Outlets
told_outlets = record outlets { sats = (3, telling) ∷ [] }

abbrev combined : List NodeEntry
combined = plain_node odd_client ∷ [] ++ satellite_nodes_of told_outlets.sats

odd_client-local :
    local_nodes (λ v. 0) (λ callsign. none) told_outlets.clients ≡ some (plain_node odd_client ∷ [])
unfolding local_nodes local_node
odd_client-local = refl

telling-there : find 3 told_outlets.sats ≡ some telling
unfolding find
telling-there = refl

combined-packs :
    packs_link
      (node_list (columns_of print_true read_true (given print_true read_true telling combined)))
    ≡ true
unfolding packs_link pack_link_msg and_then pack_two pack8 pack_vector pack_items pack_text
    columns_of status_blob passing_nodes for_this_sat satellite_nodes_of filter_passes_tg bytes_eq
combined-packs = refl

send_node_list_to_all_peers-Roster_example :
    (o' : Outlets) × (l' : SatelliteLink) × (send_node_list_to_all_peers print_true read_true
        (λ v. 0)
        (λ callsign. none)
        told_outlets
      ≡ some o')
    × (find 3 o'.sats ≡ some l')
    × Roster print_true read_true combined telling l'
send_node_list_to_all_peers-Roster_example =
    send_node_list_to_all_peers-Roster print_true read_true (λ v. 0) (λ callsign. none) 3
      (plain_node odd_client ∷ []) telling told_outlets odd_client-local refl telling-there refl
      refl combined-packs

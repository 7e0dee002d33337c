-- ===== src/Fanout/Rosters.antt =====
-- Reflector.cpp, sendNodeListToAllPeers: the lists of clients that are sent.
-- `status_of_client` is m_status["nodes"], which has what each client said of itself; `as_float` is
-- that of jsoncpp, and `write` and `parse` are those of JSON. `none` is an exception that nothing
-- catches, or a write that stops the program.
use geu_reflector.Base.{
  ℕ, not, ◌&&◌, List, [], ◌∷◌, ◌++◌, Option, none, some, Map, Bytes, codes, bytes_eq, is_empty,
  if◌then◌else◌,
}
use geu_reflector.Audio.Filters.{Client}
use geu_reflector.Nodes.Json.{
  Json, null, unsigned, number, string, array, object, element, find_member,
}
use geu_reflector.Nodes.Entry.{NodeEntry}
use geu_reflector.Satellite.State.{SatelliteLink}
use geu_reflector.Satellite.Frames.{send_nodes_to_satellite}
use geu_reflector.Satellite.Client.{client_send_nodes}
use geu_reflector.Twin.State.{twin_local_nodes}
use geu_reflector.Fanout.Clients.{Outlets, tell_parent, tell_twin}

abbrev pub plain_node : Client → NodeEntry
plain_node c = record {
  callsign = c.callsign;
  tg = c.current_tg;
  lat = 0;
  lon = 0;
  qth_name = [];
  status = null;
  sat_id = [];
}

abbrev pub float_or : (Json → ℕ) → ℕ → Option Json → ℕ
float_or as_float x (some (unsigned n)) = as_float (unsigned n)
float_or as_float x (some (number n)) = as_float (number n)
float_or as_float x o = x

abbrev pub text_or : Bytes → Option Json → Bytes
text_or x (some (string s)) = s
text_or x o = x

module _ (as_float : Json → ℕ) where
  -- The place, of the first element of "qth".
  unfoldable pub locate : Json → NodeEntry → Option NodeEntry
  locate null e = some e
  locate (object ms) e = some (record e {
    lat = float_or as_float e.lat (find_member (codes "lat") ms);
    lon = float_or as_float e.lon (find_member (codes "lon") ms);
    qth_name = text_or e.qth_name (find_member (codes "name") ms);
  })
  locate v e = none

  unfoldable pub locate_first : Option Json → NodeEntry → Option NodeEntry
  locate_first (some (array (element q qs))) e = locate q e
  locate_first o e = some e

  unfoldable pub describe : Json → NodeEntry → Option NodeEntry
  describe null e = some e
  describe (object ms) e = locate_first (find_member (codes "qth") ms) e
  describe v e = none

  unfoldable pub local_node : Option Json → Client → Option NodeEntry
  local_node none c = some (plain_node c)
  local_node (some v) c = describe v (record (plain_node c) { status = v })

  unfoldable pub local_nodes : (Bytes → Option Json) → Map Client → Option (List NodeEntry)
  local_nodes status_of_client [] = some []
  local_nodes status_of_client ((con, c) ∷ cs) =
      let rest = local_nodes status_of_client cs in
      if is_empty c.callsign then rest else elim (local_node (status_of_client c.callsign) c) [
        | none ↦ none
        | some e ↦ elim rest [ none ↦ none | some es ↦ some (e ∷ es) ]
      ]

unfoldable pub satellite_nodes_of : Map SatelliteLink → List NodeEntry
satellite_nodes_of [] = []
satellite_nodes_of ((con, l) ∷ m) = l.partner_nodes ++ satellite_nodes_of m

-- The combined list without what a satellite has told itself.
unfoldable pub for_this_sat : Bytes → List NodeEntry → List NodeEntry
for_this_sat id [] = []
for_this_sat id (n ∷ ns) =
    let rest = for_this_sat id ns in
    if not (is_empty id) && bytes_eq n.sat_id id then rest else n ∷ rest

module _ (write : Json → Bytes) (parse : Bytes → Option Json) where
  unfoldable pub send_rosters : List NodeEntry → Map SatelliteLink → Map SatelliteLink
  send_rosters combined [] = []
  send_rosters combined ((con, l) ∷ m) =
      (con, send_nodes_to_satellite write parse (for_this_sat l.satellite_id combined) l)
      ∷ send_rosters combined m

  abbrev pub send_to_peers : List NodeEntry → Outlets → Option Outlets
  send_to_peers local o =
      let combined = local ++ satellite_nodes_of o.sats in
      let o1 =
        tell_twin (twin_local_nodes write parse combined)
          (record o { trunk_lists = combined ∷ o.trunk_lists }) in
      let o2 = record o1 { sats = send_rosters combined o.sats } in
      if o2.is_satellite then tell_parent (client_send_nodes write parse local) o2 else some o2

  unfoldable pub send_node_list_to_all_peers :
      (Json → ℕ) → (Bytes → Option Json) → Outlets → Option Outlets
  send_node_list_to_all_peers as_float status_of_client o =
      elim (local_nodes as_float status_of_client o.clients) [
        | none ↦ none
        | some local ↦ send_to_peers local o
      ]

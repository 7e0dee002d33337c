-- ===== src/Fanout/Clients.antt =====
-- Reflector.cpp and SatelliteLink.cpp: the events of a local client, as satellites, parent and twin
-- are told of them. `none` is a write that stops the program (SatelliteClient.cpp).
use geu_reflector.Base.{
  ℕ, Bool, not, ◌||◌, List, [], ◌∷◌, Option, none, some, Map, Bytes, bytes_eq, ◌==◌, if◌then◌else◌,
}
use geu_reflector.Audio.Filters.{Client}
use geu_reflector.Nodes.Entry.{NodeEntry}
use geu_reflector.Fanout.Debounce.{RxDebounce}
use geu_reflector.Wire.Links.{
  LinkMsg, client_connected, client_disconnected, client_rx, client_status,
}
use geu_reflector.Satellite.State.{
  SatelliteLink, every_satellite, filter_passes_tg, send_to_satellite,
}
use geu_reflector.Satellite.Client.{
  SatelliteClient, client_send_connected, client_send_disconnected, client_send_rx,
  client_send_status,
}
use geu_reflector.Twin.State.{
  TwinLink, twin_send_client_connected, twin_send_client_disconnected, twin_send_client_rx,
  twin_send_client_status,
}

-- m_client_con_map, m_satellite_con_map, m_satellite_client, m_twin_link and m_rx_debounce, whose
-- entries go with their timers; `trunk_lists` has the lists that the trunk links are given, the
-- newest first.
pub record Outlets : Type 0 where
  pub clients : Map Client
  pub sats : Map SatelliteLink
  pub satellite_client : Option SatelliteClient
  pub is_satellite : Bool
  pub twin : Option TwinLink
  pub trunk_lists : List (List NodeEntry)
  pub rx_debounce : List (Bytes × RxDebounce)

abbrev pub to_authenticated : LinkMsg → SatelliteLink → SatelliteLink
to_authenticated m l = if not l.hello_received then l else send_to_satellite m l

-- SatelliteLink::sendClientConnected
unfoldable pub satellite_client_connected : Bytes → ℕ → Bytes → SatelliteLink → SatelliteLink
satellite_client_connected callsign tg ip l =
    if not (filter_passes_tg l tg) then l else to_authenticated (client_connected callsign tg ip) l

-- `tg == 0 || kv.second->filterPassesTg(tg)`, and sendClientDisconnected, sendClientRx or
-- sendClientStatus.
unfoldable pub satellite_client_event : ℕ → LinkMsg → SatelliteLink → SatelliteLink
satellite_client_event tg m l =
    if (tg == 0) || filter_passes_tg l tg then to_authenticated m l else l

unfoldable pub current_client_tg : Bytes → Map Client → ℕ
current_client_tg callsign [] = 0
current_client_tg callsign ((con, c) ∷ cs) =
    let rest = current_client_tg callsign cs in
    if bytes_eq c.callsign callsign then c.current_tg else rest

abbrev pub tell_parent : (SatelliteClient → Option SatelliteClient) → Outlets → Option Outlets
tell_parent f o = elim o.satellite_client [
  | none ↦ some o
  | some c ↦ elim (f c) [ none ↦ none | some c' ↦ some (record o { satellite_client = some c' }) ]
]

abbrev pub tell_twin : (TwinLink → TwinLink) → Outlets → Outlets
tell_twin f o = elim o.twin [ none ↦ o | some l ↦ record o { twin = some (f l) } ]

abbrev pub tell_all :
    (SatelliteLink → SatelliteLink)
    → (SatelliteClient → Option SatelliteClient)
    → (TwinLink → TwinLink)
    → Outlets
    → Option Outlets
tell_all f g h o = elim (tell_parent g (record o { sats = every_satellite f o.sats })) [
  | none ↦ none
  | some o' ↦ some (tell_twin h o')
]

unfoldable pub fanout_client_connected : Bytes → ℕ → Bytes → Outlets → Option Outlets
fanout_client_connected callsign tg ip o =
    tell_all (satellite_client_connected callsign tg ip) (client_send_connected callsign tg ip)
      (twin_send_client_connected callsign tg ip) o

abbrev pub erase_rx_debounce : Bytes → List (Bytes × RxDebounce) → List (Bytes × RxDebounce)
erase_rx_debounce callsign [] = []
erase_rx_debounce callsign ((k, e) ∷ es) =
    let rest = erase_rx_debounce callsign es in if bytes_eq k callsign then rest else (k, e) ∷ rest

abbrev pub drop_rx_debounce : Bytes → Option Outlets → Option Outlets
drop_rx_debounce callsign none = none
drop_rx_debounce callsign (some o) =
    some (record o { rx_debounce = erase_rx_debounce callsign o.rx_debounce })

unfoldable pub fanout_client_disconnected : Bytes → Outlets → Option Outlets
fanout_client_disconnected callsign o = drop_rx_debounce callsign (
    tell_all
      (satellite_client_event (current_client_tg callsign o.clients) (client_disconnected callsign))
      (client_send_disconnected callsign) (twin_send_client_disconnected callsign) o)

unfoldable pub fanout_client_rx : Bytes → Bytes → Outlets → Option Outlets
fanout_client_rx callsign json o =
    tell_all
      (satellite_client_event (current_client_tg callsign o.clients) (client_rx callsign json))
      (client_send_rx callsign json) (twin_send_client_rx callsign json) o

unfoldable pub fanout_client_status : Bytes → Bytes → Outlets → Option Outlets
fanout_client_status callsign json o =
    tell_all
      (satellite_client_event (current_client_tg callsign o.clients) (client_status callsign json))
      (client_send_status callsign json) (twin_send_client_status callsign json) o

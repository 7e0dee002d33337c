-- ===== src/Audio/Broadcast.antt =====
-- Reflector.cpp: the audio of a local client, and its end, on their way to the other clients, the
-- links, the satellites and the twin. The talker update that the talk group handler emits is run
-- behind `setTalkerForTG`. What goes to MQTT and Redis, and what is only shown, is left out.
use geu_reflector.Base.{
  ℕ, Bool, not, ◌&&◌, ◌||◌, List, [], ◌∷◌, Option, none, some, Map, NatSet, Bytes, find, ◌==◌,
  if◌then◌else◌, is_empty,
}
use geu_reflector.ProtoVer.{Version}
use geu_reflector.TgHandler.State.{TgHandler, talker_for_tg, same_client}
use geu_reflector.TgHandler.Talkers.{set_talker_for_tg}
use geu_reflector.Trunk.State.{Link, Reflector}
use geu_reflector.Trunk.Local.{
  on_local_talker_start, on_local_talker_stop, on_local_audio, on_local_flush,
}
use geu_reflector.Trunk.Relay.{every}
use geu_reflector.Audio.Filters.{
  Client, is_blocked, tg_of, has_talker, is_same, Filter, proto_ver_range_filter,
  proto_ver_larger_or_equal_filter, except_filter, tg_filter, tg_monitor_filter,
  passive_observer_filter, earliest_monitor_talker_filter, and_filter, or_filter, passes_filter,
}

pub data UdpMsg : Type 0 where
  udp_audio : Bytes → UdpMsg
  udp_flush_samples : UdpMsg
  udp_all_samples_flushed : UdpMsg

-- The calls of `sendMsg` and `sendUdpMsg` of a client, where the latter writes nothing to a client
-- whose address is not known yet, and the calls of the parent, a satellite or the twin.
pub data HubCall : Type 0 where
  sent_udp : ℕ → UdpMsg → HubCall
  sent_talker_start : ℕ → ℕ → Bytes → HubCall
  sent_talker_stop : ℕ → ℕ → Bytes → HubCall
  sent_talker_start_v1 : ℕ → Bytes → HubCall
  sent_talker_stop_v1 : ℕ → Bytes → HubCall
  parent_talker_start : ℕ → Bytes → HubCall
  parent_talker_stop : ℕ → HubCall
  parent_audio : ℕ → Bytes → HubCall
  parent_flush : ℕ → HubCall
  satellite_talker_start : ℕ → ℕ → Bytes → HubCall
  satellite_talker_stop : ℕ → ℕ → HubCall
  satellite_audio : ℕ → ℕ → Bytes → HubCall
  satellite_flush : ℕ → ℕ → HubCall
  twin_talker : ℕ → Bytes → HubCall
  twin_audio : ℕ → Bytes → HubCall
  twin_flush : ℕ → HubCall

-- `is_satellite` is that there is a connection to a parent.
pub record Hub : Type 0 where
  pub clients : Map Client
  pub tgs : TgHandler
  pub links : List Link
  pub satellites : NatSet
  pub has_twin : Bool
  pub is_satellite : Bool
  pub tg_for_v1_clients : ℕ
  pub calls : List HubCall

abbrev pub call_hub : HubCall → Hub → Hub
call_hub c s = record s { calls = c ∷ s.calls }

-- The loop of the two broadcasts, for the call that is made for a client.
unfoldable pub broadcast_from :
    TgHandler → (ℕ → HubCall) → Filter → Map Client → List HubCall → List HubCall
broadcast_from h make f [] calls = calls
broadcast_from h make f ((client, c) ∷ m) calls =
    broadcast_from h make f m
      (if passes_filter h f client c && c.is_connected then make client ∷ calls else calls)

unfoldable pub broadcast : (ℕ → HubCall) → Filter → Hub → Hub
broadcast make f s = record s { calls = broadcast_from s.tgs make f s.clients s.calls }

-- `for (auto& kv : m_satellite_con_map)`
unfoldable pub for_satellites : (ℕ → HubCall) → NatSet → List HubCall → List HubCall
for_satellites make [] calls = calls
for_satellites make (sat ∷ sats) calls = for_satellites make sats (make sat ∷ calls)

-- The parent, or else the links, the satellites and the twin.
unfoldable pub pass_on : HubCall → (Link → Link) → (ℕ → HubCall) → HubCall → Hub → Hub
pass_on to_parent to_link to_satellite to_twin s =
    if s.is_satellite
    then call_hub to_parent s
    else let s' = record s {
      links = every to_link s.links;
      calls = for_satellites to_satellite s.satellites s.calls;
    } in
      if s.has_twin then call_hub to_twin s' else s'

-- Clients in the talk group, and passive ones that monitor it and no talker that was there before.
unfoldable pub listeners : ℕ → Filter
listeners tg = or_filter (tg_filter tg) (
    and_filter (tg_monitor_filter tg)
      (and_filter passive_observer_filter (earliest_monitor_talker_filter tg)))

unfoldable pub audio_filter : ℕ → ℕ → Filter
audio_filter client tg = and_filter (except_filter (some client)) (listeners tg)

abbrev pub callsign_of : ℕ → Hub → Bytes
callsign_of client s = elim (find client s.clients) [ none ↦ [] | some c ↦ c.callsign ]

abbrev pub version : ℕ → ℕ → Version
version major_ver minor_ver = record { major_ver = major_ver; minor_ver = minor_ver }

abbrev pub v1_client_filter : Filter
v1_client_filter =
    proto_ver_range_filter (record { min_ver = version 1 0; max_ver = version 1 999 })

-- Clients of protocol 2 that are in the talk group or monitor it.
abbrev pub informed : ℕ → Filter
informed tg =
    and_filter (proto_ver_larger_or_equal_filter (version 2 0))
      (or_filter (tg_filter tg) (tg_monitor_filter tg))

-- The messages of `onTalkerUpdated` to clients.
unfoldable pub talker_stopped : ℕ → Option ℕ → Hub → Hub
talker_stopped tg none s = s
talker_stopped tg (some old) s =
    let callsign = callsign_of old s in
    let s1 = broadcast (λ d. sent_talker_stop d tg callsign) (informed tg) s in
    let s2 =
      if tg == s.tg_for_v1_clients
      then broadcast (λ d. sent_talker_stop_v1 d callsign) v1_client_filter s1
      else s1 in
    broadcast (λ d. sent_udp d udp_flush_samples)
      (and_filter (listeners tg) (except_filter (some old))) s2

unfoldable pub talker_started : ℕ → Option ℕ → Hub → Hub
talker_started tg none s = s
talker_started tg (some new) s =
    let callsign = callsign_of new s in
    let s1 = broadcast (λ d. sent_talker_start d tg callsign) (informed tg) s in
    if tg == s.tg_for_v1_clients
    then broadcast (λ d. sent_talker_start_v1 d callsign) v1_client_filter s1
    else s1

unfoldable pub announce_talker : Reflector → ℕ → ℕ → Option ℕ → Hub → Hub
announce_talker r now tg none s =
    pass_on (parent_talker_stop tg) (on_local_talker_stop r now tg)
      (λ sat. satellite_talker_stop sat tg) (twin_talker tg []) s
announce_talker r now tg (some new) s =
    let callsign = callsign_of new s in
    pass_on (parent_talker_start tg callsign) (on_local_talker_start r now tg callsign)
      (λ sat. satellite_talker_start sat tg callsign) (twin_talker tg callsign) s

unfoldable pub on_talker_updated : Reflector → ℕ → ℕ → Option ℕ → Option ℕ → Hub → Hub
on_talker_updated r now tg old new s =
    announce_talker r now tg new (talker_started tg new (talker_stopped tg old s))

unfoldable pub set_talker : Reflector → ℕ → ℕ → Option ℕ → Hub → Hub
set_talker r now tg talker s = elim (find tg s.tgs.id_map) [
  | none ↦ s
  | some info ↦
      let s' = record s { tgs = set_talker_for_tg now tg talker s.tgs } in
      if same_client talker info.talker
      then s'
      else on_talker_updated r now tg info.talker talker s'
]

-- The talker's audio goes out.
unfoldable pub forward_audio : Reflector → ℕ → ℕ → ℕ → Bytes → Hub → Hub
forward_audio r now tg client samples s =
    pass_on (parent_audio tg samples) (on_local_audio r now tg samples)
      (λ sat. satellite_audio sat tg samples) (twin_audio tg samples)
      (broadcast (λ d. sent_udp d (udp_audio samples)) (audio_filter client tg) s)

-- MsgUdpAudio, unpacked, of a client that is there.
unfoldable pub udp_audio_received : Reflector → ℕ → ℕ → Client → Bytes → Hub → Hub
udp_audio_received r now client c samples s =
    let tg = tg_of client s.tgs in
    if is_blocked c || is_empty samples || tg == 0
    then s
    else let s' = if has_talker s.tgs tg then s else set_talker r now tg (some client) s in
      if is_same client (talker_for_tg tg s'.tgs)
      then forward_audio r now tg client samples (set_talker r now tg (some client) s')
      else s'

-- MsgUdpFlushSamples
unfoldable pub udp_flush_received : Reflector → ℕ → ℕ → Hub → Hub
udp_flush_received r now client s =
    let tg = tg_of client s.tgs in
    let s' =
      if not (tg == 0) && is_same client (talker_for_tg tg s.tgs)
      then pass_on (parent_flush tg) (on_local_flush r now tg) (λ sat. satellite_flush sat tg)
          (twin_flush tg) (set_talker r now tg none s)
      else s in
    call_hub (sent_udp client udp_all_samples_flushed) s'

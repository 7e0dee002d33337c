-- ===== src/Satellite/State.antt =====
-- SatelliteLink.{h,cpp} and Reflector.{h,cpp}: a reflector that is the parent of satellites, and its
-- link to each of them. A connection is the number that stands for its pointer, and a link, of which
-- there is one for each connection, goes by the same number. The newest entries of `out` and of
-- `calls` are the last ones. What goes to MQTT and Redis is left out.
use geu_reflector.Base.{
  ℕ, Bool, true, false, not, List, [], ◌∷◌, Option, none, some, Map, NatSet, Bytes, bytes_eq, ◌==◌,
  if◌then◌else◌, is_empty,
}
use geu_reflector.TgFilter.Entry.{TgFilter, matches}
use geu_reflector.Trunk.State.{talker_start, talker_stop, audio, flush}
use geu_reflector.Wire.Links.{LinkMsg, peer, packs_link}
use geu_reflector.Nodes.Entry.{NodeEntry}
use geu_reflector.Audio.Broadcast.{Hub}

-- HEARTBEAT_TX_CNT_RESET, HEARTBEAT_RX_CNT_RESET
abbrev pub satellite_tx_cnt_reset : ℕ
satellite_tx_cnt_reset = 10

abbrev pub satellite_rx_cnt_reset : ℕ
satellite_rx_cnt_reset = 15

pub record SatelliteLink : Type 0 where
  pub is_open : Bool
  pub resolved_secret : Bytes
  pub satellite_id : Bytes
  pub hello_received : Bool
  pub heartbeat_timer : Bool
  pub hb_tx_cnt : ℕ
  pub hb_rx_cnt : ℕ
  pub sat_active_tgs : NatSet
  pub tg_filter : TgFilter
  pub partner_nodes : List NodeEntry
  pub out : List LinkMsg

unfoldable pub new_satellite_link : SatelliteLink
new_satellite_link = record {
  is_open = true;
  resolved_secret = [];
  satellite_id = [];
  hello_received = false;
  heartbeat_timer = false;
  hb_tx_cnt = satellite_tx_cnt_reset;
  hb_rx_cnt = satellite_rx_cnt_reset;
  sat_active_tgs = [];
  tg_filter = [];
  partner_nodes = [];
  out = [];
}

pub data ParentCall : Type 0 where
  status_changed : ℕ → ParentCall
  schedule_node_list_update : ParentCall
  peer_node_list : Bytes → List NodeEntry → ParentCall
  disconnect_satellite : ℕ → ParentCall

-- The reflector with its satellites: `sats` has the links of m_satellite_con_map, in place of the
-- numbers that the Hub has for them.
pub record Parent : Type 0 where
  pub hub : Hub
  pub sats : Map SatelliteLink
  pub satellite_secrets : List (Bytes × Bytes)
  pub satellite_secret : Bytes
  pub cleanup_pending : List ℕ
  pub cleanup_timer : Bool
  pub calls : List ParentCall

abbrev pub call_parent : ParentCall → Parent → Parent
call_parent c p = record p { calls = c ∷ p.calls }

unfoldable pub update_satellite :
    ℕ → (SatelliteLink → SatelliteLink) → Map SatelliteLink → Map SatelliteLink
update_satellite con f [] = []
update_satellite con f ((c, l) ∷ m) =
    let rest = update_satellite con f m in if c == con then (c, f l) ∷ m else (c, l) ∷ rest

abbrev pub at_satellite : ℕ → (SatelliteLink → SatelliteLink) → Parent → Parent
at_satellite con f p = record p { sats = update_satellite con f p.sats }

-- The loop over m_satellite_con_map.
unfoldable pub every_satellite :
    (SatelliteLink → SatelliteLink) → Map SatelliteLink → Map SatelliteLink
every_satellite f [] = []
every_satellite f ((c, l) ∷ m) = (c, f l) ∷ every_satellite f m

unfoldable pub satellites_except :
    ℕ → (SatelliteLink → SatelliteLink) → Map SatelliteLink → Map SatelliteLink
satellites_except con f [] = []
satellites_except con f ((c, l) ∷ m) = (c, if c == con then l else f l) ∷ satellites_except con f m

unfoldable pub filter_passes_tg : SatelliteLink → ℕ → Bool
filter_passes_tg l tg = if is_empty l.tg_filter then true else matches tg l.tg_filter

unfoldable pub send_to_satellite : LinkMsg → SatelliteLink → SatelliteLink
send_to_satellite m l =
    if not l.is_open
    then l
    else if not (packs_link m)
    then l
    else record l { hb_tx_cnt = satellite_tx_cnt_reset; out = m ∷ l.out }

-- onParentTalkerStart, onParentTalkerStop, onParentAudio and onParentFlush begin alike.
abbrev pub to_satellite : ℕ → LinkMsg → SatelliteLink → SatelliteLink
to_satellite tg m l =
    if not l.hello_received
    then l
    else if not (filter_passes_tg l tg)
    then l
    else send_to_satellite m l

unfoldable pub on_parent_talker_start : ℕ → Bytes → SatelliteLink → SatelliteLink
on_parent_talker_start tg callsign l = to_satellite tg (peer (talker_start tg callsign)) l

unfoldable pub on_parent_talker_stop : ℕ → SatelliteLink → SatelliteLink
on_parent_talker_stop tg l = to_satellite tg (peer (talker_stop tg)) l

unfoldable pub on_parent_audio : ℕ → Bytes → SatelliteLink → SatelliteLink
on_parent_audio tg samples l = to_satellite tg (peer (audio tg samples)) l

unfoldable pub on_parent_flush : ℕ → SatelliteLink → SatelliteLink
on_parent_flush tg l = to_satellite tg (peer (flush tg)) l

-- resolveSatelliteSecret: the secret of the id, or else the one for all.
unfoldable pub find_secret : Bytes → List (Bytes × Bytes) → Option Bytes
find_secret id [] = none
find_secret id ((i, s) ∷ more) = if bytes_eq i id then some s else find_secret id more

abbrev pub secret_or : Option Bytes → Bytes → Option Bytes
secret_or (some s) fallback = some s
secret_or none fallback = if is_empty fallback then none else some fallback

unfoldable pub resolve_satellite_secret : Parent → Bytes → Option Bytes
resolve_satellite_secret p id = secret_or (find_secret id p.satellite_secrets) p.satellite_secret

-- ===== src/Trunk/State.antt =====
-- TrunkLink.h, and the tables of Reflector.h that a link reads.
-- The link is one that is not paired: one outbound client and at most one inbound connection.
-- `m_con` is the pair of its `isConnected()` and the calls made on it; the inbound connection is
-- the number that stands for its pointer, with its `isConnected()`. A timer is its enabled flag.
-- A message that is written, and a call of the reflector, is the newest entry of `out`; those of a
-- link with several hosts carry the place of the host, or the inbound connection.
use geu_reflector.Base.{
  length, ℕ, ◌+◌, ◌-◌, ◌%◌, ◌^◌, Bool, false, not, ◌&&◌, ◌||◌, List, [], ◌∷◌, Option, none, some,
  Map, find, NatSet, contains, Bytes, bytes_eq, ltb, ◌==◌, if◌then◌else◌, is_empty, value_or,
  is_some,
}
use geu_reflector.TgFilter.Entry.{TgFilter, matches}
use geu_reflector.Trunk.Prefixes.{Routes}
use geu_reflector.TgHandler.State.{TgHandler}

-- HEARTBEAT_TX_CNT_RESET, HEARTBEAT_RX_CNT_RESET, PEER_INTEREST_TIMEOUT_S
abbrev pub heartbeat_tx_cnt_reset : ℕ
heartbeat_tx_cnt_reset = 10

abbrev pub heartbeat_rx_cnt_reset : ℕ
heartbeat_rx_cnt_reset = 15

abbrev pub peer_interest_timeout_s : ℕ
peer_interest_timeout_s = 600

-- MsgPeerHello, its members in the order in which they are packed.
pub record Hello : Type 0 where
  pub id : Bytes
  pub local_prefix : Bytes
  pub priority : ℕ
  pub nonce : Bytes
  pub digest : Bytes
  pub role : ℕ

pub data Msg : Type 0 where
  heartbeat : Msg
  hello : Hello → Msg
  talker_start : ℕ → Bytes → Msg
  talker_stop : ℕ → Msg
  audio : ℕ → Bytes → Msg
  flush : ℕ → Msg
  tg_interest : Bytes → List ℕ → Msg

pub data Direction : Type 0 where
  inbound : Direction
  outbound : Direction

pub data Effect : Type 0 where
  written : Direction → Msg → Effect
  disconnected : Direction → Effect
  reconnected : Effect
  rejected : ℕ → Effect
  forgotten : ℕ → Effect
  state_changed : Direction → Bool → Effect
  interest_update : Effect
  external_start : ℕ → Bytes → Effect
  external_stop : ℕ → Effect
  relayed_start : ℕ → Bytes → Effect
  relayed_stop : ℕ → Effect
  relayed_audio : ℕ → Bytes → Effect
  relayed_flush : ℕ → Effect
  broadcast_audio : ℕ → Bytes → Effect
  broadcast_flush : ℕ → Effect
  satellites_audio : ℕ → Bytes → Effect
  satellites_flush : ℕ → Effect
  twin_audio : ℕ → Bytes → Effect
  twin_flush : ℕ → Effect
  paired_written : Direction → ℕ → Msg → Effect
  paired_disconnected : Direction → ℕ → Effect
  paired_connect : ℕ → Effect

-- What the reflector holds for all links, and what libraries compute: `random` is the outcome of
-- RAND_bytes for a nonce, and `hmac key data` that of calcHMAC; `none` is a failure.
pub record Reflector : Type 0 where
  pub cluster_tgs : NatSet
  pub alias_route : Map ℕ
  pub alias_deliver : Map ℕ
  pub local_prefixes : List Bytes
  pub all_prefixes : List Bytes
  pub random : Option Bytes
  pub hmac : Bytes → Bytes → Option Bytes

-- NONCE_LEN, ROLE_PEER, ROLE_SATELLITE, ROLE_TWIN
abbrev pub nonce_len : ℕ
nonce_len = 20

abbrev pub role_peer : ℕ
role_peer = 0

abbrev pub role_satellite : ℕ
role_satellite = 1

abbrev pub role_twin : ℕ
role_twin = 2

-- The constructor: a hello without a nonce where the random number generator fails, and without a
-- digest where the HMAC does.
unfoldable pub make_hello : Reflector → Bytes → Bytes → ℕ → Bytes → ℕ → Hello
make_hello r id local_prefix priority secret role = elim r.random [
  | none ↦ record {
    id = id;
    local_prefix = local_prefix;
    priority = priority;
    nonce = [];
    digest = [];
    role = role;
  }
  | some nonce ↦ record {
    id = id;
    local_prefix = local_prefix;
    priority = priority;
    nonce = nonce;
    digest = value_or (r.hmac secret nonce) [];
    role = role;
  }
]

unfoldable pub verify : Reflector → Hello → Bytes → Bool
verify r h secret =
    if not (length h.nonce == nonce_len) || is_empty h.digest
    then false
    else elim (r.hmac secret h.nonce) [
      | none ↦ false
      | some expected ↦ length h.digest == length expected && bytes_eq h.digest expected
    ]

pub record Link : Type 0 where
  pub section : Bytes
  pub secret : Bytes
  pub peer_id_config : Bytes
  pub peer_id_received : Bytes
  pub routes : Routes
  pub priority : ℕ
  pub peer_priority : ℕ
  pub con_connected : Bool
  pub inbound_con : Option ℕ
  pub inbound_connected : Bool
  pub heartbeat_timer : Bool
  pub blacklist_filter : TgFilter
  pub allow_filter : TgFilter
  pub tg_map_in : Map ℕ
  pub tg_map_out : Map ℕ
  pub muted_callsigns : List Bytes
  pub yielded_tgs : NatSet
  pub peer_active_tgs : NatSet
  pub peer_interested_tgs : Map ℕ
  pub tg_interest_timer : Bool
  pub tg_interest_debounce : Bool
  pub local_tg_interest : NatSet
  pub last_sent_tg_interest : NatSet
  pub ob_hello_received : Bool
  pub ob_hb_tx_cnt : ℕ
  pub ob_hb_rx_cnt : ℕ
  pub ib_hello_received : Bool
  pub ib_hb_tx_cnt : ℕ
  pub ib_hb_rx_cnt : ℕ
  pub out : List Effect

-- A link with the talk groups that it shares with the reflector.
pub record World : Type 0 where
  pub link : Link
  pub tgs : TgHandler

abbrev pub do_effect : Effect → Link → Link
do_effect e l = record l { out = e ∷ l.out }

-- `--cnt` on an unsigned counter.
abbrev pub dec32 : ℕ → ℕ
dec32 n = (n + (2 ^ 32 - 1)) % 2 ^ 32

unfoldable pub peer_id : Link → Bytes
peer_id l = if is_empty l.peer_id_received then l.section else l.peer_id_received

unfoldable pub map_tg_in : Link → ℕ → ℕ
map_tg_in l tg = value_or (find tg l.tg_map_in) tg

unfoldable pub map_tg_out : Link → ℕ → ℕ
map_tg_out l tg = value_or (find tg l.tg_map_out) tg

unfoldable pub is_cluster_tg : Reflector → ℕ → Bool
is_cluster_tg r tg = contains tg r.cluster_tgs

unfoldable pub alias_to_route : Reflector → ℕ → ℕ
alias_to_route r tg = value_or (find tg r.alias_route) tg

unfoldable pub alias_to_local : Reflector → ℕ → ℕ
alias_to_local r tg = value_or (find tg r.alias_deliver) tg

unfoldable pub is_outbound_ready : Link → Bool
is_outbound_ready l = l.con_connected && l.ob_hello_received

unfoldable pub is_inbound_ready : Link → Bool
is_inbound_ready l = is_some l.inbound_con && l.ib_hello_received && l.inbound_connected

unfoldable pub is_active : Link → Bool
is_active l = is_outbound_ready l || is_inbound_ready l

unfoldable pub is_blacklisted : Link → ℕ → Bool
is_blacklisted l tg = not (is_empty l.blacklist_filter) && matches tg l.blacklist_filter

unfoldable pub is_allowed : Link → ℕ → Bool
is_allowed l tg = is_empty l.allow_filter || matches tg l.allow_filter

unfoldable pub is_peer_interested_tg : ℕ → Link → ℕ → Bool
is_peer_interested_tg now l tg = elim (find tg l.peer_interested_tgs) [
  | none ↦ false
  | some t ↦ ltb (now - t) peer_interest_timeout_s
]

unfoldable any_equal : Bytes → List Bytes → Bool
any_equal s [] = false
any_equal s (c ∷ more) = bytes_eq s c || any_equal s more

unfoldable pub is_callsign_muted : Link → Bytes → Bool
unfolding any_equal
is_callsign_muted l cs = any_equal cs l.muted_callsigns

abbrev pub is_inbound_con : Link → ℕ → Bool
is_inbound_con l con = elim l.inbound_con [ none ↦ false | some c ↦ con == c ]

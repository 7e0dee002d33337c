-- ===== src/TgHandler/State.antt =====
-- TGHandler.{h,cpp}: the state, and the permissions read from the configuration.
-- A `TGInfo*` is the key of its entry in `id_map`, which owns it, so following a pointer whose
-- entry is gone is the fault `none`; a client pointer is a number, and a null talker is `none`.
-- Times are microseconds of the wall clock. A signal that the class emits, and the block that it
-- puts on a client, is the newest entry of `log`.
use geu_reflector.Base.{
  ℕ, ◌/◌, Bool, true, false, List, [], ◌∷◌, Option, none, some, Map, find, assign, NatSet, Bytes,
  ltb, ◌==◌, if◌then◌else◌, value_or, not, is_some,
}

-- `auto_qsy_time` starts at -1, which is `none`; it is set to times of the clock alone.
pub record TgInfo : Type 0 where
  pub id : ℕ
  pub clients : NatSet
  pub talker : Option ℕ
  pub last_talker_timestamp : ℕ
  pub talker_start_timestamp : ℕ
  pub sql_timeout_cnt : ℕ
  pub auto_qsy_after_s : ℕ
  pub auto_qsy_time : Option ℕ

pub data Signal : Type 0 where
  talker_updated : ℕ → Option ℕ → Option ℕ → Signal
  request_auto_qsy : ℕ → Signal
  set_block : ℕ → ℕ → Signal
  trunk_talker_updated : ℕ → Bytes → Bytes → Bytes → Signal

pub record TgHandler : Type 0 where
  pub id_map : Map TgInfo
  pub client_map : Map ℕ
  pub trunk_talkers : Map Bytes
  pub trunk_talker_peer_ids : Map Bytes
  pub trunk_talker_start_times : Map ℕ
  pub sql_timeout : ℕ
  pub sql_timeout_blocktime : ℕ
  pub log : List Signal

-- The `[TG#n]` sections of the configuration, with the callsigns that `ReflectorClient` holds.
-- `regex_match callsign pattern` is `none` where `std::regex` throws.
pub record Config : Type 0 where
  pub auto_qsy_after : ℕ → ℕ
  pub allow : ℕ → Option Bytes
  pub allow_monitor : ℕ → Option Bytes
  pub show_activity : ℕ → Option Bool
  pub regex_match : Bytes → Bytes → Option Bool
  pub callsign : ℕ → Bytes

-- TALKER_AUDIO_TIMEOUT, MAX_ACTIVE_TGS, MAX_TRUNK_TALKERS
abbrev pub talker_audio_timeout : ℕ
talker_audio_timeout = 3

abbrev pub max_active_tgs : ℕ
max_active_tgs = 10000

abbrev pub max_trunk_talkers : ℕ
max_trunk_talkers = 10000

abbrev pub seconds : ℕ → ℕ
seconds us = us / 1000000

abbrev pub emit : Signal → TgHandler → TgHandler
emit e s = record s { log = e ∷ s.log }

abbrev pub put_info : ℕ → TgInfo → TgHandler → TgHandler
put_info tg info s = record s { id_map = assign tg info s.id_map }

unfoldable pub new_handler : TgHandler
new_handler = record {
  id_map = [];
  client_map = [];
  trunk_talkers = [];
  trunk_talker_peer_ids = [];
  trunk_talker_start_times = [];
  sql_timeout = 0;
  sql_timeout_blocktime = 60;
  log = [];
}

-- TGInfo(tg), with the configured time of `switchTo`.
abbrev pub new_info : Config → ℕ → TgInfo
new_info cfg tg = record {
  id = tg;
  clients = [];
  talker = none;
  last_talker_timestamp = 0;
  talker_start_timestamp = 0;
  sql_timeout_cnt = 0;
  auto_qsy_after_s = cfg.auto_qsy_after tg;
  auto_qsy_time = none;
}

unfoldable pub set_sql_timeout_blocktime : ℕ → TgHandler → TgHandler
set_sql_timeout_blocktime t s = record s { sql_timeout_blocktime = if ltb t 1 then 1 else t }

-- Does the nullable pointer hold this client?
abbrev pub is_client : Option ℕ → ℕ → Bool
is_client none c = false
is_client (some d) c = d == c

abbrev pub same_client : Option ℕ → Option ℕ → Bool
same_client none none = true
same_client none (some d) = false
same_client (some c) d = is_client d c

unfoldable pub allow_tg_selection : Config → ℕ → ℕ → Bool
allow_tg_selection cfg client tg = elim (cfg.allow tg) [
  | none ↦ true
  | some pattern ↦ value_or (cfg.regex_match (cfg.callsign client) pattern) false
]

unfoldable pub allow_tg_monitoring : Config → ℕ → ℕ → Bool
unfolding allow_tg_selection
allow_tg_monitoring cfg client tg =
    if not (allow_tg_selection cfg client tg) then false else elim (cfg.allow_monitor tg) [
      | none ↦ true
      | some pattern ↦ value_or (cfg.regex_match (cfg.callsign client) pattern) false
    ]

unfoldable pub tg_show_activity : Config → ℕ → Bool
tg_show_activity cfg tg = value_or (cfg.show_activity tg) true

unfoldable pub is_restricted : Config → ℕ → Bool
is_restricted cfg tg = is_some (cfg.allow tg)

unfoldable pub clients_for_tg : ℕ → TgHandler → NatSet
clients_for_tg tg s = elim (find tg s.id_map) [ none ↦ [] | some info ↦ info.clients ]

unfoldable pub talker_for_tg : ℕ → TgHandler → Option ℕ
talker_for_tg tg s = elim (find tg s.id_map) [ none ↦ none | some info ↦ info.talker ]

unfoldable pub talker_start_time_for_tg : ℕ → TgHandler → Option ℕ
talker_start_time_for_tg tg s = elim (find tg s.id_map) [
  | none ↦ none
  | some info ↦ if info.talker_start_timestamp == 0 then none else some info.talker_start_timestamp
]

-- TGForClient reads the id through the client's pointer.
unfoldable pub tg_for_client : ℕ → TgHandler → Option ℕ
tg_for_client client s = elim (find client s.client_map) [
  | none ↦ some 0
  | some tg ↦ elim (find tg s.id_map) [ none ↦ none | some info ↦ some info.id ]
]

-- ===== src/Audio/Filters.antt =====
-- ReflectorClient.{h,cpp}: the filters that choose the clients of a broadcast. A pointer to a client
-- is its number. Times are microseconds, as in the talk group handler.
use geu_reflector.Base.{
  ℕ, Bool, false, not, ◌&&◌, ◌||◌, List, [], ◌∷◌, Option, none, some, NatSet, Bytes, contains, ltb,
  ◌==◌, if◌then◌else◌, is_some, value_or,
}
use geu_reflector.ProtoVer.{Version, VersionRange, at_least, range_is_valid, is_within_range}
use geu_reflector.TgHandler.State.{
  TgHandler, talker_for_tg, talker_start_time_for_tg, tg_for_client,
}
use geu_reflector.TgHandler.TrunkTalkers.{has_trunk_talker, trunk_talker_start_time_for_tg}

-- The members of ReflectorClient that the broadcasts read.
pub record Client : Type 0 where
  pub callsign : Bytes
  pub is_connected : Bool
  pub proto_ver : Version
  pub current_tg : ℕ
  pub monitored_tgs : NatSet
  pub blocktime : ℕ
  pub remaining_blocktime : ℕ

unfoldable pub is_blocked : Client → Bool
is_blocked c = ltb 0 c.remaining_blocktime

-- The `TGForClient` of a client whose pointer to its talk group is good.
abbrev pub tg_of : ℕ → TgHandler → ℕ
tg_of client h = value_or (tg_for_client client h) 0

-- The earlier one of the starts of the local and the trunk talker.
unfoldable pub start_time_for_tg : TgHandler → ℕ → Option ℕ
start_time_for_tg h tg = elim (talker_start_time_for_tg tg h) [
  | none ↦ trunk_talker_start_time_for_tg tg h
  | some local_ts ↦ elim (trunk_talker_start_time_for_tg tg h) [
    | none ↦ some local_ts
    | some trunk_ts ↦ some (if ltb local_ts trunk_ts then local_ts else trunk_ts)
  ]
]

unfoldable pub has_talker : TgHandler → ℕ → Bool
has_talker h tg = is_some (talker_for_tg tg h) || has_trunk_talker tg h

-- `earlier || (same && tg < earliest_tg)`
unfoldable pub comes_before : ℕ → ℕ → ℕ → ℕ → Bool
comes_before tg ts earliest_tg earliest_ts =
    ltb ts earliest_ts || ((ts == earliest_ts) && ltb tg earliest_tg)

-- One round of the loop over the monitored talk groups but `m_tg`.
unfoldable pub earlier_of : TgHandler → ℕ → ℕ → ℕ × ℕ → ℕ × ℕ
earlier_of h m_tg tg (earliest_tg, earliest_ts) =
    if (tg == m_tg) || not (has_talker h tg)
    then (earliest_tg, earliest_ts)
    else elim (start_time_for_tg h tg) [
      | none ↦ (earliest_tg, earliest_ts)
      | some ts ↦
          if comes_before tg ts earliest_tg earliest_ts
          then (tg, ts)
          else (earliest_tg, earliest_ts)
    ]

unfoldable pub earliest_of : TgHandler → ℕ → List ℕ → ℕ × ℕ → ℕ × ℕ
earliest_of h m_tg [] e = e
earliest_of h m_tg (tg ∷ tgs) e = earliest_of h m_tg tgs (earlier_of h m_tg tg e)

-- EarliestMonitorTalkerFilter
unfoldable pub earliest_monitor_talker : TgHandler → ℕ → Client → Bool
earliest_monitor_talker h m_tg c =
    if not (contains m_tg c.monitored_tgs) then false else elim (start_time_for_tg h m_tg) [
      | none ↦ false
      | some m_tg_ts ↦ (earliest_of h m_tg c.monitored_tgs (m_tg, m_tg_ts)).0 == m_tg
    ]

-- The other filters, and those that join two.
pub data Filter : Type 0 where
  except_filter : Option ℕ → Filter
  tg_filter : ℕ → Filter
  tg_monitor_filter : ℕ → Filter
  passive_observer_filter : Filter
  proto_ver_range_filter : VersionRange → Filter
  proto_ver_larger_or_equal_filter : Version → Filter
  earliest_monitor_talker_filter : ℕ → Filter
  and_filter : Filter → Filter → Filter
  or_filter : Filter → Filter → Filter

abbrev pub is_same : ℕ → Option ℕ → Bool
is_same client none = false
is_same client (some c) = client == c

unfoldable pub passes_filter : TgHandler → Filter → ℕ → Client → Bool
passes_filter h (except_filter except) client c = not (is_same client except)
passes_filter h (tg_filter tg) client c = tg == tg_of client h
passes_filter h (tg_monitor_filter tg) client c = contains tg c.monitored_tgs
passes_filter h passive_observer_filter client c = c.current_tg == 0
passes_filter h (proto_ver_range_filter pvr) client c =
    not (range_is_valid pvr) || is_within_range pvr c.proto_ver
passes_filter h (proto_ver_larger_or_equal_filter pv) client c = at_least c.proto_ver pv
passes_filter h (earliest_monitor_talker_filter tg) client c = earliest_monitor_talker h tg c
passes_filter h (and_filter f g) client c = passes_filter h f client c && passes_filter h g client c
passes_filter h (or_filter f g) client c = passes_filter h f client c || passes_filter h g client c

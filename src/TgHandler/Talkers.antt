-- ===== src/TgHandler/Talkers.antt =====
-- TGHandler.cpp: setting the talker of a talk group, and the timers that take it away.
use geu_reflector.Base.{
  ℕ, ◌+◌, ◌-◌, Bool, true, ◌&&◌, [], ◌∷◌, Option, none, some, Map, find, ltb, ◌==◌, if◌then◌else◌,
  not, is_some,
}
use geu_reflector.TgHandler.State.{
  TgInfo, TgHandler, talker_updated, request_auto_qsy, set_block, seconds, emit, put_info,
  same_client, talker_audio_timeout,
}

-- `now > auto_qsy_time` and `auto_qsy_time <= 0`, where -1 is `none`.
abbrev pub qsy_due : ℕ → Option ℕ → Bool
qsy_due now none = true
qsy_due now (some t) = ltb t now

abbrev pub qsy_unset : Option ℕ → Bool
qsy_unset none = true
qsy_unset (some t) = t == 0

-- The `auto_qsy` part of `setTalkerForTG`.
unfoldable pub auto_qsy : ℕ → ℕ → TgInfo → Bool → TgHandler → TgHandler
auto_qsy now tg info stopped s =
    let later = record info { auto_qsy_time = some (seconds now + info.auto_qsy_after_s) } in
    if ltb 0 info.auto_qsy_after_s
    then if stopped && qsy_due (seconds now) info.auto_qsy_time
      then put_info tg later (emit (request_auto_qsy info.id) s)
      else if qsy_unset info.auto_qsy_time
      then put_info tg later s
      else s
    else s

-- The entry as a change of talker leaves it, before `auto_qsy`.
abbrev pub change_talker : ℕ → ℕ → Option ℕ → TgInfo → TgInfo
change_talker now sql_timeout talker info = record info {
  sql_timeout_cnt = if is_some talker then sql_timeout else 0;
  talker = talker;
  talker_start_timestamp = if is_some talker then now else info.talker_start_timestamp;
}

unfoldable pub set_talker_for_tg : ℕ → ℕ → Option ℕ → TgHandler → TgHandler
set_talker_for_tg now tg talker s = elim (find tg s.id_map) [
  | none ↦ s
  | some info ↦
      if same_client talker info.talker
      then put_info tg (record info { last_talker_timestamp = now }) s
      else let info' = change_talker now s.sql_timeout talker info in
        auto_qsy now tg info' (not (is_some talker))
          (emit (talker_updated tg info.talker talker) (put_info tg info' s))
]

-- One round of the loop of `checkTimers`: the audio timeout, then the squelch timeout.
unfoldable pub check_audio_timeout : ℕ → ℕ → TgInfo → TgHandler → TgHandler
check_audio_timeout now tg info s =
    if ltb talker_audio_timeout (seconds (now - info.last_talker_timestamp))
    then set_talker_for_tg now info.id none s
    else s

-- The source reads the talker's callsign and blocks it, so a null talker there is a fault.
unfoldable pub check_sql_timeout : ℕ → ℕ → TgHandler → Option TgHandler
check_sql_timeout now tg s = elim (find tg s.id_map) [
  | none ↦ none
  | some info ↦
      let s' = put_info tg (record info { sql_timeout_cnt = info.sql_timeout_cnt - 1 }) s in
      if ltb 0 info.sql_timeout_cnt
      then if info.sql_timeout_cnt - 1 == 0
        then elim info.talker [
          | none ↦ none
          | some c ↦
              some
                (set_talker_for_tg now info.id none (emit (set_block c s.sql_timeout_blocktime) s'))
        ]
        else some s'
      else some s
]

unfoldable pub check_tg : ℕ → ℕ → TgHandler → Option TgHandler
unfolding check_audio_timeout check_sql_timeout
check_tg now tg s = elim (find tg s.id_map) [
  | none ↦ none
  | some info ↦
      if is_some info.talker
      then check_sql_timeout now tg (check_audio_timeout now tg info s)
      else some s
]

unfoldable pub check_tgs : ℕ → Map TgInfo → TgHandler → Option TgHandler
check_tgs now [] s = some s
check_tgs now ((tg, info) ∷ rest) s = elim (check_tg now tg s) [
  | none ↦ none
  | some s' ↦ check_tgs now rest s'
]

unfoldable pub check_timers : ℕ → TgHandler → Option TgHandler
unfolding check_tgs
check_timers now s = check_tgs now s.id_map s

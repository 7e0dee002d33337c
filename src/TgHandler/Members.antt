-- ===== src/TgHandler/Members.antt =====
-- TGHandler.cpp: a client selects a talk group, or leaves.
use geu_reflector.Base.{
  ℕ, Bool, true, false, Option, none, some, find, assign, erase, insert, remove, length, is_empty,
  ltb, leb, ◌==◌, if◌then◌else◌, not,
}
use geu_reflector.TgHandler.State.{
  TgInfo, TgHandler, Config, max_active_tgs, new_info, is_client, allow_tg_selection,
}
use geu_reflector.TgHandler.Talkers.{set_talker_for_tg}

-- removeClientP(tg_info, client), where `tg` is the key that the pointer stands for and `info` is
-- the entry that it leads to.
unfoldable pub drop_client : ℕ → TgInfo → ℕ → TgHandler → TgHandler
drop_client tg info client s =
    let rest = remove client info.clients in
    let info' = record info {
      talker = if is_client info.talker client then none else info.talker;
      clients = rest;
    } in
    record s {
      client_map = erase client s.client_map;
      id_map = if is_empty rest then erase info.id s.id_map else assign tg info' s.id_map;
    }

unfoldable pub remove_client_p : ℕ → ℕ → TgHandler → Option TgHandler
remove_client_p tg client s = elim (find tg s.id_map) [
  | none ↦ none
  | some info ↦ some (drop_client tg info client s)
]

-- The part of `switchTo` behind the removal from the old talk group.
unfoldable pub join : ℕ → ℕ → TgInfo → TgHandler → TgHandler
join client tg info s = record s {
  id_map = assign tg (record info { clients = insert client info.clients }) s.id_map;
  client_map = assign client tg s.client_map;
}

unfoldable pub select_tg : Config → ℕ → ℕ → TgHandler → Bool × TgHandler
select_tg cfg client tg s =
    if ltb 0 tg
    then if not (allow_tg_selection cfg client tg) then (false, s) else elim (find tg s.id_map) [
      | some info ↦ (true, join client tg info s)
      | none ↦
          if leb max_active_tgs (length s.id_map)
          then (false, s)
          else (true, join client tg (new_info cfg tg) s)
    ]
    else (true, s)

unfoldable pub switch_to : Config → ℕ → ℕ → TgHandler → Option (Bool × TgHandler)
switch_to cfg client tg s = elim (find client s.client_map) [
  | none ↦ some (select_tg cfg client tg s)
  | some old ↦ elim (find old s.id_map) [
    | none ↦ none
    | some info ↦ if info.id == tg then some (true, s) else elim (remove_client_p old client s) [
      | none ↦ none
      | some s' ↦ some (select_tg cfg client tg s')
    ]
  ]
]

unfoldable pub remove_client : ℕ → ℕ → TgHandler → Option TgHandler
remove_client now client s = elim (find client s.client_map) [
  | none ↦ some s
  | some tg ↦ elim (find tg s.id_map) [
    | none ↦ none
    | some info ↦
        remove_client_p tg client
          (if is_client info.talker client then set_talker_for_tg now info.id none s else s)
  ]
]

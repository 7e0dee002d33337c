-- ===== src/Tests/Handler.antt =====
-- Two clients on one talk group of a handler, and two peers with trunk talkers.
use geu_reflector.Base.{
  ◌≡◌, refl, ◌≢◌, Bool, List, true, inl, [], ◌∷◌, none, some, find, assign, contains, codes, arith,
}
use geu_reflector.TgHandler.State.{TgInfo, TgHandler, Config, talker_updated}
use geu_reflector.TgHandler.Talkers.{check_timers, check_tg, set_talker_for_tg, auto_qsy}
use geu_reflector.TgHandler.Members.{switch_to, remove_client}
use geu_reflector.TgHandler.Consistent.{IsConsistent, switch_to-IsConsistent}
use geu_reflector.TgHandler.Retains.{Retains}
use geu_reflector.TgHandler.Loop.{check_timers_total}
use geu_reflector.TgHandler.Leave.{remove_client-IsConsistent, switch_to-Switched, Switched}
use geu_reflector.TgHandler.Placement.{select, leave, tick, placement}
use geu_reflector.TgHandler.Refinement.{perform_all, Shows, intended_all, perform_all-Shows}
use geu_reflector.TgHandler.Peers.{IsSound, HasRoom}

abbrev talking : TgInfo
talking = record {
  id = 240;
  clients = 7 ∷ 8 ∷ [];
  talker = some 7;
  last_talker_timestamp = 1000000;
  talker_start_timestamp = 500000;
  sql_timeout_cnt = 0;
  auto_qsy_after_s = 0;
  auto_qsy_time = none;
}

abbrev two_clients : TgHandler
two_clients = record {
  id_map = (240, talking) ∷ [];
  client_map = (7, 240) ∷ (8, 240) ∷ [];
  trunk_talkers = (222, codes "SM0A") ∷ (333, codes "I0B") ∷ [];
  trunk_talker_peer_ids = (222, codes "SE") ∷ (333, codes "IT") ∷ [];
  trunk_talker_start_times = [];
  sql_timeout = 0;
  sql_timeout_blocktime = 60;
  log = [];
}

abbrev pub open_config : Config
open_config = record {
  auto_qsy_after = λ tg. 0;
  allow = λ tg. none;
  allow_monitor = λ tg. none;
  show_activity = λ tg. none;
  regex_match = λ callsign pattern. some true;
  callsign = λ client. [];
}

two_clients-IsConsistent : IsConsistent two_clients
unfolding find contains
two_clients-IsConsistent = record { agree = λ c t. ground arith; named = λ t. ground arith }

switch_to-IsConsistent_example :
    (r : Bool × TgHandler) × (switch_to open_config 7 91 two_clients ≡ some r) × IsConsistent r.1
switch_to-IsConsistent_example =
    switch_to-IsConsistent open_config 7 91 two_clients two_clients-IsConsistent

switch_to-Switched_example :
    (r : Bool × TgHandler) × (switch_to open_config 7 91 two_clients ≡ some r) × Switched 7 91 r
switch_to-Switched_example =
    switch_to-Switched open_config 7 91 two_clients two_clients-IsConsistent

remove_client-IsConsistent_example :
    (s' : TgHandler) × (remove_client 2000000 7 two_clients ≡ some s')
    × IsConsistent s'
    × (find 7 s'.client_map ≡ none)
remove_client-IsConsistent_example =
    remove_client-IsConsistent 2000000 7 two_clients two_clients-IsConsistent

perform_all-Shows_example :
    (r : List Bool × TgHandler) × (perform_all open_config
        (select 7 91 ∷ leave 2000000 8 ∷ tick 9000000 ∷ [])
        two_clients
      ≡ some r)
    × IsConsistent r.1
    × Shows r.1 (
        intended_all
          (select 7 91 ∷ leave 2000000 8 ∷ tick 9000000 ∷ [])
          r.0
          (placement two_clients))
perform_all-Shows_example =
    perform_all-Shows open_config (select 7 91 ∷ leave 2000000 8 ∷ tick 9000000 ∷ []) two_clients
      two_clients-IsConsistent

check_timers_total_example :
    (s' : TgHandler) × (check_timers 9000000 two_clients ≡ some s') × Retains two_clients s'
check_timers_total_example = check_timers_total 9000000 two_clients two_clients-IsConsistent

-- The handler after the talker of the talk group has timed out.
abbrev timed_out : TgHandler
timed_out = record two_clients {
  id_map = (240, record talking { talker = none; last_talker_timestamp = 1000000 }) ∷ [];
  log = talker_updated 240 (some 7) none ∷ [];
}

check_timers-timed_out : check_timers 9000000 two_clients ≡ some timed_out
unfolding check_timers check_tg find set_talker_for_tg auto_qsy assign
check_timers-timed_out = refl

check_timers-two_clients : check_timers 2000000 two_clients ≡ some two_clients
unfolding check_timers check_tg find set_talker_for_tg auto_qsy assign
check_timers-two_clients = refl

two_clients-IsSound : IsSound two_clients
unfolding find
two_clients-IsSound = record {
  named = λ tg. ground arith;
  limited = omega arith;
  keyed = (refl, (refl, tt));
}

it_is_not_se : codes "IT" ≢ codes "SE"
it_is_not_se e = ground (arith, e)

room_222 : HasRoom 222 two_clients
unfolding find
room_222 = inl refl

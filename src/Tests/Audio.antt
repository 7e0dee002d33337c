-- ===== src/Tests/Audio.antt =====
-- Local clients that talk, at concrete states.
use geu_reflector.Base.{
  ℕ, ◌≡◌, refl, Bool, true, false, List, [], ◌∷◌, none, some, Bytes, find, contains, codes, ◌==◌,
  Elem, inl, inr, arith,
}
use geu_reflector.TgHandler.State.{
  TgHandler, TgInfo, talker_for_tg, tg_for_client, talker_start_time_for_tg, new_handler,
}
use geu_reflector.TgHandler.TrunkTalkers.{has_trunk_talker, trunk_talker_start_time_for_tg}
use geu_reflector.Audio.Filters.{
  Client, is_blocked, tg_of, has_talker, passes_filter, earliest_monitor_talker, start_time_for_tg,
  earliest_of, earlier_of, comes_before,
}
use geu_reflector.Audio.Sequence.{taken, udp_rx_seq, udp_rx_seq_v2, udp_registered, udp_checked}
use geu_reflector.Audio.Replay.{IsIncreasing, taken-IsIncreasing}
use geu_reflector.Audio.Broadcast.{
  Hub, sent_udp, udp_audio, udp_audio_received, audio_filter, listeners,
}
use geu_reflector.Audio.Turns.{audio_filter_other, OthersTalk}
use geu_reflector.Audio.Heard.{udp_audio_received-heard}
use geu_reflector.Audio.Selection.{Agrees}
use geu_reflector.TgHandler.Consistent.{IsConsistent}
use geu_reflector.Tests.Link.{mesh}

abbrev listener : Client
listener = record {
  callsign = codes "SM0B";
  is_connected = true;
  proto_ver = record { major_ver = 3; minor_ver = 0 };
  current_tg = 0;
  monitored_tgs = 240 ∷ 241 ∷ [];
  blocktime = 0;
  remaining_blocktime = 0;
}

abbrev speaker : Client
speaker = record listener { callsign = codes "SM0A"; current_tg = 240 }

abbrev free_240 : TgInfo
free_240 = record {
  id = 240;
  clients = 7 ∷ 9 ∷ [];
  talker = none;
  last_talker_timestamp = 0;
  talker_start_timestamp = 0;
  sql_timeout_cnt = 0;
  auto_qsy_after_s = 0;
  auto_qsy_time = none;
}

abbrev free_hub : Hub
free_hub = record {
  clients = (7, speaker) ∷ (9, speaker) ∷ (11, listener) ∷ [];
  tgs = record new_handler { id_map = (240, free_240) ∷ []; client_map = (7, 240) ∷ (9, 240) ∷ [] };
  links = [];
  satellites = [];
  has_twin = false;
  is_satellite = false;
  tg_for_v1_clients = 1;
  calls = [];
}

abbrev samples : Bytes
samples = 1 ∷ 2 ∷ []

speaker-free : is_blocked speaker ≡ false
unfolding is_blocked
speaker-free = refl

on_240-nonzero : (tg_of 7 free_hub.tgs == 0) ≡ false
unfolding tg_for_client find
on_240-nonzero = refl

nobody_talks : has_talker free_hub.tgs (tg_of 7 free_hub.tgs) ≡ false
unfolding has_talker has_trunk_talker talker_for_tg tg_for_client find new_handler
nobody_talks = refl

entry_240 : find (tg_of 7 free_hub.tgs) free_hub.tgs.id_map ≡ some free_240
unfolding tg_for_client find
entry_240 = refl

same_tg : tg_of 9 free_hub.tgs ≡ tg_of 7 free_hub.tgs
unfolding tg_for_client find
same_tg = refl

udp_audio_received-heard_example :
    (talker_for_tg (tg_of 7 free_hub.tgs) (udp_audio_received mesh 5 7 speaker samples free_hub).tgs
      ≡ some 7)
    × Elem
        (sent_udp 9 (udp_audio samples))
        (udp_audio_received mesh 5 7 speaker samples free_hub).calls
udp_audio_received-heard_example =
    udp_audio_received-heard mesh 5 7 9 speaker speaker samples free_hub free_240 speaker-free refl
      on_240-nonzero nobody_talks entry_240 (inr (inl refl)) refl same_tg refl

-- The same with the other client talking.
abbrev taken_hub : Hub
taken_hub = record free_hub {
  tgs = record free_hub.tgs { id_map = (240, record free_240 { talker = some 9 }) ∷ [] };
}

others_talk : OthersTalk taken_hub ((5, 7, speaker, samples) ∷ [])
unfolding has_talker has_trunk_talker talker_for_tg tg_for_client find new_handler
others_talk = (refl, refl, tt)

-- Trunk talkers on 240 and 241; a passive client monitors both, and hears the earlier one.
abbrev two_talkers : TgHandler
two_talkers = record new_handler {
  trunk_talkers = (240, codes "A") ∷ (241, codes "B") ∷ [];
  trunk_talker_start_times = (240, 50) ∷ (241, 60) ∷ [];
}

passive_in_none : listener.current_tg ≡ tg_of 11 two_talkers
unfolding tg_for_client find new_handler
passive_in_none = refl

talks_240 : has_talker two_talkers 240 ≡ true
unfolding has_talker has_trunk_talker talker_for_tg find new_handler
talks_240 = refl

hears_240 : passes_filter two_talkers (audio_filter 7 240) 11 listener ≡ true
unfolding passes_filter audio_filter listeners earliest_monitor_talker start_time_for_tg
    talker_start_time_for_tg trunk_talker_start_time_for_tg earliest_of earlier_of comes_before
    has_talker has_trunk_talker talker_for_tg tg_for_client find contains new_handler
hears_240 = refl

talks_241 : has_talker two_talkers 241 ≡ true
unfolding has_talker has_trunk_talker talker_for_tg find new_handler
talks_241 = refl

audio_filter_other_example : passes_filter two_talkers (audio_filter 9 241) 11 listener ≡ false
audio_filter_other_example =
    audio_filter_other two_talkers 7 9 11 240 241 listener passive_in_none refl refl refl talks_240
      talks_241 hears_240

-- The registration comes from a wrong port, and the datagram 3 is taken again after it.
abbrev datagrams : List (ℕ × Bool)
datagrams = (3, true) ∷ (3, true) ∷ (5, true) ∷ (4, true) ∷ (0, false) ∷ (3, true) ∷ []

takes_again : taken 0 datagrams ≡ some 3 ∷ some 5 ∷ none ∷ some 3 ∷ []
unfolding taken udp_registered udp_checked udp_rx_seq
takes_again = refl

taken-IsIncreasing_example : IsIncreasing 0 (taken 0 datagrams)
taken-IsIncreasing_example =
    taken-IsIncreasing 0 datagrams
      (omega arith, (omega arith, (omega arith, (omega arith, (omega arith, (omega arith, tt))))))

takes_65535 : udp_rx_seq_v2 65530 65535 ≡ some 65536
unfolding udp_rx_seq_v2
takes_65535 = refl

-- Client 7 is in 240 and selects 91.
free_hub-IsConsistent : IsConsistent free_hub.tgs
unfolding find contains new_handler
free_hub-IsConsistent = record { agree = λ c t. ground arith; named = λ t. ground arith }

free_hub-Agrees : Agrees 7 (speaker, free_hub.tgs)
unfolding tg_for_client find
free_hub-Agrees = record { consistent = free_hub-IsConsistent; current = refl }

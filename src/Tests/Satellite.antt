-- ===== src/Tests/Satellite.antt =====
-- A parent with one satellite, at concrete states.
use geu_reflector.Base.{
  ◌≡◌, refl, true, false, [], ◌∷◌, none, some, codes, find, length, leb, bytes_eq, arith,
}
use geu_reflector.TgHandler.State.{new_handler, max_trunk_talkers}
use geu_reflector.TgHandler.Peers.{IsSound}
use geu_reflector.Trunk.State.{Hello, verify, hello, talker_start, audio, flush, role_satellite}
use geu_reflector.Audio.Broadcast.{Hub}
use geu_reflector.Wire.Codec.{and_then, pack_two}
use geu_reflector.Wire.Numbers.{pack8}
use geu_reflector.Wire.Texts.{pack_text}
use geu_reflector.Wire.Peers.{pack_msg, pack_members, type_of}
use geu_reflector.Wire.Links.{peer, packs_link, pack_link_msg}
use geu_reflector.Satellite.State.{
  SatelliteLink, new_satellite_link, Parent, filter_passes_tg, resolve_satellite_secret,
  find_secret, secret_or,
}
use geu_reflector.Satellite.Frames.{message, bad_body}
use geu_reflector.Satellite.Life.{process_satellite_cleanup}
use geu_reflector.Satellite.Unauthenticated.{
  receive_frames, Untouched, proves_msg, is_admitted, receive_frames-Untouched,
}
use geu_reflector.Satellite.Talkers.{IsGone, ticks, ticks-IsGone}
use geu_reflector.Satellite.Quiet.{sounds_to}
use geu_reflector.Satellite.Echo.{receive_frames-SameSounds}
use geu_reflector.Tests.Link.{mesh, keyed, some_nonce}
use geu_reflector.Tests.Nodes.{print_true, read_true}

abbrev pub quiet_hub : Hub
quiet_hub = record {
  clients = [];
  tgs = new_handler;
  links = [];
  satellites = 3 ∷ [];
  has_twin = false;
  is_satellite = false;
  tg_for_v1_clients = 1;
  calls = [];
}

-- The link of the satellite "S", which talks on the talk group 240.
abbrev pub talking : SatelliteLink
talking = record {
  is_open = true;
  resolved_secret = codes "secret";
  satellite_id = codes "S";
  hello_received = true;
  heartbeat_timer = true;
  hb_tx_cnt = 10;
  hb_rx_cnt = 15;
  sat_active_tgs = 240 ∷ [];
  tg_filter = [];
  partner_nodes = [];
  out = [];
}

abbrev pub parent_of : SatelliteLink → Parent
parent_of l = record {
  hub = quiet_hub;
  sats = (3, l) ∷ [];
  satellite_secrets = (codes "S", codes "secret") ∷ [];
  satellite_secret = [];
  cleanup_pending = [];
  cleanup_timer = false;
  calls = [];
}

abbrev false_hello : Hello
false_hello = record {
  id = codes "S";
  local_prefix = [];
  priority = 1;
  nonce = some_nonce;
  digest = codes "guess";
  role = role_satellite;
}

false_hello-fails :
    proves_msg keyed (parent_of new_satellite_link) (peer (hello false_hello)) ≡ false
unfolding verify bytes_eq resolve_satellite_secret find_secret secret_or
false_hello-fails = refl

unadmitted : is_admitted 3 (parent_of new_satellite_link) ≡ false
unfolding find new_satellite_link
unadmitted = refl

receive_frames-Untouched_example : Untouched 3 (parent_of new_satellite_link) (
    receive_frames print_true read_true keyed 3
      ((5, message (peer (hello false_hello)))
        ∷ (6, message (peer (talker_start 240 (codes "SM0A"))))
        ∷ (7, bad_body true)
        ∷ [])
      (parent_of new_satellite_link))
receive_frames-Untouched_example =
    receive_frames-Untouched print_true read_true keyed 3
      ((5, message (peer (hello false_hello)))
        ∷ (6, message (peer (talker_start 240 (codes "SM0A"))))
        ∷ (7, bad_body true)
        ∷ [])
      (parent_of new_satellite_link) (false_hello-fails, (refl, (refl, tt))) unadmitted

quiet_handler-IsSound : IsSound new_handler
unfolding new_handler find
quiet_handler-IsSound = record { named = λ tg. refl; limited = omega arith; keyed = tt }

there : find 3 (parent_of talking).sats ≡ some talking
unfolding find
there = refl

ticks-IsGone_example :
    IsGone 3 (240 ∷ []) (process_satellite_cleanup 99 (ticks 15 3 (parent_of talking)))
ticks-IsGone_example =
    ticks-IsGone 14 99 3 talking (parent_of talking) quiet_handler-IsSound there refl refl
      (omega arith)

receive_frames-SameSounds_example :
    sounds_to (
      find 3
        (receive_frames print_true read_true mesh 3
          ((5, message (peer (audio 240 (1 ∷ 2 ∷ [])))) ∷ (6, message (peer (flush 240))) ∷ [])
          (parent_of talking)).sats)
    ≡ sounds_to (find 3 (parent_of talking).sats)
receive_frames-SameSounds_example =
    receive_frames-SameSounds print_true read_true mesh 3
      ((5, message (peer (audio 240 (1 ∷ 2 ∷ [])))) ∷ (6, message (peer (flush 240))) ∷ [])
      (parent_of talking)

passes_240 : filter_passes_tg talking 240 ≡ true
unfolding filter_passes_tg
passes_240 = refl

free_table : leb max_trunk_talkers (length (parent_of talking).hub.tgs.trunk_talkers) ≡ false
unfolding new_handler
free_table = refl

free_240 : find 240 (parent_of talking).hub.tgs.trunk_talkers ≡ none
unfolding new_handler find
free_240 = refl

start_packs : packs_link (peer (talker_start 240 (83 ∷ []))) ≡ true
unfolding packs_link pack_link_msg pack_msg pack_members type_of pack_text pack_two pack8 and_then
start_packs = refl

-- ===== src/Tests/Link.antt =====
-- Two reflectors with a talker on the same talk group, their links, and what they send.
use geu_reflector.Base.{
  to_string, ◌||◌, ℕ, ◌≡◌, refl, true, false, not, ◌||◌, List, [], ◌∷◌, none, some, Bytes, find,
  is_some, codes, Elem, inl, inr, to_string, has_prefix, bytes_eq, arith,
}
use geu_reflector.TgHandler.State.{TgHandler, talker_for_tg, new_handler}
use geu_reflector.TgHandler.Peers.{IsSound}
use geu_reflector.TgFilter.Entry.{exact, matches, any_matches, entry_matches}
use geu_reflector.Trunk.Prefixes.{Routes, is_shared_tg, best_match, has_longer}
use geu_reflector.Trunk.Routing.{claims, KnownIn, is_shared_tg_unique}
use geu_reflector.Trunk.State.{
  verify, Link, World, Reflector, Hello, hello, role_peer, heartbeat, talker_start, audio,
  alias_to_local, map_tg_in, is_blacklisted, is_allowed, is_active, alias_to_route,
}
use geu_reflector.Trunk.Local.{on_local_talker_stop, on_local_audio}
use geu_reflector.Trunk.Relay.{is_local_tg, best_local}
use geu_reflector.Trunk.Peer.{is_accepted, handle_msg_peer_talker_start}
use geu_reflector.Trunk.Frames.{Frame, message, receive_all}
use geu_reflector.Trunk.Arbitration.{delivered, one_side_yields, yielded_silent}
use geu_reflector.Trunk.Guarded.{receive_all-unauthenticated}
use geu_reflector.Trunk.Claims.{receive_all-justified, justified}

abbrev pub routes_240 : Routes
routes_240 = record {
  local_prefix = [];
  remote_prefix = codes "24" ∷ [];
  routable_prefixes = [];
  routable_wildcard = false;
  all_prefixes = codes "24" ∷ codes "222" ∷ [];
}

abbrev routes_222 : Routes
routes_222 = record {
  local_prefix = [];
  remote_prefix = codes "222" ∷ [];
  routable_prefixes = [];
  routable_wildcard = false;
  all_prefixes = codes "24" ∷ codes "222" ∷ [];
}

abbrev pub mesh : Reflector
mesh = record {
  cluster_tgs = [];
  alias_route = [];
  alias_deliver = [];
  local_prefixes = codes "222" ∷ [];
  all_prefixes = codes "24" ∷ codes "222" ∷ [];
  random = none;
  hmac = λ key samples. none;
}

-- A link with both connections up, that maps the talk group 240 to itself.
abbrev pub up : ℕ → ℕ → Link
up priority peer_priority = record {
  section = codes "TRUNK_1";
  secret = codes "secret";
  peer_id_config = codes "A";
  peer_id_received = codes "B";
  routes = routes_240;
  priority = priority;
  peer_priority = peer_priority;
  con_connected = true;
  inbound_con = some 1;
  inbound_connected = true;
  heartbeat_timer = true;
  blacklist_filter = exact 999 ∷ [];
  allow_filter = [];
  tg_map_in = (240, 240) ∷ [];
  tg_map_out = (240, 240) ∷ [];
  muted_callsigns = [];
  yielded_tgs = [];
  peer_active_tgs = [];
  peer_interested_tgs = (240, 1000) ∷ [];
  tg_interest_timer = true;
  tg_interest_debounce = false;
  local_tg_interest = 240 ∷ [];
  last_sent_tg_interest = [];
  ob_hello_received = true;
  ob_hb_tx_cnt = 2;
  ob_hb_rx_cnt = 3;
  ib_hello_received = true;
  ib_hb_tx_cnt = 10;
  ib_hb_rx_cnt = 15;
  out = [];
}

abbrev pub on_240 : TgHandler
on_240 = record new_handler {
  id_map =
      (
        240,
        record {
          id = 240;
          clients = 7 ∷ [];
          talker = some 7;
          last_talker_timestamp = 1;
          talker_start_timestamp = 1;
          sql_timeout_cnt = 0;
          auto_qsy_after_s = 0;
          auto_qsy_time = none;
        },
      )
      ∷ [];
  client_map = (7, 240) ∷ [];
}

abbrev low : World
low = record { link = up 3 9; tgs = on_240 }

abbrev high : World
high = record { link = up 9 3; tgs = on_240 }

low-accepts : is_accepted mesh low.link 240 ≡ true
unfolding is_accepted is_blacklisted matches any_matches entry_matches map_tg_in find is_allowed
low-accepts = refl

high-accepts : is_accepted mesh high.link 240 ≡ true
unfolding is_accepted is_blacklisted matches any_matches entry_matches map_tg_in find is_allowed
high-accepts = refl

low-talks : is_some (talker_for_tg (delivered mesh low.link 240) low.tgs) ≡ true
unfolding talker_for_tg alias_to_local map_tg_in find
low-talks = refl

high-talks : is_some (talker_for_tg (delivered mesh high.link 240) high.tgs) ≡ true
unfolding talker_for_tg alias_to_local map_tg_in find
high-talks = refl

one_side_yields_example :
    (handle_msg_peer_talker_start mesh 5 240 (codes "SM0A") low ≡ low)
    × (talker_for_tg
          (delivered mesh high.link 240)
          (handle_msg_peer_talker_start mesh 5 240 (codes "I0B") high).tgs
        ≡ none)
one_side_yields_example =
    one_side_yields mesh mesh 5 240 240 (codes "I0B") (codes "SM0A") low high low-accepts
      high-accepts low-talks high-talks refl refl (omega arith)

yielded_silent_example :
    (on_local_talker_stop mesh 6
        (delivered mesh high.link 240)
        (handle_msg_peer_talker_start mesh 5 240 (codes "I0B") high).link
      ≡ (handle_msg_peer_talker_start mesh 5 240 (codes "I0B") high).link)
    × (on_local_audio mesh 6
          (delivered mesh high.link 240)
          (1 ∷ [])
          (handle_msg_peer_talker_start mesh 5 240 (codes "I0B") high).link
        ≡ (handle_msg_peer_talker_start mesh 5 240 (codes "I0B") high).link)
yielded_silent_example =
    yielded_silent mesh 5 6 240 (codes "I0B") (1 ∷ []) high high-accepts high-talks (omega arith)

-- A link that no hello has passed on.
abbrev strange : World
strange = record {
  link = record (up 3 9) { ob_hello_received = false; ib_hello_received = false };
  tgs = on_240;
}

abbrev pub some_nonce : Bytes
some_nonce = codes "abcdefghijklmnopqrst"

-- The reflector with a working source of nonces and digests.
abbrev pub keyed : Reflector
keyed = record mesh { random = some some_nonce; hmac = λ key samples. some (1 ∷ key) }

-- A hello with a guess for the digest.
abbrev guess : Hello
guess = record {
  id = codes "B";
  local_prefix = codes "24";
  priority = 9;
  nonce = some_nonce;
  digest = codes "guess";
  role = role_peer;
}

abbrev frames : List (ℕ × ℕ × Frame)
frames =
    (4, 1, message (hello guess))
    ∷ (5, 1, message heartbeat)
    ∷ (6, 1, message (talker_start 240 (codes "SM0A")))
    ∷ (7, 2, message (audio 240 (1 ∷ [])))
    ∷ []

guess-fails : verify keyed guess strange.link.secret ≡ false
unfolding verify bytes_eq
guess-fails = refl

receive_all-unauthenticated_example :
    ((receive_all keyed frames strange).tgs ≡ strange.tgs)
    × (is_active (receive_all keyed frames strange).link ≡ false)
receive_all-unauthenticated_example =
    receive_all-unauthenticated keyed frames strange (guess-fails, (refl, (refl, (refl, tt)))) refl
      refl

receive_all-justified_example : justified (receive_all mesh frames high).link.out ≡ true
receive_all-justified_example = receive_all-justified mesh frames high refl refl

refused_999 :
    (is_blacklisted low.link (alias_to_route mesh 999)
      || not (is_allowed low.link (alias_to_route mesh 999)))
    ≡ true
unfolding is_blacklisted is_allowed alias_to_route find matches any_matches entry_matches
refused_999 = refl

new_handler-IsSound : IsSound on_240
unfolding new_handler find
new_handler-IsSound = record { named = λ tg. refl; limited = omega arith; keyed = tt }

known_240 : KnownIn routes_240.all_prefixes routes_240
known_240 p (inl e) = inl e
known_240 p (inr x) = elim x [ ]

known_222 : KnownIn routes_240.all_prefixes routes_222
known_222 p (inl e) = inr (inl e)
known_222 p (inr x) = elim x [ ]

known_local : (p : Bytes) → Elem p mesh.local_prefixes → Elem p mesh.all_prefixes
known_local p (inl e) = inr (inl e)
known_local p (inr x) = elim x [ ]

apart_240 : (p : Bytes) → Elem p (claims routes_240) → ¬ Elem p (claims routes_222)
apart_240 p (inl e) (inl f) = ground (arith, e, f)
apart_240 p (inl e) (inr x) = elim x [ ]
apart_240 p (inr x) f = elim x [ ]

apart_local : (p : Bytes) → Elem p mesh.local_prefixes → ¬ Elem p (claims routes_240)
apart_local p (inl e) (inl f) = ground (arith, e, f)
apart_local p (inl e) (inr x) = elim x [ ]
apart_local p (inr x) f = elim x [ ]

shared_240 : is_shared_tg routes_240 240 ≡ true
unfolding is_shared_tg best_match has_prefix to_string has_longer
shared_240 = refl

is_shared_tg_unique_example : is_shared_tg routes_222 240 ≡ false
is_shared_tg_unique_example =
    is_shared_tg_unique routes_240 routes_222 240 refl refl refl known_240 known_222 apart_240
      shared_240

local_2225 : is_local_tg mesh 2225 ≡ true
unfolding is_local_tg best_local has_prefix to_string has_longer
local_2225 = refl

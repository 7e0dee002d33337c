-- ===== src/Tests/Server.antt =====
-- Two reflectors that connect, and connections to the trunk server, at concrete states.
use geu_reflector.Base.{
  ℕ, ◌≡◌, ◌≤◌, ◌⊎◌, ◌++◌, refl, true, false, [], ◌∷◌, none, some, Bytes, codes, find, get_lines,
  trim, All, take, count_keys, bytes_eq, arith,
}
use geu_reflector.TgHandler.State.{new_handler}
use geu_reflector.Trunk.State.{Link, World, Reflector, Msg, talker_start, make_hello}
use geu_reflector.Trunk.Prefixes.{split_prefixes, join_prefixes, keep_tokens, join_from}
use geu_reflector.Trunk.Send.{own_hello}
use geu_reflector.Trunk.Frames.{message}
use geu_reflector.Wire.Codec.{and_then, pack_two}
use geu_reflector.Wire.Numbers.{pack8}
use geu_reflector.Wire.Sequences.{all_values, pack_items, pack_vector}
use geu_reflector.Wire.Texts.{pack_text}
use geu_reflector.Wire.Peers.{pack_msg, pack_members, type_of, packs, is_msg}
use geu_reflector.Wire.Frames.{frame_of, frame_of-pack_msg}
use geu_reflector.Server.State.{TrunkServer}
use geu_reflector.Server.Prefixes.{same_prefixes, sort, insert_sorted, bytes_less, list_eq}
use geu_reflector.Server.Pending.{ip_pending, trunk_pending_frame_received}
use geu_reflector.Server.Limits.{connected, timeout, serve_all, IsLimited, serve_all-IsLimited}
use geu_reflector.Server.Admission.{Admitted, Refused, trunk_pending_frame_received-outcome}
use geu_reflector.Server.Handshake.{IsSigned}
use geu_reflector.Server.Greeting.{AreEnds, Joined, trunk_pending_frame_received-Greets}
use geu_reflector.Tests.Link.{mesh, up}

abbrev nonce : Bytes
nonce = codes "abcdefghijklmnopqrst"

abbrev signing : Reflector
signing = record mesh { random = some nonce; hmac = λ key samples. some (1 ∷ key) }

-- The link of the reflector for 222, and that of the one for 24.
abbrev from_222 : Link
from_222 = record (up 3 9) {
  peer_id_config = codes "TRUNK_1";
  routes = record (up 3 9).routes { local_prefix = codes "222" ∷ codes "31" ∷ [] };
  inbound_con = none;
  ob_hello_received = false;
}

abbrev to_222 : Link
to_222 = record from_222 {
  routes = record from_222.routes { remote_prefix = codes "31" ∷ codes "222" ∷ [] };
}

abbrev waiting : TrunkServer
waiting = record {
  pending = (7, 70) ∷ [];
  inbound_map = [];
  links = record to_222 { section = codes "TRUNK_2" } ∷ to_222 ∷ [];
  tgs = new_handler;
  calls = [];
}

ends : AreEnds from_222 to_222
unfolding same_prefixes sort insert_sorted bytes_less list_eq split_prefixes join_prefixes
    keep_tokens join_from get_lines trim bytes_eq
ends = record { section = refl; named = refl; secret = refl; prefixes = refl }

signed : IsSigned signing signing (codes "secret") nonce (1 ∷ codes "secret")
signed = record { drawn = refl; long = refl; digested = refl; full = refl; checked = refl }

from_222-is_msg : is_msg (own_hello signing from_222) ≡ true
unfolding is_msg own_hello make_hello join_prefixes join_from all_values
from_222-is_msg = refl

from_222-packs : packs (own_hello signing from_222) ≡ true
unfolding packs pack_msg pack_members type_of own_hello make_hello join_prefixes join_from
    all_values and_then pack_two pack8 pack_vector pack_items pack_text
from_222-packs = refl

to_222-is_msg : is_msg (own_hello signing to_222) ≡ true
unfolding is_msg own_hello make_hello join_prefixes join_from all_values
to_222-is_msg = refl

to_222-packs : packs (own_hello signing to_222) ≡ true
unfolding packs pack_msg pack_members type_of own_hello make_hello join_prefixes join_from
    all_values and_then pack_two pack8 pack_vector pack_items pack_text
to_222-packs = refl

waits : find 7 waiting.pending ≡ some 70
unfolding find
waits = refl

other_section : All (λ l. bytes_eq (codes "TRUNK_1") l.section ≡ false) (take 1 waiting.links)
unfolding bytes_eq
other_section = (refl, tt)

trunk_pending_frame_received-Greets_example :
    Joined signing 7 1 3 to_222
      (trunk_pending_frame_received signing 7 (pack_msg (own_hello signing from_222)).0 waiting)
trunk_pending_frame_received-Greets_example =
    trunk_pending_frame_received-Greets signing signing from_222 to_222 nonce (1 ∷ codes "secret") 7
      70 1 waiting ends signed from_222-is_msg from_222-packs to_222-packs refl waits refl
      other_section

trunk_pending_frame_received-outcome_example :
    Admitted signing 7
      (0 ∷ 115 ∷ [])
      waiting
      (trunk_pending_frame_received signing 7 (0 ∷ 115 ∷ []) waiting)
    ⊎ Refused waiting (trunk_pending_frame_received signing 7 (0 ∷ 115 ∷ []) waiting)
trunk_pending_frame_received-outcome_example =
    trunk_pending_frame_received-outcome signing 7 (0 ∷ 115 ∷ []) waiting

abbrev greeted : World
greeted = record { link = record from_222 { con_connected = true }; tgs = new_handler }

one_waits : IsLimited (λ con. 1) waiting.pending
unfolding ip_pending count_keys
one_waits = record { total = omega arith; each = at_most_one }
  where
    at_most_one : (ip : ℕ) → ip_pending (λ con. 1) ip ((7, 70) ∷ []) ≤ 2
    at_most_one ip = ground arith

serve_all-IsLimited_example :
    IsLimited
      (λ con. 1)
      (serve_all signing
        (λ con. 1)
        (connected 8 80 ∷ connected 9 90 ∷ timeout 70 ∷ [])
        waiting).pending
serve_all-IsLimited_example =
    serve_all-IsLimited signing (λ con. 1) (connected 8 80 ∷ connected 9 90 ∷ timeout 70 ∷ [])
      waiting one_waits

abbrev starts : Msg
starts = talker_start 240 (codes "SM0A")

starts-is_msg : is_msg starts ≡ true
unfolding is_msg
starts-is_msg = refl

starts-packs : (pack_msg starts).1 ≡ true
unfolding pack_msg pack_members type_of and_then pack_two pack8 pack_text
starts-packs = refl

starts-bytes : (0 ∷ 116 ∷ 0 ∷ 0 ∷ 0 ∷ 240 ∷ 0 ∷ 4 ∷ codes "SM0") ++ 65 ∷ [] ≡ (pack_msg starts).0
unfolding pack_msg pack_members type_of and_then pack_two pack8 pack_text
starts-bytes = refl

frame_of-pack_msg_example : frame_of (pack_msg starts).0 ≡ message starts
frame_of-pack_msg_example = frame_of-pack_msg starts starts-is_msg starts-packs

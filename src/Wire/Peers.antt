-- ===== src/Wire/Peers.antt =====
-- ReflectorMsg.h: the messages between trunk peers, with their header.
use geu_reflector.Base.{ℕ, ◌≡◌, refl, Bool, true, List, [], Bytes}
use geu_reflector.Trunk.State.{
  Hello, Msg, heartbeat, hello, talker_start, talker_stop, audio, flush, tg_interest,
}
use geu_reflector.Wire.Codec.{Codec, two, pack_two, renamed, and_then}
use geu_reflector.Wire.Numbers.{u8, u16, u32, pack8}
use geu_reflector.Wire.Sequences.{vector}
use geu_reflector.Wire.Texts.{text}

abbrev pub blob : Codec Bytes
blob = vector u8

-- The members of MsgPeerHello.
abbrev pub HelloMembers : Type 0
HelloMembers = Bytes × (Bytes × (ℕ × (Bytes × (Bytes × ℕ))))

abbrev pub hello_of : HelloMembers → Hello
hello_of (i, (p, (n, (c, (d, r))))) = record {
  id = i;
  local_prefix = p;
  priority = n;
  nonce = c;
  digest = d;
  role = r;
}

abbrev pub members_of : Hello → HelloMembers
members_of h = (h.id, (h.local_prefix, (h.priority, (h.nonce, (h.digest, h.role)))))

pub hello_back : (h : Hello) → hello_of (members_of h) ≡ h
hello_back h = refl

abbrev pub hello_codec : Codec Hello
hello_codec =
    renamed hello_of members_of hello_back (two text (two text (two u32 (two blob (two blob u8)))))

-- TYPE
unfoldable pub type_of : Msg → ℕ
type_of (hello h) = 115
type_of (talker_start tg callsign) = 116
type_of (talker_stop tg) = 117
type_of (audio tg samples) = 118
type_of (flush tg) = 119
type_of heartbeat = 120
type_of (tg_interest peer_id tgs) = 129

-- The codecs of the members of the other messages.
abbrev pub tg_and_text : Codec (ℕ × Bytes)
tg_and_text = two u32 text

abbrev pub tg_and_blob : Codec (ℕ × Bytes)
tg_and_blob = two u32 blob

abbrev pub text_and_tgs : Codec (Bytes × List ℕ)
text_and_tgs = two text (vector u32)

-- `msg.pack(ss)`
unfoldable pub pack_members : Msg → Bytes × Bool
pack_members heartbeat = ([], true)
pack_members (hello h) = hello_codec.pack h
pack_members (talker_start tg callsign) = tg_and_text.pack (tg, callsign)
pack_members (talker_stop tg) = u32.pack tg
pack_members (audio tg samples) = tg_and_blob.pack (tg, samples)
pack_members (flush tg) = u32.pack tg
pack_members (tg_interest peer_id tgs) = text_and_tgs.pack (peer_id, tgs)

-- Do the members hold what their types can hold?
unfoldable pub is_msg : Msg → Bool
is_msg heartbeat = true
is_msg (hello h) = hello_codec.is_value h
is_msg (talker_start tg callsign) = tg_and_text.is_value (tg, callsign)
is_msg (talker_stop tg) = u32.is_value tg
is_msg (audio tg samples) = tg_and_blob.is_value (tg, samples)
is_msg (flush tg) = u32.is_value tg
is_msg (tg_interest peer_id tgs) = text_and_tgs.is_value (peer_id, tgs)

-- `header.pack(ss) && msg.pack(ss)`
unfoldable pub pack_msg : Msg → Bytes × Bool
pack_msg m = and_then (u16.pack (type_of m)) (pack_members m)

unfoldable pub packs : Msg → Bool
unfolding pack_msg
packs m = (pack_msg m).1

pub packs-heartbeat : packs heartbeat ≡ true
unfolding packs type_of pack_members pack_two pack8 and_then
packs-heartbeat = refl

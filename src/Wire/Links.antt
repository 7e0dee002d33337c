-- ===== src/Wire/Links.antt =====
-- ReflectorMsg.h: the messages of satellites and twins, those between trunk peers among them.
use geu_reflector.Base.{ℕ, ◌≡◌, refl, Bool, List, Bytes}
use geu_reflector.Trunk.State.{Msg}
use geu_reflector.Nodes.Entry.{Columns}
use geu_reflector.Wire.Codec.{Codec, two, renamed, and_then}
use geu_reflector.Wire.Numbers.{u16, u32}
use geu_reflector.Wire.Sequences.{vector}
use geu_reflector.Wire.Texts.{text}
use geu_reflector.Wire.Peers.{pack_msg}

pub data LinkMsg : Type 0 where
  peer : Msg → LinkMsg
  node_list : Columns → LinkMsg
  peer_filter : Bytes → LinkMsg
  ext_talker_start : ℕ → Bytes → Bytes → LinkMsg
  ext_talker_stop : ℕ → Bytes → LinkMsg
  client_connected : Bytes → ℕ → Bytes → LinkMsg
  client_disconnected : Bytes → LinkMsg
  client_rx : Bytes → Bytes → LinkMsg
  client_status : Bytes → Bytes → LinkMsg

abbrev pub ColumnMembers : Type 0
ColumnMembers =
    List Bytes × (List ℕ × (List ℕ × (List ℕ × (List Bytes × (List Bytes × List Bytes)))))

abbrev pub columns_back_of : ColumnMembers → Columns
columns_back_of (c, (t, (a, (o, (q, (b, s)))))) = record {
  callsigns = c;
  tgs = t;
  lats = a;
  lons = o;
  qth_names = q;
  status_blobs = b;
  sat_ids = s;
}

abbrev pub members_of_columns : Columns → ColumnMembers
members_of_columns c =
    (c.callsigns, (c.tgs, (c.lats, (c.lons, (c.qth_names, (c.status_blobs, c.sat_ids))))))

pub columns_back : (c : Columns) → columns_back_of (members_of_columns c) ≡ c
columns_back c = refl

-- A float is packed by its 32 bits.
abbrev pub columns_codec : Codec Columns
columns_codec = renamed columns_back_of members_of_columns columns_back (
    two (vector text) (
      two (vector u32) (
        two (vector u32) (two (vector u32) (two (vector text) (two (vector text) (vector text)))))))

abbrev pub text_and_text : Codec (Bytes × Bytes)
text_and_text = two text text

abbrev pub text_tg_text : Codec (Bytes × (ℕ × Bytes))
text_tg_text = two text (two u32 text)

abbrev pub tg_text_text : Codec (ℕ × (Bytes × Bytes))
tg_text_text = two u32 (two text text)

abbrev pub tg_text : Codec (ℕ × Bytes)
tg_text = two u32 text

-- `header.pack(ss) && msg.pack(ss)`
unfoldable pub pack_link_msg : LinkMsg → Bytes × Bool
pack_link_msg (peer m) = pack_msg m
pack_link_msg (node_list c) = and_then (u16.pack 121) (columns_codec.pack c)
pack_link_msg (peer_filter s) = and_then (u16.pack 122) (text.pack s)
pack_link_msg (ext_talker_start tg id cs) =
    and_then (u16.pack 123) (tg_text_text.pack (tg, (id, cs)))
pack_link_msg (ext_talker_stop tg id) = and_then (u16.pack 124) (tg_text.pack (tg, id))
pack_link_msg (client_connected cs tg ip) =
    and_then (u16.pack 125) (text_tg_text.pack (cs, (tg, ip)))
pack_link_msg (client_disconnected cs) = and_then (u16.pack 126) (text.pack cs)
pack_link_msg (client_rx cs json) = and_then (u16.pack 127) (text_and_text.pack (cs, json))
pack_link_msg (client_status cs json) = and_then (u16.pack 128) (text_and_text.pack (cs, json))

unfoldable pub packs_link : LinkMsg → Bool
unfolding pack_link_msg
packs_link m = (pack_link_msg m).1

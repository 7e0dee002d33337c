-- ===== src/Nodes/Entry.antt =====
-- MsgPeerNodeList of ReflectorMsg.h, and the check of its entries in TwinLink.cpp,
-- SatelliteLink.cpp and SatelliteClient.cpp.
-- A float is the number of its 32 bits: sign, exponent and fraction of IEEE 754, by which finite
-- numbers of one sign are ordered.
use geu_reflector.Base.{
  ℕ, zero, suc, ◌/◌, ◌%◌, ◌^◌, Bool, not, ◌&&◌, List, [], ◌∷◌, Option, none, some, Bytes, leb, ◌==◌,
  if◌then◌else◌, is_empty, length, get_elem?, value_or, map,
}
use geu_reflector.Trunk.Ident.{sanitize_ident, sanitize_text}
use geu_reflector.Nodes.Json.{Json, null, sanitize_json_strings}

pub record NodeEntry : Type 0 where
  pub callsign : Bytes
  pub tg : ℕ
  pub lat : ℕ
  pub lon : ℕ
  pub qth_name : Bytes
  pub status : Json
  pub sat_id : Bytes

-- The members of the message: one vector for each field.
pub record Columns : Type 0 where
  pub callsigns : List Bytes
  pub tgs : List ℕ
  pub lats : List ℕ
  pub lons : List ℕ
  pub qth_names : List Bytes
  pub status_blobs : List Bytes
  pub sat_ids : List Bytes

abbrev pub max_status_blob : ℕ
max_status_blob = 65536

abbrev min : ℕ → ℕ → ℕ
min a b = if leb a b then a else b

-- `write` prints a JSON value, and `parse` reads one or fails.
module _ (write : Json → Bytes) (parse : Bytes → Option Json) where
  unfoldable pub status_blob : Json → Bytes
  status_blob null = []
  status_blob v = write v

  unfoldable pub columns_of : List NodeEntry → Columns
  columns_of ns = record {
    callsigns = map (λ n. n.callsign) ns;
    tgs = map (λ n. n.tg) ns;
    lats = map (λ n. n.lat) ns;
    lons = map (λ n. n.lon) ns;
    qth_names = map (λ n. n.qth_name) ns;
    status_blobs = map (λ n. status_blob n.status) ns;
    sat_ids = map (λ n. n.sat_id) ns;
  }

  unfoldable pub status_of : Option Bytes → Json
  status_of none = null
  status_of (some blob) =
      if is_empty blob
      then null
      else if leb (length blob) max_status_blob
      then value_or (parse blob) null
      else null

  unfoldable pub row : ℕ → Columns → NodeEntry
  row i c = record {
    callsign = value_or (get_elem? c.callsigns i) [];
    tg = value_or (get_elem? c.tgs i) 0;
    lat = value_or (get_elem? c.lats i) 0;
    lon = value_or (get_elem? c.lons i) 0;
    qth_name = value_or (get_elem? c.qth_names i) [];
    status = status_of (get_elem? c.status_blobs i);
    sat_id = value_or (get_elem? c.sat_ids i) [];
  }

  -- The loop, with the rounds that are left.
  unfoldable pub rows : ℕ → ℕ → Columns → List NodeEntry
  rows zero i c = []
  rows (suc left) i c = row i c ∷ rows left (suc i) c

  unfoldable pub nodes : Columns → List NodeEntry
  nodes c = rows (min (length c.callsigns) (length c.tgs)) 0 c

-- `std::isfinite(x) && x >= -limit && x <= limit`, for the bits of the limit.
unfoldable pub is_within : ℕ → ℕ → Bool
is_within limit x = not ((x / 2 ^ 23) % 2 ^ 8 == 255) && leb (x % 2 ^ 31) limit

-- 90.0f, 180.0f
abbrev pub float_90 : ℕ
float_90 = 0x42b40000

abbrev pub float_180 : ℕ
float_180 = 0x43340000

-- The entry that is kept, with the sat_id that is given.
unfoldable pub sanitize_entry : Bytes → NodeEntry → NodeEntry
sanitize_entry sat_id n =
    let located = is_within float_90 n.lat && is_within float_180 n.lon in
    record {
      callsign = sanitize_ident n.callsign 32;
      tg = n.tg;
      lat = if located then n.lat else 0;
      lon = if located then n.lon else 0;
      qth_name = sanitize_text n.qth_name 64;
      status = sanitize_json_strings 0 n.status;
      sat_id = sat_id;
    }

-- The loop over the entries, where an entry without a callsign is dropped.
unfoldable pub sanitize_nodes : (NodeEntry → Bytes) → List NodeEntry → List NodeEntry
sanitize_nodes sat_id [] = []
sanitize_nodes sat_id (n ∷ ns) =
    let rest = sanitize_nodes sat_id ns in
    if is_empty (sanitize_ident n.callsign 32) then rest else sanitize_entry (sat_id n) n ∷ rest

-- A sat_id that is passed on.
abbrev pub passed_sat_id : NodeEntry → Bytes
passed_sat_id n = sanitize_ident n.sat_id 64

-- ===== src/Nodes/Json.antt =====
-- TrunkLink.cpp, TwinLink.cpp, SatelliteLink.cpp, SatelliteClient.cpp: what is kept of a JSON value
-- that a peer sends; the four files have the same function.
-- The members of an object stand in the order of its names, each name once; a number is one that
-- `isUInt` holds of, or another one by a code for it.
use geu_reflector.Base.{ℕ, zero, suc, Bool, Bytes, leb, if◌then◌else◌, bytes_eq, Option, none, some}
use geu_reflector.Trunk.Ident.{sanitize_text}

mutual
  pub data Json : Type 0 where
    null : Json
    boolean : Bool → Json
    unsigned : ℕ → Json
    number : ℕ → Json
    string : Bytes → Json
    array : Elements → Json
    object : Members → Json

  pub data Elements : Type 0 where
    nil : Elements
    element : Json → Elements → Elements

  pub data Members : Type 0 where
    end : Members
    member : Bytes → Json → Members → Members

-- MAX_DEPTH, MAX_LEN, MAX_STR_BYTES
abbrev pub max_depth : ℕ
max_depth = 8

abbrev pub max_len : ℕ
max_len = 256

abbrev pub max_str_bytes : ℕ
max_str_bytes = 1024

abbrev pub cut_at : ℕ → Json → Json
cut_at depth v = if leb max_depth depth then null else v

-- The other functions take what is left of the first `MAX_LEN` elements or members.
unfoldable mutual
  pub sanitize_json_strings : ℕ → Json → Json
  sanitize_json_strings depth null = null
  sanitize_json_strings depth (boolean b) = cut_at depth (boolean b)
  sanitize_json_strings depth (unsigned n) = cut_at depth (unsigned n)
  sanitize_json_strings depth (number n) = cut_at depth (number n)
  sanitize_json_strings depth (string s) = cut_at depth (string (sanitize_text s max_str_bytes))
  sanitize_json_strings depth (array xs) =
      cut_at depth (array (sanitize_elements max_len (suc depth) xs))
  sanitize_json_strings depth (object ms) =
      cut_at depth (object (sanitize_members max_len (suc depth) ms))

  pub sanitize_elements : ℕ → ℕ → Elements → Elements
  sanitize_elements zero depth xs = nil
  sanitize_elements (suc room) depth nil = nil
  sanitize_elements (suc room) depth (element v xs) =
      element (sanitize_json_strings depth v) (sanitize_elements room depth xs)

  pub sanitize_members : ℕ → ℕ → Members → Members
  sanitize_members zero depth ms = end
  sanitize_members (suc room) depth end = end
  sanitize_members (suc room) depth (member k v ms) =
      member k (sanitize_json_strings depth v) (sanitize_members room depth ms)

-- `isMember` and `operator[]`, for the first member of a name.
unfoldable pub find_member : Bytes → Members → Option Json
find_member k end = none
find_member k (member j v ms) = let rest = find_member k ms in if bytes_eq j k then some v else rest

unfoldable pub set_member : Bytes → Json → Members → Members
set_member k v end = end
set_member k v (member j w ms) =
    let rest = set_member k v ms in if bytes_eq j k then member j v ms else member j w rest

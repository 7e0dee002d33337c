-- ===== src/Tests/Nodes.antt =====
-- Lists of clients and JSON values, at concrete ones.
use geu_reflector.Base.{
  ◌≡◌, refl, true, false, List, [], ◌∷◌, Option, none, some, Bytes, codes, All, inl, inr, ◌↔◌,
  arith, is_empty, find, take,
}
use geu_reflector.TgFilter.Entry.{matches, any_matches, entry_matches}
use geu_reflector.Trunk.State.{is_blacklisted, is_allowed, map_tg_in}
use geu_reflector.Trunk.Ident.{sanitize_ident, sanitize_ident_from}
use geu_reflector.Nodes.Json.{
  Json, null, boolean, string, object, end, member, unsigned, sanitize_json_strings,
}
use geu_reflector.Nodes.Clean.{is_clean, names, sanitize_json_strings_lem}
use geu_reflector.Nodes.Entry.{NodeEntry, columns_of, nodes}
use geu_reflector.Nodes.Columns.{IsReadable, nodes-columns_of}
use geu_reflector.Nodes.Trunk.{is_permitted, trunk_nodes}
use geu_reflector.Nodes.Permitted.{IsKept, trunk_nodes-IsKept, trunk_nodes_throws}
use geu_reflector.Tests.Link.{up}

abbrev pub silent_node : NodeEntry
silent_node = record {
  callsign = codes "SM0A";
  tg = 240;
  lat = 0x42700000;
  lon = 0x41900000;
  qth_name = codes "Kista";
  status = null;
  sat_id = [];
}

abbrev odd_node : NodeEntry
odd_node = record silent_node { callsign = codes "SM0B"; status = boolean true }

abbrev full_node : NodeEntry
full_node = record silent_node {
  callsign = codes "SM0C";
  status = object (member (codes "tg") (unsigned 240) end);
}

abbrev pub print_true : Json → Bytes
print_true v = codes "true"

abbrev pub read_true : Bytes → Option Json
read_true b = some (boolean true)

odd-IsReadable : IsReadable print_true read_true (boolean true)
odd-IsReadable = record { read = refl; there = refl; short = omega arith }

nodes-columns_of_example :
    nodes print_true read_true (columns_of print_true read_true (silent_node ∷ odd_node ∷ []))
    ≡ silent_node ∷ odd_node ∷ []
nodes-columns_of_example =
    nodes-columns_of print_true read_true (silent_node ∷ odd_node ∷ [])
      (inl refl, (inr odd-IsReadable, tt))

-- A control character in the name of a member, and one in its value.
abbrev odd_object : Json
odd_object = object (member (9 ∷ []) (string (9 ∷ 65 ∷ [])) end)

sanitize_json_strings_example :
    (is_clean 0 (sanitize_json_strings 0 odd_object) ≡ true)
    × ((is_clean 0 odd_object ≡ true) ↔ (sanitize_json_strings 0 odd_object ≡ odd_object))
    × (names (sanitize_json_strings 0 odd_object) ≡ take 256 (names odd_object))
sanitize_json_strings_example = sanitize_json_strings_lem odd_object

trunk_nodes-IsKept_example :
    (es : List NodeEntry) × (trunk_nodes (up 1 2) (silent_node ∷ full_node ∷ []) ≡ some es)
    × All (IsKept (up 1 2)) es
trunk_nodes-IsKept_example =
    trunk_nodes-IsKept (up 1 2) (silent_node ∷ full_node ∷ []) (refl, (refl, tt))

permitted_240 : is_permitted (up 1 2) 240 ≡ true
unfolding is_permitted is_blacklisted is_allowed map_tg_in matches any_matches entry_matches find
permitted_240 = refl

odd_named : is_empty (sanitize_ident (codes "SM0B") 32) ≡ false
unfolding sanitize_ident sanitize_ident_from
odd_named = refl

trunk_nodes_throws_example : trunk_nodes (up 1 2) (full_node ∷ odd_node ∷ []) ≡ none
trunk_nodes_throws_example =
    trunk_nodes_throws (up 1 2) odd_node (full_node ∷ odd_node ∷ []) (inr (inl refl)) odd_named
      permitted_240 refl

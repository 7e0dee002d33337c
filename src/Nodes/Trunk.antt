-- ===== src/Nodes/Trunk.antt =====
-- TrunkLink.cpp: the list of clients that a peer sends, as the link keeps it.
-- `isMember` of jsoncpp throws on a value that is neither null nor an object; `none` is that
-- exception, which nothing catches.
use geu_reflector.Base.{
  ℕ, Bool, not, ◌||◌, List, [], ◌∷◌, Option, none, some, Bytes, codes, if◌then◌else◌, is_empty,
}
use geu_reflector.Trunk.State.{Link, is_blacklisted, is_allowed, map_tg_in}
use geu_reflector.Trunk.Ident.{sanitize_ident}
use geu_reflector.Nodes.Json.{
  Json, null, unsigned, array, object, Elements, nil, element, Members, find_member, set_member,
}
use geu_reflector.Nodes.Entry.{NodeEntry, sanitize_entry, passed_sat_id}

-- The gate of the link for a talk group in the peer's numbers.
unfoldable pub is_permitted : Link → ℕ → Bool
is_permitted l tg =
    not (is_blacklisted l tg || is_blacklisted l (map_tg_in l tg) || not (is_allowed l tg))

-- The loop over monitoredTGs.
unfoldable pub permitted : Link → Elements → Elements
permitted l nil = nil
permitted l (element (unsigned tg) xs) =
    let rest = permitted l xs in if is_permitted l tg then element (unsigned tg) rest else rest
permitted l (element v xs) = permitted l xs

abbrev pub monitored_tgs_name : Bytes
monitored_tgs_name = codes "monitoredTGs"

unfoldable pub trim_found : Link → Option Json → Members → Members
trim_found l none ms = ms
trim_found l (some (array xs)) ms = set_member monitored_tgs_name (array (permitted l xs)) ms
trim_found l (some v) ms = ms

unfoldable pub trim_members : Link → Members → Members
trim_members l ms = trim_found l (find_member monitored_tgs_name ms) ms

unfoldable pub trim_status : Link → Json → Option Json
trim_status l null = some null
trim_status l (object ms) = some (object (trim_members l ms))
trim_status l v = none

unfoldable pub keep_node : Link → NodeEntry → Option NodeEntry
keep_node l n =
    let e = sanitize_entry (passed_sat_id n) n in
    elim (trim_status l e.status) [ none ↦ none | some v ↦ some (record e { status = v }) ]

-- The loop over the entries.
unfoldable pub trunk_nodes : Link → List NodeEntry → Option (List NodeEntry)
trunk_nodes l [] = some []
trunk_nodes l (n ∷ ns) =
    let rest = trunk_nodes l ns in
    if is_empty (sanitize_ident n.callsign 32)
    then rest
    else if not (is_permitted l n.tg)
    then rest
    else elim (keep_node l n) [
      | none ↦ none
      | some e ↦ elim rest [ none ↦ none | some es ↦ some (e ∷ es) ]
    ]

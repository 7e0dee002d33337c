-- ===== src/Nodes/Permitted.antt =====
-- TrunkLink.cpp: no talk group that the link filters shows in the list that it keeps.
use geu_reflector.Base.{
  ◌≡◌, refl, Bool, true, false, ◌&&◌, List, [], ◌∷◌, Option, none, some, Bytes, is_empty, All, Elem,
  Bool-cases, inl, inr, arith,
}
use geu_reflector.Trunk.State.{Link}
use geu_reflector.Trunk.Ident.{sanitize_ident}
use geu_reflector.Nodes.Json.{
  Json, null, unsigned, array, object, Elements, nil, element, Members, end, member, find_member,
  set_member, sanitize_json_strings,
}
use geu_reflector.Nodes.Entry.{NodeEntry, sanitize_entry, passed_sat_id}
use geu_reflector.Nodes.Trunk.{
  is_permitted, permitted, monitored_tgs_name, trim_found, trim_members, trim_status, keep_node,
  trunk_nodes,
}

-- Every element is a talk group that the link permits.
pub are_permitted : Link → Elements → Bool
are_permitted l nil = true
are_permitted l (element (unsigned tg) xs) = is_permitted l tg && are_permitted l xs
are_permitted l (element v xs) = false

pub found_permitted : Link → Option Json → Bool
unfolding are_permitted
found_permitted l none = true
found_permitted l (some (array xs)) = are_permitted l xs
found_permitted l (some v) = true

-- A status that shows only permitted monitored talk groups, where it shows an array of them.
pub shows_permitted : Link → Json → Bool
unfolding found_permitted
shows_permitted l null = true
shows_permitted l (object ms) = found_permitted l (find_member monitored_tgs_name ms)
shows_permitted l v = false

permitted-are_permitted : (l : Link) (xs : Elements) → are_permitted l (permitted l xs) ≡ true
unfolding permitted are_permitted
permitted-are_permitted l nil = refl
permitted-are_permitted l (element (unsigned tg) xs) = ground (arith, permitted-are_permitted l xs)
permitted-are_permitted l (element v xs) = permitted-are_permitted l xs

find-set_member :
    (k : Bytes) (v w : Json) (ms : Members)
    → find_member k ms ≡ some w
    → find_member k (set_member k v ms) ≡ some v
unfolding find_member set_member
find-set_member k v w end e = absurd (ground arith)
find-set_member k v w (member j u ms) e = ground (arith, find-set_member k v w ms)

trim_found-permitted :
    (l : Link) (o : Option Json) (ms : Members)
    → find_member monitored_tgs_name ms ≡ o
    → found_permitted l (find_member monitored_tgs_name (trim_found l o ms)) ≡ true
unfolding trim_found found_permitted
trim_found-permitted l none ms e = rw e refl
trim_found-permitted l (some (array xs)) ms e =
    rw (find-set_member monitored_tgs_name (array (permitted l xs)) (array xs) ms e)
      (permitted-are_permitted l xs)
trim_found-permitted l (some v) ms e = rw e refl

trim_members-permitted :
    (l : Link) (ms : Members) → shows_permitted l (object (trim_members l ms)) ≡ true
unfolding trim_members shows_permitted
trim_members-permitted l ms = trim_found-permitted l (find_member monitored_tgs_name ms) ms refl

-- `isMember` is defined on the status.
abbrev pub is_shaped : Json → Bool
is_shaped null = true
is_shaped (object ms) = true
is_shaped v = false

-- An entry that is kept: it has a callsign, the link permits its talk group, and it shows no
-- monitored talk group but permitted ones.
pub record IsKept (l : Link) (e : NodeEntry) : Type 0 where
  pub named : is_empty e.callsign ≡ false
  pub selected : is_permitted l e.tg ≡ true
  pub monitored : shows_permitted l e.status ≡ true

keep_node_status :
    (l : Link) (n : NodeEntry) (v : Json)
    → is_empty (sanitize_ident n.callsign 32) ≡ false
    → is_permitted l n.tg ≡ true
    → shows_permitted l v ≡ true
    → IsKept l (record (sanitize_entry (passed_sat_id n) n) { status = v })
unfolding sanitize_entry
keep_node_status l n v a b c = record { named = a; selected = b; monitored = c }

trim_sanitized :
    (l : Link) (v : Json)
    → is_shaped v ≡ true
    → (u : Json) × (trim_status l (sanitize_json_strings 0 v) ≡ some u)
      × (shows_permitted l u ≡ true)
unfolding trim_status sanitize_json_strings shows_permitted
trim_sanitized l null h = (null, refl, refl)
trim_sanitized l (object ms) h = (_, refl, trim_members-permitted l _)
trim_sanitized l v h = absurd (ground arith)

keep_node_total :
    (l : Link) (n : NodeEntry)
    → is_empty (sanitize_ident n.callsign 32) ≡ false
    → is_permitted l n.tg ≡ true
    → is_shaped n.status ≡ true
    → (e : NodeEntry) × (keep_node l n ≡ some e) × IsKept l e
unfolding keep_node sanitize_entry
keep_node_total l n a b h =
    let (u, e, k) = trim_sanitized l n.status h in
    (
      record (sanitize_entry (passed_sat_id n) n) { status = u },
      rw (keep_node, e) refl,
      keep_node_status l n u a b k,
    )

-- Where each status is null or an object, the list of a peer gives a list of entries, of which each
-- one has a callsign and shows, as selected or as monitored, only talk groups that the link permits.
pub trunk_nodes-IsKept :
    (l : Link) (ns : List NodeEntry)
    → All (λ n. is_shaped n.status ≡ true) ns
    → (es : List NodeEntry) × (trunk_nodes l ns ≡ some es) × All (IsKept l) es
unfolding trunk_nodes
trunk_nodes-IsKept l [] h = ([], refl, tt)
trunk_nodes-IsKept l (n ∷ ns) (h, hs) =
    let (es, e, ks) = trunk_nodes-IsKept l ns hs in
    elim (Bool-cases (is_empty (sanitize_ident n.callsign 32))) [
      | inl a ↦ (es, rw (a) e, ks)
      | inr a ↦ elim (Bool-cases (is_permitted l n.tg)) [
        | inr b ↦ (es, rw (a, b) e, ks)
        | inl b ↦
            let (x, ex, k) = keep_node_total l n a b h in (x ∷ es, rw (a, b, ex, e) refl, (k, ks))
      ]
    ]

trim_bad :
    (l : Link) (v : Json) → is_shaped v ≡ false → trim_status l (sanitize_json_strings 0 v) ≡ none
unfolding trim_status sanitize_json_strings
trim_bad l null h = absurd (ground arith)
trim_bad l (object ms) h = absurd (ground arith)
trim_bad l v h = refl

keep_bad : (l : Link) (n : NodeEntry) → is_shaped n.status ≡ false → keep_node l n ≡ none
unfolding keep_node sanitize_entry
keep_bad l n h = rw (keep_node, trim_bad l n.status h) refl

-- One entry with a callsign and a permitted talk group whose status is neither null nor an object is
-- enough for the list of an authenticated peer to end in an exception.
pub trunk_nodes_throws :
    (l : Link) (n : NodeEntry) (ns : List NodeEntry)
    → Elem n ns
    → is_empty (sanitize_ident n.callsign 32) ≡ false
    → is_permitted l n.tg ≡ true
    → is_shaped n.status ≡ false
    → trunk_nodes l ns ≡ none
unfolding trunk_nodes
trunk_nodes_throws l n [] i a b h = elim i [ ]
trunk_nodes_throws l n (m ∷ ns) (inl e) a b h = rw (← e, a, b, keep_bad l n h) refl
trunk_nodes_throws l n (m ∷ ns) (inr i) a b h =
    let rest = trunk_nodes_throws l n ns i a b h in ground arith

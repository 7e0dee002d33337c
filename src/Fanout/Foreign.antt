-- ===== src/Fanout/Foreign.antt =====
-- Reflector.cpp, sendNodeListToAllPeers: a status of a client that ends the program.
use geu_reflector.Base.{
  ℕ, ◌≡◌, refl, ap, Bool, true, false, not, [], ◌∷◌, Option, none, some, Map, Bytes, codes,
  is_empty, Elem, inl, inr, arith,
}
use geu_reflector.Audio.Filters.{Client}
use geu_reflector.Nodes.Json.{Json, null, array, object, element, find_member}
use geu_reflector.Nodes.Entry.{NodeEntry}
use geu_reflector.Nodes.Permitted.{is_shaped}
use geu_reflector.Fanout.Clients.{Outlets}
use geu_reflector.Fanout.Rosters.{
  plain_node, locate, locate_first, describe, local_node, local_nodes, send_node_list_to_all_peers,
}

-- A status with which the exception comes: it is neither null nor an object, or the first element of
-- its "qth" is not.
abbrev pub is_odd_place : Option Json → Bool
is_odd_place (some (array (element q qs))) = not (is_shaped q)
is_odd_place o = false

abbrev pub is_odd_status : Json → Bool
is_odd_status (object ms) = is_odd_place (find_member (codes "qth") ms)
is_odd_status v = not (is_shaped v)

module _ (as_float : Json → ℕ) where
  locate-odd : (q : Json) (e : NodeEntry) → is_shaped q ≡ false → locate as_float q e ≡ none
  unfolding locate
  locate-odd null e h = absurd (ground arith)
  locate-odd (object ms) e h = absurd (ground arith)
  locate-odd q e h = refl

  locate_first-odd :
      (o : Option Json) (e : NodeEntry) → is_odd_place o ≡ true → locate_first as_float o e ≡ none
  unfolding locate_first
  locate_first-odd (some (array (element q qs))) e h = locate-odd q e (ground arith)
  locate_first-odd o e h = absurd (ground arith)

  describe-odd : (v : Json) (e : NodeEntry) → is_odd_status v ≡ true → describe as_float v e ≡ none
  unfolding describe
  describe-odd null e h = absurd (ground arith)
  describe-odd (object ms) e h = locate_first-odd (find_member (codes "qth") ms) e h
  describe-odd v e h = refl

  local_nodes-odd :
      (status : Bytes → Option Json) (v : Json) (c : Client) (con : ℕ) (cs : Map Client)
      → Elem (con, c) cs
      → is_empty c.callsign ≡ false
      → status c.callsign ≡ some v
      → is_odd_status v ≡ true
      → local_nodes as_float status cs ≡ none
  unfolding local_nodes local_node
  local_nodes-odd status v c con [] i a b h = elim i [ ]
  local_nodes-odd status v c con ((k, d) ∷ cs) (inl e) a b h =
      let bad = describe-odd v (record (plain_node c) { status = v }) h in
      let same : c ≡ d = ap (λ p. p.1) e in rw (← same, a, b, bad) refl
  local_nodes-odd status v c con ((k, d) ∷ cs) (inr i) a b h =
      let rest = local_nodes-odd status v c con cs i a b h in ground arith

-- One client that is there, and that has said of itself a status that is neither null nor an object,
-- or whose "qth" begins with a value that is neither, is enough for the next lists of clients to end
-- in an exception.
pub send_node_list_to_all_peers_throws :
    (write : Json → Bytes) (parse : Bytes → Option Json) (as_float : Json → ℕ)
    (status : Bytes → Option Json) (v : Json) (c : Client) (con : ℕ) (o : Outlets)
    → Elem (con, c) o.clients
    → is_empty c.callsign ≡ false
    → status c.callsign ≡ some v
    → is_odd_status v ≡ true
    → send_node_list_to_all_peers write parse as_float status o ≡ none
unfolding send_node_list_to_all_peers
send_node_list_to_all_peers_throws write parse as_float status v c con o i a b h =
    rw (send_node_list_to_all_peers, local_nodes-odd as_float status v c con o.clients i a b h) refl

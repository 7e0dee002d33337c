-- ===== src/Fanout/Chosen.antt =====
-- Reflector.cpp, sendNodeListToAllPeers: which entries a satellite is sent.
use geu_reflector.Base.{
  ℕ, ◌≡◌, refl, sym, ◌∙◌, ap, Bool, true, false, not, ◌&&◌, List, [], ◌∷◌, Option, some, Map, Bytes,
  bytes_eq, is_empty, Elem, ◌↔◌, Bool-cases, Option-cases, some_eq, find, ◌==◌, ◌++◌, inl, inr,
  arith,
}
use geu_reflector.Nodes.Json.{Json}
use geu_reflector.Nodes.Entry.{NodeEntry}
use geu_reflector.Satellite.State.{SatelliteLink, filter_passes_tg}
use geu_reflector.Wire.Links.{LinkMsg, node_list, packs_link}
use geu_reflector.Nodes.Entry.{columns_of}
use geu_reflector.Satellite.State.{send_to_satellite}
use geu_reflector.Satellite.Frames.{passing_nodes, send_nodes_to_satellite}
use geu_reflector.Fanout.Clients.{Outlets}
use geu_reflector.Fanout.Rosters.{
  local_nodes, for_this_sat, satellite_nodes_of, send_rosters, send_to_peers,
  send_node_list_to_all_peers,
}

abbrev pub is_own : SatelliteLink → NodeEntry → Bool
is_own l m = not (is_empty l.satellite_id) && bytes_eq m.sat_id l.satellite_id

-- The entries for a satellite.
abbrev pub given :
    (Json → Bytes) → (Bytes → Option Json) → SatelliteLink → List NodeEntry → List NodeEntry
given write parse l ns = passing_nodes write parse l (for_this_sat l.satellite_id ns)

-- What a link has sent newly: those entries of a combined list that its satellite has not told
-- itself and whose talk group its filter passes.
pub record Roster (write : Json → Bytes) (parse : Bytes → Option Json) (ns : List NodeEntry)
    (l l' : SatelliteLink) : Type 0 where
  entries : List NodeEntry
  sent : l'.out ≡ node_list (columns_of write parse entries) ∷ l.out
  chosen :
      (n : NodeEntry)
      → Elem n entries ↔ (Elem n ns × (is_own l n ≡ false) × (filter_passes_tg l n.tg ≡ true))

module _ (write : Json → Bytes) (parse : Bytes → Option Json) (n : NodeEntry)
    (l : SatelliteLink) where
  kept :
      (m : NodeEntry) (ns : List NodeEntry)
      → is_own l m ≡ false
      → filter_passes_tg l m.tg ≡ true
      → (Elem n (given write parse l ns)
          → Elem n ns × (is_own l n ≡ false) × (filter_passes_tg l n.tg ≡ true))
      → Elem n (m ∷ given write parse l ns)
      → Elem n (m ∷ ns) × (is_own l n ≡ false) × (filter_passes_tg l n.tg ≡ true)
  kept m ns a b f (inl e) = (inl e, ap (is_own l) e ∙ a, ap (λ k. filter_passes_tg l k.tg) e ∙ b)
  kept m ns a b f (inr i) = let (x, y, z) = f i in (inr x, y, z)

  given_sound :
      (ns : List NodeEntry)
      → Elem n (given write parse l ns)
      → Elem n ns × (is_own l n ≡ false) × (filter_passes_tg l n.tg ≡ true)
  unfolding passing_nodes for_this_sat
  given_sound [] i = elim i [ ]
  given_sound (m ∷ ns) i = elim (Bool-cases (is_own l m)) [
    | inl a ↦ let (x, y, z) = given_sound ns (rw a at i) in (inr x, y, z)
    | inr a ↦ elim (Bool-cases (filter_passes_tg l m.tg)) [
      | inr b ↦ let (x, y, z) = given_sound ns (rw (a, b) at i) in (inr x, y, z)
      | inl b ↦ kept m ns a b (given_sound ns) (rw (a, b) at i)
    ]
  ]

  given_complete :
      (ns : List NodeEntry)
      → is_own l n ≡ false
      → filter_passes_tg l n.tg ≡ true
      → Elem n ns
      → Elem n (given write parse l ns)
  unfolding passing_nodes for_this_sat
  given_complete [] a b i = i
  given_complete (m ∷ ns) a b (inl e) =
      let a' : is_own l m ≡ false = ap (is_own l) (sym e) ∙ a in
      let b' : filter_passes_tg l m.tg ≡ true = ap (λ k. filter_passes_tg l k.tg) (sym e) ∙ b in
      rw (a', b') (inl e)
  given_complete (m ∷ ns) a b (inr i) =
      let rest = given_complete ns a b i in
      elim (Bool-cases (is_own l m)) [
        | inl c ↦ rw c rest
        | inr c ↦ elim (Bool-cases (filter_passes_tg l m.tg)) [
          | inl d ↦ rw (c, d) (inr rest)
          | inr d ↦ rw (c, d) rest
        ]
      ]

  given_iff :
      (ns : List NodeEntry)
      → Elem n (given write parse l ns)
        ↔ (Elem n ns × (is_own l n ≡ false) × (filter_passes_tg l n.tg ≡ true))
  given_iff ns = (given_sound ns, λ h. let (i, a, b) = h in given_complete ns a b i)

module _ (write : Json → Bytes) (parse : Bytes → Option Json) where
  find-send_rosters :
      (ns : List NodeEntry) (con : ℕ) (l : SatelliteLink) (m : Map SatelliteLink)
      → find con m ≡ some l
      → find con (send_rosters write parse ns m)
        ≡ some (send_nodes_to_satellite write parse (for_this_sat l.satellite_id ns) l)
  unfolding find send_rosters
  find-send_rosters ns con l [] h = absurd (ground arith)
  find-send_rosters ns con l ((c, k) ∷ m) h = elim (Bool-cases (con == c)) [
    | inl e ↦ rw e (
        ap (λ x. some (send_nodes_to_satellite write parse (for_this_sat x.satellite_id ns) x))
          (some_eq (rw e at h)))
    | inr e ↦ rw e (find-send_rosters ns con l m (rw e at h))
  ]

  send_to_peers-sats :
      (local : List NodeEntry) (o : Outlets)
      → o.is_satellite ≡ false
      → (o' : Outlets) × (send_to_peers write parse local o ≡ some o')
        × (o'.sats ≡ send_rosters write parse (local ++ satellite_nodes_of o.sats) o.sats)
  send_to_peers-sats local o h = elim (Option-cases o.twin) [
    | inl e ↦ rw (e, h) (_, refl, refl)
    | inr (l, e) ↦ rw (e, h) (_, refl, refl)
  ]

  send_to_satellite-out :
      (m : LinkMsg) (l : SatelliteLink)
      → l.is_open ≡ true
      → packs_link m ≡ true
      → (send_to_satellite m l).out ≡ m ∷ l.out
  unfolding send_to_satellite
  send_to_satellite-out m l up ok = rw (up, ok) refl

  send_nodes_to_satellite_greeted :
      (ns : List NodeEntry) (l : SatelliteLink)
      → l.hello_received ≡ true
      → send_nodes_to_satellite write parse (for_this_sat l.satellite_id ns) l
        ≡ send_to_satellite (node_list (columns_of write parse (given write parse l ns))) l
  unfolding send_nodes_to_satellite
  send_nodes_to_satellite_greeted ns l greeted = rw greeted refl

  sent-Roster :
      (ns : List NodeEntry) (l : SatelliteLink)
      → l.hello_received ≡ true
      → l.is_open ≡ true
      → packs_link (node_list (columns_of write parse (given write parse l ns))) ≡ true
      → Roster write parse ns l
          (send_nodes_to_satellite write parse (for_this_sat l.satellite_id ns) l)
  sent-Roster ns l greeted up ok = record {
    entries = given write parse l ns;
    sent =
        ap (λ k. k.out) (send_nodes_to_satellite_greeted ns l greeted)
        ∙ send_to_satellite-out (node_list (columns_of write parse (given write parse l ns))) l up
            ok;
    chosen = λ n. given_iff write parse n l ns;
  }

  -- Where the clients are described without an exception and the reflector is not a satellite
  -- itself, the lists of clients are sent: a satellite that has greeted, whose connection is open,
  -- and whose list packs, is sent one list, of those entries of the local clients and of all
  -- satellites that it has not told itself and whose talk group its filter passes.
  pub send_node_list_to_all_peers-Roster :
      (as_float : Json → ℕ) (status : Bytes → Option Json) (con : ℕ) (local : List NodeEntry)
      (l : SatelliteLink) (o : Outlets)
      → local_nodes as_float status o.clients ≡ some local
      → o.is_satellite ≡ false
      → find con o.sats ≡ some l
      → l.hello_received ≡ true
      → l.is_open ≡ true
      → packs_link (
          node_list
            (columns_of write parse (given write parse l (local ++ satellite_nodes_of o.sats))))
        ≡ true
      → (o' : Outlets) × (l' : SatelliteLink) × (send_node_list_to_all_peers write parse as_float
            status o
          ≡ some o')
        × (find con o'.sats ≡ some l')
        × Roster write parse (local ++ satellite_nodes_of o.sats) l l'
  unfolding send_node_list_to_all_peers
  send_node_list_to_all_peers-Roster as_float status con local l o a b c greeted up ok =
      let ns = local ++ satellite_nodes_of o.sats in
      let (o', done, sats) = send_to_peers-sats local o b in
      (
        o',
        send_nodes_to_satellite write parse (for_this_sat l.satellite_id ns) l,
        rw (send_node_list_to_all_peers, a) done,
        rw sats (find-send_rosters ns con l o.sats c),
        sent-Roster ns l greeted up ok,
      )

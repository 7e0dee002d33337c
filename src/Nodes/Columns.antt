-- ===== src/Nodes/Columns.antt =====
-- MsgPeerNodeList: the entries come back from the vectors.
use geu_reflector.Base.{
  ℕ, zero, suc, ◌≤◌, ◌≡◌, refl, false, List, [], ◌∷◌, Option, some, Bytes, leb, if◌then◌else◌,
  is_empty, length, All, ap, ap₂, arith, le→leb, ◌⊎◌, inl, inr, ◌∙◌,
}
use geu_reflector.Nodes.Json.{Json, null}
use geu_reflector.Nodes.Entry.{NodeEntry, status_blob, columns_of, status_of, row, rows, nodes}

module _ (write : Json → Bytes) (parse : Bytes → Option Json) where
  -- What is printed of a status is read again: it is null, or the text is there and within the
  -- limit, and the parser reads it.
  pub record IsReadable (v : Json) : Type 0 where
    pub read : parse (write v) ≡ some v
    pub there : is_empty (write v) ≡ false
    pub short : length (write v) ≤ 65536

  read_back : (v : Json) → IsReadable v → status_of write parse (some (write v)) ≡ v
  unfolding status_of
  read_back v h = rw (h.there, le→leb (length (write v)) 65536 h.short, h.read) refl

  status_back :
      (v : Json)
      → (v ≡ null) ⊎ IsReadable v
      → status_of write parse (some (status_blob write parse v)) ≡ v
  unfolding status_of status_blob
  status_back v (inl e) = rw e refl
  status_back null (inr h) = refl
  status_back v (inr h) = read_back v h

  rows-shift :
      (left i : ℕ) (n : NodeEntry) (ns : List NodeEntry)
      → rows write parse left (suc i) (columns_of write parse (n ∷ ns))
        ≡ rows write parse left i (columns_of write parse ns)
  unfolding rows row columns_of
  rows-shift zero i n ns = refl
  rows-shift (suc left) i n ns =
      ap (λ r. row write parse i (columns_of write parse ns) ∷ r) (rows-shift left (suc i) n ns)

  row-first :
      (n : NodeEntry) (ns : List NodeEntry)
      → (n.status ≡ null) ⊎ IsReadable n.status
      → row write parse 0 (columns_of write parse (n ∷ ns)) ≡ n
  unfolding row columns_of
  row-first n ns h = ap (λ v. record n { status = v }) (status_back n.status h)

  rows-columns_of :
      (ns : List NodeEntry)
      → All (λ n. (n.status ≡ null) ⊎ IsReadable n.status) ns
      → rows write parse (length ns) 0 (columns_of write parse ns) ≡ ns
  unfolding rows
  rows-columns_of [] h = refl
  rows-columns_of (n ∷ ns) (h, hs) =
      ap₂ (λ a b. a ∷ b) (row-first n ns h) (rows-shift (length ns) 0 n ns ∙ rows-columns_of ns hs)

  lengths_of :
      (ns : List NodeEntry)
      → (length (columns_of write parse ns).callsigns ≡ length ns)
        × (length (columns_of write parse ns).tgs ≡ length ns)
  unfolding columns_of
  lengths_of [] = (refl, refl)
  lengths_of (n ∷ ns) = let (a, b) = lengths_of ns in (omega arith, omega arith)

  half : (n : ℕ) → (if leb n n then n else n) ≡ n
  half n = ground arith

  -- The entries of a message that is made of some entries are these, where each status is null or is
  -- printed as a text of at most 65536 bytes that the parser reads as that status.
  pub nodes-columns_of :
      (ns : List NodeEntry)
      → All (λ n. (n.status ≡ null) ⊎ IsReadable n.status) ns
      → nodes write parse (columns_of write parse ns) ≡ ns
  unfolding nodes
  nodes-columns_of ns h =
      let (a, b) = lengths_of ns in rw (a, b, half (length ns)) (rows-columns_of ns h)

-- ===== src/Wire/Sequences.antt =====
-- AsyncMsg.h: `std::vector`, with a size of 16 bits.
use geu_reflector.Base.{
  ℕ, zero, suc, ◌+◌, ◌≡◌, refl, ◌∙◌, Bool, true, false, ◌&&◌, List, [], ◌∷◌, ◌++◌, some, Bytes,
  length, length-append, append_assoc, append-nil, ltb, if◌then◌else◌, Bool-cases, and_true, inl,
  inr, arith,
}
use geu_reflector.Wire.Codec.{
  Codec, Reader, Extends, and_then, and_then_ok, and_then_bytes, then_read, then_read-some,
  then_read-Extends, give, give-Extends, unpack-pack,
}
use geu_reflector.Wire.Numbers.{u16, u16_value, u16_packs}

-- The bytes of a part that cannot fail in front of another part.
abbrev pub after : Bytes × Bool → Bytes × Bool → Bytes × Bool
after x y = (x.0 ++ y.0, y.1)

module _ {A : Type 0} (item : Codec A) where
  unfoldable pub all_values : List A → Bool
  all_values [] = true
  all_values (a ∷ vs) = item.is_value a && all_values vs

  unfoldable pub pack_items : List A → Bytes × Bool
  pack_items [] = ([], true)
  pack_items (a ∷ vs) = and_then (item.pack a) (pack_items vs)

  unfoldable pub items_size : List A → ℕ
  items_size [] = 0
  items_size (a ∷ vs) = item.packed_size a + items_size vs

  unfoldable pub read_items : ℕ → Reader (List A)
  read_items zero = give []
  read_items (suc n) = then_read item.unpack (λ a. then_read (read_items n) (λ vs. give (a ∷ vs)))

  pub read_items-Extends : (n : ℕ) → Extends (read_items n)
  unfolding read_items
  read_items-Extends zero = give-Extends []
  read_items-Extends (suc n) =
      then_read-Extends item.unpack _ item.extend (λ a.
        then_read-Extends (read_items n) _ (read_items-Extends n) (λ vs. give-Extends (a ∷ vs)))

  pub read_items-pack_items :
      (vs : List A) (q : Bytes)
      → all_values vs ≡ true
      → (pack_items vs).1 ≡ true
      → read_items (length vs) ((pack_items vs).0 ++ q) ≡ some (vs, q)
  unfolding read_items pack_items all_values give
  read_items-pack_items [] q v ok = refl
  read_items-pack_items (a ∷ vs) q v ok =
      let ok_v = and_true (item.is_value a) (all_values vs) v in
      let oks = and_then_ok (item.pack a) (pack_items vs) ok in
      rw
        (
          and_then_bytes (item.pack a) (pack_items vs) oks.0,
          append_assoc (item.pack a).0 (pack_items vs).0 q,
        )
        (then_read-some item.unpack _ ((item.pack a).0 ++ ((pack_items vs).0 ++ q))
            ((pack_items vs).0 ++ q) a (unpack-pack item a ((pack_items vs).0 ++ q) ok_v.0 oks.0)
          ∙ then_read-some (read_items (length vs)) _ ((pack_items vs).0 ++ q) q vs
              (read_items-pack_items vs q ok_v.1 oks.1))

  pub length-pack_items :
      (vs : List A)
      → all_values vs ≡ true
      → (pack_items vs).1 ≡ true
      → length (pack_items vs).0 ≡ items_size vs
  unfolding pack_items items_size all_values
  length-pack_items [] v ok = refl
  length-pack_items (a ∷ vs) v ok =
      let ok_v = and_true (item.is_value a) (all_values vs) v in
      let oks = and_then_ok (item.pack a) (pack_items vs) ok in
      rw
        (
          and_then_bytes (item.pack a) (pack_items vs) oks.0,
          length-append (item.pack a).0 (pack_items vs).0,
          item.sized a ok_v.0 oks.0,
          length-pack_items vs ok_v.1 oks.1,
        )
        refl

  -- MsgPacker<std::vector<I>>
  unfoldable pub pack_vector : List A → Bytes × Bool
  pack_vector vs =
      if ltb 65535 (length vs) then ([], false) else after (u16.pack (length vs)) (pack_items vs)

  unfoldable pub vector_size : List A → ℕ
  vector_size vs = 2 + items_size vs

  unfoldable pub unpack_vector : Reader (List A)
  unpack_vector = then_read u16.unpack read_items

  pub unpack_vector-Extends : Extends unpack_vector
  unfolding unpack_vector
  unpack_vector-Extends = then_read-Extends u16.unpack read_items u16.extend read_items-Extends

  pub unpack_vector-pack_vector :
      (vs : List A)
      → all_values vs ≡ true
      → (pack_vector vs).1 ≡ true
      → unpack_vector (pack_vector vs).0 ≡ some (vs, [])
  unfolding unpack_vector pack_vector
  unpack_vector-pack_vector vs v ok = elim (Bool-cases (ltb 65535 (length vs))) [
    | inl long ↦ absurd (ground (arith, rw long at ok))
    | inr short ↦ rw short (
        then_read-some u16.unpack read_items ((u16.pack (length vs)).0 ++ (pack_items vs).0)
          (pack_items vs).0 (length vs)
          (unpack-pack u16 (length vs) (pack_items vs).0 (u16_value (length vs) (ground arith))
            (u16_packs (length vs)))
        ∙ (rw⁻¹ (append-nil (pack_items vs).0) (read_items-pack_items vs [] v (rw short at ok))))
  ]

  pub length-pack_vector :
      (vs : List A)
      → all_values vs ≡ true
      → (pack_vector vs).1 ≡ true
      → length (pack_vector vs).0 ≡ vector_size vs
  unfolding pack_vector vector_size
  length-pack_vector vs v ok = elim (Bool-cases (ltb 65535 (length vs))) [
    | inl long ↦ absurd (ground (arith, rw long at ok))
    | inr short ↦
        rw
          (
            short,
            length-append (u16.pack (length vs)).0 (pack_items vs).0,
            u16.sized (length vs) (u16_value (length vs) (ground arith)) (u16_packs (length vs)),
            length-pack_items vs v (rw short at ok),
          )
          refl
  ]

  abbrev pub vector : Codec (List A)
  vector = record {
    is_value = all_values;
    pack = pack_vector;
    packed_size = vector_size;
    unpack = unpack_vector;
    round = unpack_vector-pack_vector;
    extend = unpack_vector-Extends;
    sized = length-pack_vector;
  }

-- ===== src/Wire/Texts.antt =====
-- AsyncMsg.h: `std::string`, with a size of 16 bits.
use geu_reflector.Base.{
  ℕ, ◌+◌, ◌<◌, ◌≤◌, ◌≡◌, refl, sym, subst, ◌∙◌, Bool, true, false, [], ◌++◌, none, some, Bytes,
  length, length-append, take, drop, take-drop, length-take, take-append, drop-append, append_assoc,
  append-nil, ltb, if◌then◌else◌, Bool-cases, inl, inr, arith,
}
use geu_reflector.Wire.Codec.{
  Codec, Reader, Extends, and_then, and_then_bytes, then_read, then_read-some, then_read-Extends,
  unpack-pack,
}
use geu_reflector.Wire.Numbers.{u16, u16_value, u16_packs}

-- `is.read(&tmp[0], n)`
unfoldable pub read_text : ℕ → Reader Bytes
read_text n bs = if ltb (length bs) n then none else some (take n bs, drop n bs)

length-take_whole : (n : ℕ) (bs : Bytes) → n ≤ length bs → length (take n bs) ≡ n
length-take_whole n bs h = omega (arith, length-take n bs)

read_text-append : (s q : Bytes) → read_text (length s) (s ++ q) ≡ some (s, q)
unfolding read_text
read_text-append s q =
    let enough : ltb (length (s ++ q)) (length s) ≡ false = ground (arith, length-append s q) in
    rw (enough, take-append s q, drop-append s q) refl

read_text-parts :
    (n : ℕ) (bs rest s : Bytes)
    → read_text n bs ≡ some (s, rest)
    → (bs ≡ s ++ rest) × (n ≡ length s)
unfolding read_text
read_text-parts n bs rest s e = elim (Bool-cases (ltb (length bs) n)) [
  | inl short ↦ absurd (ground (arith, rw short at e))
  | inr enough ↦
      let parts : some (take n bs, drop n bs) ≡ some (s, rest) = rw enough at e in
      let one : take n bs ≡ s = cc in
      let two : drop n bs ≡ rest = cc in
      (
        rw⁻¹ (one, two) (sym (take-drop n bs)),
        rw⁻¹ one (sym (length-take_whole n bs (ground arith))),
      )
]

pub read_text-Extends : (n : ℕ) → Extends (read_text n)
read_text-Extends n bs rest q s e =
    let (whole, size) = read_text-parts n bs rest s e in
    rw (whole, size, append_assoc s rest q) (read_text-append s (rest ++ q))

unfoldable pub pack_text : Bytes → Bytes × Bool
pack_text s = if ltb 65535 (length s) then ([], false) else and_then (u16.pack (length s)) (s, true)

unfoldable pub text_size : Bytes → ℕ
text_size s = 2 + length s

unfoldable pub unpack_text : Reader Bytes
unpack_text = then_read u16.unpack read_text

pub unpack_text-Extends : Extends unpack_text
unfolding unpack_text
unpack_text-Extends = then_read-Extends u16.unpack read_text u16.extend read_text-Extends

pack_text-short :
    (s : Bytes) → ltb 65535 (length s) ≡ false → (pack_text s).0 ≡ (u16.pack (length s)).0 ++ s
unfolding pack_text
pack_text-short s h = rw h (and_then_bytes (u16.pack (length s)) (s, true) (u16_packs (length s)))

pack_text-limit : (s : Bytes) → (pack_text s).1 ≡ true → length s < 65536
unfolding pack_text
pack_text-limit s ok = elim (Bool-cases (ltb 65535 (length s))) [
  | inl long ↦ absurd (ground (arith, rw long at ok))
  | inr short ↦ ground arith
]

pub unpack_text-pack_text :
    (s : Bytes) → true ≡ true → (pack_text s).1 ≡ true → unpack_text (pack_text s).0 ≡ some (s, [])
unfolding unpack_text
unpack_text-pack_text s v ok =
    let limit = pack_text-limit s ok in
    rw (pack_text-short s (ground arith)) (
      then_read-some u16.unpack read_text ((u16.pack (length s)).0 ++ s) s (length s)
        (unpack-pack u16 (length s) s (u16_value (length s) limit) (u16_packs (length s)))
      ∙ subst (λ w. read_text (length s) w ≡ some (s, [])) (append-nil s) (read_text-append s []))

pub length-pack_text :
    (s : Bytes) → true ≡ true → (pack_text s).1 ≡ true → length (pack_text s).0 ≡ text_size s
unfolding text_size
length-pack_text s v ok =
    let limit = pack_text-limit s ok in
    rw
      (
        pack_text-short s (ground arith),
        length-append (u16.pack (length s)).0 s,
        u16.sized (length s) (u16_value (length s) limit) (u16_packs (length s)),
      )
      refl

abbrev pub text : Codec Bytes
text = record {
  is_value = λ s. true;
  pack = pack_text;
  packed_size = text_size;
  unpack = unpack_text;
  round = unpack_text-pack_text;
  extend = unpack_text-Extends;
  sized = length-pack_text;
}

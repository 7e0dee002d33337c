-- ===== src/Wire/Numbers.antt =====
-- AsyncMsg.h: numbers, the highest byte first. A signed number and a float is its bit pattern.
use geu_reflector.Base.{
  ℕ, ◌+◌, ◌*◌, ◌/◌, ◌%◌, ◌<◌, ◌≡◌, refl, Bool, true, [], ◌∷◌, none, some, Bytes, length, ltb, arith,
}
use geu_reflector.Wire.Codec.{Codec, Reader, Extends, two, pack_two, and_then, renamed}

-- `is.read` of one byte
unfoldable pub read_byte : Reader ℕ
read_byte [] = none
read_byte (x ∷ xs) = some (x, xs)

pub read_byte-Extends : Extends read_byte
unfolding read_byte
read_byte-Extends [] rest q a e = absurd (ground (arith, e))
read_byte-Extends (x ∷ xs) rest q a e = ground (arith, e)

unfoldable pub pack8 : ℕ → Bytes × Bool
pack8 n = (n ∷ [], true)

pub round8 : (n : ℕ) → ltb n 256 ≡ true → (pack8 n).1 ≡ true → read_byte (pack8 n).0 ≡ some (n, [])
unfolding pack8 read_byte
round8 n v ok = refl

pub sized8 : (n : ℕ) → ltb n 256 ≡ true → (pack8 n).1 ≡ true → length (pack8 n).0 ≡ 1
unfolding pack8
sized8 n v ok = omega arith

abbrev pub u8 : Codec ℕ
u8 = record {
  is_value = λ n. ltb n 256;
  pack = pack8;
  packed_size = λ n. 1;
  unpack = read_byte;
  round = round8;
  extend = read_byte-Extends;
  sized = sized8;
}

pub join16 : (n : ℕ) → n / 256 * 256 + n % 256 ≡ n
join16 n = omega arith

abbrev pub u16 : Codec ℕ
u16 = renamed (λ p. p.0 * 256 + p.1) (λ n. (n / 256, n % 256)) join16 (two u8 u8)

pub join32 : (n : ℕ) → n / 65536 * 65536 + n % 65536 ≡ n
join32 n = omega arith

abbrev pub u32 : Codec ℕ
u32 = renamed (λ p. p.0 * 65536 + p.1) (λ n. (n / 65536, n % 65536)) join32 (two u16 u16)

pub join64 : (n : ℕ) → n / 4294967296 * 4294967296 + n % 4294967296 ≡ n
join64 n = omega arith

abbrev pub u64 : Codec ℕ
u64 =
    renamed (λ p. p.0 * 4294967296 + p.1) (λ n. (n / 4294967296, n % 4294967296)) join64
      (two u32 u32)

-- What the types hold, and that packing a number does not fail.
pub u16_value : (n : ℕ) → n < 65536 → u16.is_value n ≡ true
u16_value n h = ground arith

pub u32_value : (n : ℕ) → n < 4294967296 → u32.is_value n ≡ true
u32_value n h = ground arith

pub u16_packs : (n : ℕ) → (u16.pack n).1 ≡ true
unfolding pack8 pack_two and_then
u16_packs n = refl

pub u32_packs : (n : ℕ) → (u32.pack n).1 ≡ true
unfolding pack8 pack_two and_then
u32_packs n = refl

four_bytes : u32.pack 16909060 ≡ (1 ∷ 2 ∷ 3 ∷ 4 ∷ [], true)
unfolding pack8 pack_two and_then
four_bytes = refl

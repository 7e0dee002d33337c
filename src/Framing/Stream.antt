-- ===== src/Framing/Stream.antt =====
-- Frames as bytes on a stream.
use geu_reflector.Base.{
  ℕ, ◌+◌, ◌*◌, ◌/◌, ◌%◌, ◌<◌, ◌≤◌, ◌≡◌, false, List, [], ◌∷◌, ◌++◌, Bytes, length, is_empty, arith,
}
use geu_reflector.Framing.Receive.{queue_item}

pub size_of_bytes :
    (n : ℕ)
    → n < 4294967296
    → ((n / 16777216) % 256) * 16777216
        + ((n / 65536) % 256) * 65536
        + ((n / 256) % 256) * 256
        + n % 256
      ≡ n
size_of_bytes n h = omega arith

-- A frame that a receiver takes: it is not empty, and the limit and its four bytes hold its size.
pub record Fits (limit : ℕ) (b : Bytes) : Type 0 where
  pub some_byte : is_empty b ≡ false
  pub limited : length b ≤ limit
  pub short : length b < 4294967296

-- The bytes of frames that are written one after the other.
unfoldable pub stream : List Bytes → Bytes
stream [] = []
stream (b ∷ bs) = queue_item b ++ stream bs

-- The frames in the order of their arrival, before those that came earlier.
unfoldable pub arrived : List Bytes → List Bytes → List Bytes
arrived [] before = before
arrived (b ∷ bs) before = arrived bs (b ∷ before)

unfoldable pub concat : List Bytes → Bytes
concat [] = []
concat (b ∷ bs) = b ++ concat bs

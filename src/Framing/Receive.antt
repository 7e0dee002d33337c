-- ===== src/Framing/Receive.antt =====
-- AsyncFramedTcpConnection.{h,cpp}: a connection's receiving side, and the bytes of a frame.
use Prim.Native.Nat.{min}
use geu_reflector.Base.{
  ℕ, zero, suc, ◌+◌, ◌-◌, ◌*◌, ◌/◌, ◌%◌, Bool, true, false, List, [], ◌∷◌, ◌++◌, Option, none, some,
  Bytes, ltb, ◌==◌, if◌then◌else◌, length, is_empty, take, drop, not, ◌⊎◌, inl, inr,
}

-- DEFAULT_MAX_FRAME_SIZE
abbrev pub default_max_frame_size : ℕ
default_max_frame_size = 1024 * 1024

-- `frames` are the frames that `frameReceived` gave out, the newest first. `closed` is set when the
-- connection was closed for a protocol error.
pub record Connection : Type 0 where
  pub max_rx_frame_size : ℕ
  pub size_received : Bool
  pub frame_size : ℕ
  pub frame : Bytes
  pub frames : List Bytes
  pub closed : Bool

-- The four bytes of a size, the highest first.
unfoldable pub size_bytes : ℕ → Bytes
size_bytes n = (n / 16777216) % 256 ∷ (n / 65536) % 256 ∷ (n / 256) % 256 ∷ n % 256 ∷ []

-- QueueItem(buf, count)
unfoldable pub queue_item : Bytes → Bytes
queue_item b = size_bytes (length b) ++ b

-- The four bytes of a size at the front of the buffer.
unfoldable pub read_size : Bytes → Option (ℕ × Bytes)
read_size [] = none
read_size (a ∷ []) = none
read_size (a ∷ b ∷ []) = none
read_size (a ∷ b ∷ c ∷ []) = none
read_size (a ∷ b ∷ c ∷ d ∷ rest) = some (a * 16777216 + b * 65536 + c * 256 + d, rest)

-- One round of the loop of `onDataReceived`: `inl` leaves the loop. A protocol error closes the
-- connection.
unfoldable pub step : Bytes → Connection → Connection ⊎ (Bytes × Connection)
step buf c =
    if is_empty buf
    then inl c
    else if not c.size_received
    then elim (read_size buf) [
      | none ↦ inl c
      | some (n, rest) ↦
          if ltb c.max_rx_frame_size n
          then inl (record c { frame_size = n; closed = true })
          else inr (rest, record c { frame_size = n; frame = []; size_received = true })
    ]
    else let copy_cnt = min (c.frame_size - length c.frame) (length buf) in
      let frame = c.frame ++ take copy_cnt buf in
      inr (
        drop copy_cnt buf,
        if length frame == c.frame_size
            then record c { frame = frame; size_received = false; frames = frame ∷ c.frames }
            else record c { frame = frame },
      )

unfoldable pub receive : ℕ → Bytes → Connection → Connection × Bytes
receive zero buf c = (c, buf)
receive (suc fuel) buf c = elim (step buf c) [
  | inl c' ↦ (c', buf)
  | inr (buf', c') ↦ receive fuel buf' c'
]

-- With the bytes that are left for the next call. A round takes bytes or ends a frame, so twice the
-- number of bytes is enough.
unfoldable pub on_data_received : Bytes → Connection → Connection × Bytes
on_data_received buf c = receive (2 * length buf + 2) buf c

-- TcpConnection: bytes that come are put behind those that are left, and what the call leaves is
-- kept. Nothing comes on a closed connection.
unfoldable pub receive_chunks : List Bytes → Bytes → Connection → Connection × Bytes
receive_chunks [] left c = (c, left)
receive_chunks (chunk ∷ chunks) left c =
    let (c', left') = on_data_received (left ++ chunk) c in
    let rest = receive_chunks chunks left' c' in if c'.closed then (c', left') else rest

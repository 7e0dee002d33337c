-- ===== src/Tests/Bytestream.antt =====
-- Two frames on a stream that comes in four chunks.
use geu_reflector.Base.{◌≡◌, refl, false, List, [], ◌∷◌, Bytes, All, codes, arith}
use geu_reflector.Framing.Receive.{
  Connection, default_max_frame_size, queue_item, size_bytes, receive_chunks,
}
use geu_reflector.Framing.Stream.{stream, arrived, Fits, concat}
use geu_reflector.Framing.Chunks.{receive_chunks-stream}

abbrev fresh : Connection
fresh = record {
  max_rx_frame_size = default_max_frame_size;
  size_received = false;
  frame_size = 0;
  frame = [];
  frames = [];
  closed = false;
}

abbrev two_frames : List Bytes
two_frames = codes "ab" ∷ codes "c" ∷ []

two_frames-Fits : All (Fits fresh.max_rx_frame_size) two_frames
two_frames-Fits = (
  record { some_byte = refl; limited = omega arith; short = omega arith },
  (record { some_byte = refl; limited = omega arith; short = omega arith }, tt),
)

-- The bytes of both, cut within a size and within a frame.
abbrev chunks : List Bytes
chunks = (0 ∷ 0 ∷ []) ∷ (0 ∷ 2 ∷ 97 ∷ []) ∷ (98 ∷ 0 ∷ 0 ∷ 0 ∷ []) ∷ (1 ∷ 99 ∷ []) ∷ []

chunks-stream : concat chunks ≡ stream two_frames
unfolding concat stream queue_item size_bytes
chunks-stream = refl

receive_chunks-stream_example :
    ((receive_chunks chunks [] fresh).0.frames ≡ arrived two_frames [])
    × ((receive_chunks chunks [] fresh).0.size_received ≡ false)
    × ((receive_chunks chunks [] fresh).1 ≡ [])
    × ((receive_chunks chunks [] fresh).0.closed ≡ false)
receive_chunks-stream_example =
    receive_chunks-stream two_frames chunks fresh refl refl two_frames-Fits chunks-stream

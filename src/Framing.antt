-- ===== src/Framing.antt =====
-- async/core/AsyncFramedTcpConnection.{h,cpp}: frames on a stream of bytes.
-- Stream: frames as bytes. Rounds: a round of the loop. Chunks: what comes out of a stream however it
-- is cut.
pub mod Receive
pub mod Stream
pub mod Rounds
pub mod Chunks

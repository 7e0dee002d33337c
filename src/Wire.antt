-- ===== src/Wire.antt =====
-- async/core/AsyncMsg.h and svxlink/reflector/ReflectorMsg.h: messages as bytes.
-- Codec: what packing a type promises, and its members one after the other; Numbers, Texts and
-- Sequences: the types of members; Peers: the messages; Frames: a frame's bytes as a message.
pub mod Codec
pub mod Numbers
pub mod Sequences
pub mod Texts
pub mod Peers
pub mod Frames
pub mod Links

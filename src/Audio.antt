-- ===== src/Audio.antt =====
-- svxlink/reflector/Reflector.cpp and ReflectorClient.{h,cpp}: the audio of local clients.
-- Filters: which clients a datagram goes to; Sequence: the order of a client's datagrams;
-- Broadcast: the audio and its end, from a client to the others; Earliest, Replay, Turns, Delivery
-- and Heard: what is proved; Selection: the talk group that a client selects.
pub mod Filters
pub mod Earliest
pub mod Sequence
pub mod Replay
pub mod Broadcast
pub mod Turns
pub mod Delivery
pub mod Heard
pub mod Selection

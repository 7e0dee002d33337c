-- ===== src/Twin.antt =====
-- svxlink/reflector/TwinLink.{h,cpp} and the twin server of Reflector.cpp: the link of a reflector to
-- its twin, which has the same prefix.
-- State: the link and what it writes. Connect: the beginning and the end of connections, and the
-- heartbeat. Frames: the messages of the twin. Server: connections that wait for their hello.
pub mod State
pub mod Connect
pub mod Frames
pub mod Server
pub mod Strangers
pub mod Handshake
pub mod Silence
pub mod Attribution

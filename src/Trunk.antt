-- ===== src/Trunk.antt =====
-- svxlink/reflector/TrunkLink.{h,cpp}: a link to a peer reflector.
-- Prefixes: the talk groups that a link carries; Ident: what is kept of a peer's texts;
-- State: the link and what it reads; Send: its messages; Connect: its connections;
-- Local: the reports of local talkers; Relay: what goes on to other links; Peer: the handlers of the peer's messages;
-- Interest: the advertised talk groups; Heartbeat: the tick of a second;
-- Frames: the dispatch of a frame.
pub mod Prefixes
pub mod Routing
pub mod Ident
pub mod State
pub mod Send
pub mod Connect
pub mod Local
pub mod Relay
pub mod Peer
pub mod Interest
pub mod Heartbeat
pub mod Frames
pub mod Arbitration
pub mod Sanitized
pub mod Outgoing
pub mod Expiry
pub mod Hangup
pub mod Guarded
pub mod Claims
pub mod Silence
pub mod Ownership

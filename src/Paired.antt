-- ===== src/Paired.antt =====
-- svxlink/reflector/TrunkLink.{h,cpp}: a link to a peer with several hosts (PAIRED).
-- State: the connections to and from the hosts, and sending; Connect: connections that come up and
-- go down; Frames: the dispatch of a frame; Heartbeat: the tick of a second; Local: the reports of
-- local talkers; Cyclic, Failover, Lost, Fallback and Timeout: the proofs.
pub mod State
pub mod Connect
pub mod Frames
pub mod Heartbeat
pub mod Local
pub mod Cyclic
pub mod Failover
pub mod Lost
pub mod Fallback
pub mod Timeout

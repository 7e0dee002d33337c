-- ===== src/TgHandler.antt =====
-- svxlink/reflector/TGHandler.{h,cpp}: talk groups, their clients and their talker.
-- State: the data and the permissions; Talkers: the talker of a talk group and its timers;
-- Members: switching and leaving; TrunkTalkers: the talkers that trunk peers report; the others: what
-- is proved, Placement and Refinement against the function from clients to talk groups.
pub mod State
pub mod Talkers
pub mod Members
pub mod TrunkTalkers
pub mod Consistent
pub mod Retains
pub mod Timers
pub mod Loop
pub mod Leave
pub mod Placement
pub mod Refinement
pub mod Peers

-- ===== src/Server.antt =====
-- Reflector.cpp: the server that other reflectors connect to, up to the hand-over of a connection
-- to its link. State has its tables, Prefixes the comparison of prefix lists, Pending the
-- handlers, Limits, Admission and Handshake what is proved.
pub mod State
pub mod Prefixes
pub mod Sorting
pub mod Pending
pub mod Limits
pub mod Admission
pub mod Handshake
pub mod Greeting

-- ===== src/Nodes.antt =====
-- The lists of clients that reflectors tell each other (MsgPeerNodeList), and their JSON.
pub mod Json
pub mod Clean
pub mod Entry
pub mod Columns
pub mod Trunk
pub mod Permitted

-- ===== src/Tests.antt =====
-- The theorems at concrete states.
mod Handler
mod Filter
mod Link
mod Server
mod Paired
mod Audio
mod Login
mod Nodes
mod Satellite
mod Twin
mod Child
mod Fanout
mod Version
mod Bytestream

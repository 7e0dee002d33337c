-- ===== src/Satellite.antt =====
-- svxlink/reflector/SatelliteLink.{h,cpp} and SatelliteClient.{h,cpp}: satellites, which have one
-- reflector as their parent, from both sides.
-- State: the parent and its links. Events: talkers. Frames: the frames of a satellite. Life: the
-- heartbeat, the beginning and the end of its connection. Client: the satellite's own side.
pub mod State
pub mod Events
pub mod Frames
pub mod Life
pub mod Tables
pub mod Unauthenticated
pub mod Talkers
pub mod Quiet
pub mod Echo
pub mod Client
pub mod Stopped
pub mod Joining
pub mod Agreement

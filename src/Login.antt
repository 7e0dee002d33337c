-- ===== src/Login.antt =====
-- svxlink/reflector/ReflectorClient.{h,cpp}: the login of a client, from its protocol version to
-- where it is connected.
-- State: the state of a connection, what it sends and how it ends. Handlers: the messages of the
-- login, timers and SSL. Events: what happens to a connection, in order. Unconnected: handlers that
-- connect nobody. Proof: who gets to be connected.
pub mod State
pub mod Handlers
pub mod Events
pub mod Unconnected
pub mod Proof

-- ===== src/Fanout.antt =====
-- svxlink/reflector/Reflector.cpp: what the reflector tells satellites, parent and twin of its
-- clients.
-- Clients: the events of a client. Debounce: how often the levels of receivers are told, and Rate
-- what is proved of it. Rosters: the lists of clients, and Foreign and Chosen
-- what is proved of them.
pub mod Clients
pub mod Debounce
pub mod Rate
pub mod Rosters
pub mod Foreign
pub mod Chosen

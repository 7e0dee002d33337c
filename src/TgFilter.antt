-- ===== src/TgFilter.antt =====
-- svxlink/reflector/TgFilter.h: filters on talk groups, their text and their meaning.
pub mod Entry
pub mod Tokens
pub mod RoundTrip
pub mod Matches

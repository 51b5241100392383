-- ===== src/Gnss.antt =====
-- crates/gnss: what the client makes of the corrections, and civil time.
pub mod Crc24q
pub mod Frame
pub mod Names
pub mod Decode
pub mod Messages
pub mod Clock

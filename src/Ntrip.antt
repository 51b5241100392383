-- ===== src/Ntrip.antt =====
-- crates/ntrip-core: the NTRIP client protocol engine.
pub mod Chunked
pub mod Base64
pub mod Config
pub mod Request
pub mod Session
pub mod Sourcetable

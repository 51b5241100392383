-- ===== src/Tests.antt =====
-- Runs of the definitions, and the theorems applied to concrete inputs.
mod Chunked
mod Gnss
mod Request
mod Session
mod Queue
mod Sourcetable
mod Worker
mod Profiles

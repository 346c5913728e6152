-- ===== src/Retrieval.antt =====
-- The parts of app/retrieval that compare fingerprints and check hits.
pub mod Simhash
pub mod Guard
pub mod Core
pub mod Anchor

-- ===== src/Ingest.antt =====
-- The parts of app/ingest: what a new version consists of, and how it is published.
pub mod Diff
pub mod Sources
pub mod Build
pub mod Stage
pub mod Publish
pub mod Chunker

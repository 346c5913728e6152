-- ===== src/Tests.antt =====
-- The theorems at concrete inputs.
pub mod Outbox
pub mod Access
pub mod Documents
pub mod Log
pub mod Purge
pub mod Files
pub mod Client
pub mod Hits
pub mod Ingestion
pub mod Chunks
pub mod Repairs
pub mod Models
pub mod Searches

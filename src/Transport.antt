-- ===== src/Transport.antt =====
-- crates/updater/src/transport: one resumable transfer into a cache entry.
pub mod Digest
pub mod Meta
pub mod Http
pub mod Download
pub mod Reading
pub mod Session
pub mod Splice
pub mod Polled
pub mod Unanswered
mod Examples

-- ===== src/Audit.antt =====
-- internal/audit: the hash-chained audit log.
pub mod Entry
pub mod Sink
pub mod Chain
pub mod Sessions
pub mod Torn
pub mod Tamper
pub mod Commit

-- ===== src/Analyzer.antt =====
-- internal/analyzer: the service that reads the stored events and looks for anomalies.
pub mod Cursor
pub mod Reader
pub mod Service
pub mod Config
pub mod Command
pub mod Settled
pub mod Refined
pub mod Failed
pub mod Resumed

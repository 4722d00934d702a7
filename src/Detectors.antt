-- ===== src/Detectors.antt =====
-- internal/analyzer/detectors: the detectors of behavioural anomalies, and what they report.
pub mod Finding
pub mod Loop
pub mod ToolMisuse
pub mod Drift

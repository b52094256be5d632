-- ===== src/Findings.antt =====
-- Findings: their lifecycle, their rows, and the operations on them.
pub mod Lifecycle
pub mod Model
pub mod Storage
pub mod Observe
pub mod Attributed
pub mod History
pub mod System
pub mod Query

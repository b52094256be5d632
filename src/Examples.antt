-- ===== src/Examples.antt =====
-- Concrete inputs, and the theorems at them.
mod Queue
mod Worker
mod Findings
mod Limits
mod Reading
mod Rq
mod Query
mod Discovery
mod Domains
mod Access
mod Visibility
mod Scans

-- ===== src/Jobs.antt =====
-- The durable scan queue: failure policy, storage of tasks and schedules, workers, recovery.
pub mod Policy
pub mod Model
pub mod Storage
pub mod Cadence
pub mod Enqueue
pub mod Worker
pub mod Recovery
pub mod Cancel
pub mod Rq
pub mod Status
pub mod Invariant

-- ===== src/Jobs.antt =====
-- satsa/mlops/jobs.py: the queue of background jobs.
pub mod Tables
pub mod Queue
pub mod Requests
pub mod Steps
pub mod Invariant
pub mod Leases
pub mod Fencing
pub mod Progress
pub mod Worker
pub mod Released
pub mod Tests

-- ===== src/EraseJob.antt =====
-- backend/job_management.py: a job that erases a drive, from its start to its end, as `run_erase_job`
-- puts its stages together. Each stage is a function on a `Run`; the answers of the station are the
-- fields of a `Station`.
pub mod State
pub mod Loops
pub mod Cancelling
pub mod Stages
pub mod Finish
pub mod Rules
pub mod Waiting
pub mod Settled
pub mod Blocked
pub mod Kept
pub mod Spawns
pub mod Request
pub mod Samples

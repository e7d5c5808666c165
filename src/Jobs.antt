-- ===== src/Jobs.antt =====
-- sniff4hound/jobs.py: the background job queue, as the sections of code that its threads run under
-- a lock, in any order.
pub mod Core
pub mod Callers
pub mod Run
pub mod Modify
pub mod Pool
pub mod Changes
pub mod Outcomes
pub mod Rows
pub mod Race
mod Examples

-- ===== src/Queue.antt =====
-- lib/queue: the file of a record, and the queue that stands on such files.
pub mod Record
pub mod Entries
pub mod Core
pub mod Recovery
pub mod Bounds
pub mod Names
pub mod Storage
pub mod Frame
pub mod Steps
pub mod Refinement
pub mod Acceptance
pub mod Runs
pub mod Restart
pub mod Durable
pub mod Readers
pub mod Finish
pub mod Startup
pub mod Recall
pub mod Untouched
pub mod Reopened

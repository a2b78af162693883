-- ===== src/Worker.antt =====
-- lib/backend/backend_worker.hpp and backend_worker.cpp: the task that uploads the queue and sends the
-- heartbeats.
pub mod Types
pub mod Status
pub mod Request
pub mod Upload
pub mod Capture
pub mod Beat
pub mod Round
pub mod Isolation
pub mod Backoff
pub mod Actions
pub mod Retention

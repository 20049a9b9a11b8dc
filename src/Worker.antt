-- ===== src/Worker.antt =====
-- internal/worker: the handlers of the worker service, and what they share.
pub mod Classify
pub mod Prepare
pub mod Modes
pub mod Scanner
pub mod Scans
pub mod Analysis
pub mod Server
pub mod Jobs
pub mod Vulndb
pub mod Enqueue

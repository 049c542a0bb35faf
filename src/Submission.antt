-- ===== src/Submission.antt =====
-- services/submission-api/main.go: the job queue in the table benchmark_jobs, and its workers.
pub mod Jobs
pub mod Handlers
pub mod Metrics
pub mod Worker
pub mod Pool
pub mod Service

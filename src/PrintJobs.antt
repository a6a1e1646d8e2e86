-- ===== src/PrintJobs.antt =====
-- The print queue of app/workers/print_jobs.py and app/workers/__init__.py.
pub mod Gateway
pub mod Execute
pub mod Recover
pub mod Enqueue

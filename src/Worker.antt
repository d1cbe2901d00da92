-- ===== src/Worker.antt =====
-- The worker of app/worker.py as a whole: the life of a job, the scheduler and the maintenance.
pub mod Lifecycle
pub mod Scheduler
pub mod Maintenance
pub mod Work
pub mod Machine

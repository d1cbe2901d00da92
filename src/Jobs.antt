-- ===== src/Jobs.antt =====
-- The jobs of app/worker.py and app/main.py: the queue, the lifecycle of a job, its progress.
pub mod Queue

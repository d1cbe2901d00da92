-- ===== src/Refresh.antt =====
-- The refresh and health jobs of app/services.py and app/worker.py.
pub mod Token
pub mod Results
pub mod Batches

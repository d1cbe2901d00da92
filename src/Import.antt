-- ===== src/Import.antt =====
-- The import of account files: the reader, the upsert and the batches of app/worker.py.
pub mod Reader
pub mod Rows
pub mod Batch
pub mod Upload

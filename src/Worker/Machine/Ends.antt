-- ===== src/Worker/Machine/Ends.antt =====
-- What no event of app/worker.py and app/main.py undoes: the end of a job, and a request to cancel a
-- job that no worker holds.
pub mod Rows
pub mod Turns
pub mod Runs

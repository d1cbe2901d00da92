-- ===== src/Auth.antt =====
-- app/auth.py: the login throttle and the sessions.
pub mod Keys
pub mod Attempts
pub mod Session

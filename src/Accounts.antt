-- ===== src/Accounts.antt =====
-- The accounts of app/services.py and app/models.py.
pub mod Parse

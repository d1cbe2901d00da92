-- ===== src/Api.antt =====
-- Routes of app/main.py that read or write the tables.
pub mod Listing
pub mod Orders
pub mod Policy
pub mod Login
pub mod Names
pub mod Pages
pub mod Writes
pub mod Defaults
pub mod Logout

-- ===== src/Tests.antt =====
-- Runs of the model on small inputs, and the theorems of the other modules at them.
mod Samples
mod Throttle
mod Secrets
mod Lines
mod Imports
mod Refreshes
mod Queues
mod Requests
mod Routes
mod Upkeep
mod Uploads
mod Settings
mod Logins
mod Migrations
mod Machines
mod Ends
mod Messages
mod Keys
mod Views
mod Writes

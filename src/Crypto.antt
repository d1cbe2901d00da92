-- ===== src/Crypto.antt =====
-- app/crypto.py: normalised and masked addresses, cipher contexts and the field vault.
pub mod Email
pub mod Context
pub mod Vault

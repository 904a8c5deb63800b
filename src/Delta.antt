-- ===== src/Delta.antt =====
-- Account deltas: objects/src/accounts/delta.
pub mod Fungible
pub mod NonFungible
pub mod Storage
pub mod Vault
pub mod Account
pub mod Tracker

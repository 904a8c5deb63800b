-- ===== src/Accounts.antt =====
-- Accounts: objects/src/accounts.
pub mod Kinds
pub mod Id
pub mod Storage
pub mod Code
pub mod Component
pub mod Seed
pub mod Builder
pub mod Account
pub mod Details

-- ===== src/Tests.antt =====
-- Concrete inputs, and the theorems at them.
pub mod Values
pub mod Instances
mod Vaults
mod Deltas
mod Accounts
mod Assets
mod Notes
mod Transactions
mod Hosts
mod Kernel
mod Blocks
mod Builders
mod Merges

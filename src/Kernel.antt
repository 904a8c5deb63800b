-- ===== src/Kernel.antt =====
-- What the host shares with the transaction kernel: miden-lib/src/transaction.
pub mod Events
pub mod Errors
pub mod Memory

-- ===== src/Transactions.antt =====
-- Transactions: objects/src/transaction.
pub mod InputNotes
pub mod OutputNotes
pub mod Inputs
pub mod Proven

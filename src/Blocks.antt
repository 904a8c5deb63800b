-- ===== src/Blocks.antt =====
-- Blocks: objects/src/block and the chain of their headers, objects/src/transaction/chain_mmr.rs.
pub mod Header
pub mod Chain
pub mod NoteTree
pub mod Block

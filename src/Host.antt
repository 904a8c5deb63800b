-- ===== src/Host.antt =====
-- The transaction host: miden-tx/src/host.
pub mod Progress
pub mod Process
pub mod NoteBuilder
pub mod Procedures
pub mod State
pub mod AccountHandlers
pub mod NoteHandlers
pub mod Signatures
pub mod Events

-- ===== src/Notes.antt =====
-- Notes: objects/src/notes.
pub mod Kinds
pub mod Tag
pub mod Hint
pub mod Metadata
pub mod Assets
pub mod Inputs
pub mod Note

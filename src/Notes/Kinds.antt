-- ===== src/Notes/Kinds.antt =====
-- `NoteType` and `NoteExecutionMode`: objects/src/notes/note_type.rs and note_tag.rs.
use miden_base.Base.{ℕ, Bool, true, false, ◌==◌}

pub data NoteType : Type 0 where
  private encrypted public : NoteType

-- `note_type as u8`
abbrev pub note_type_code : NoteType → ℕ
note_type_code private = 2
note_type_code encrypted = 3
note_type_code public = 1

abbrev pub note_type_eq : NoteType → NoteType → Bool
note_type_eq a b = note_type_code a == note_type_code b

pub data NoteExecutionMode : Type 0 where
  network local : NoteExecutionMode

abbrev pub mode_eq : NoteExecutionMode → NoteExecutionMode → Bool
mode_eq network network = true
mode_eq local local = true
mode_eq _ _ = false

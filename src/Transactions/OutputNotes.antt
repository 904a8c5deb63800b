-- ===== src/Transactions/OutputNotes.antt =====
-- `OutputNote` and `OutputNotes`: objects/src/transaction/outputs.rs.
pub mod Laws
use miden_base.Base.{
  ℕ, Bool, Option, none, some, List, [], ◌∷◌, ◌++◌, ltb, if◌then◌else◌, Result, ok, err, fail_if,
  length,
}
use miden_base.Base.Words.{Felt, Field, Digest, empty_word, word_elements}
use miden_base.Base.Hashing.{Hasher}
use miden_base.Base.Unique.{first_repeat}
use miden_base.Errors.{TransactionOutputError, too_many_output_notes, duplicate_output_note}
use miden_base.Notes.Assets.{NoteAssets}
use miden_base.Notes.Metadata.{NoteMetadata, to_word}
use miden_base.Notes.Note.{
  NoteId, Note, PartialNote, NoteHeader, is_private, partial_id, partial_header, compute_note_hash,
}

pub data OutputNote : Type 0 where
  full : Note → OutputNote
  partial : PartialNote → OutputNote
  header : NoteHeader → OutputNote

unfoldable pub assets : OutputNote → Option NoteAssets
assets (full note) = some note.details.assets
assets (partial note) = some note.assets
assets (header _) = none

unfoldable pub recipient_digest : OutputNote → Option Digest
recipient_digest (full note) = some note.details.recipient.digest
recipient_digest (partial note) = some note.recipient_digest
recipient_digest (header _) = none

unfoldable pub metadata : OutputNote → NoteMetadata
metadata (full note) = note.header.note_metadata
metadata (partial note) = note.metadata
metadata (header note) = note.note_metadata

pub record OutputNotes : Type 0 where
  pub notes : List OutputNote
  pub commitment : Digest

abbrev pub max_output_notes_per_tx : ℕ
max_output_notes_per_tx = 1024

module _ ⦃H : Hasher⦄ where
  unfoldable pub id : OutputNote → NoteId
  unfolding partial_id
  id (full note) = note.header.note_id
  id (partial note) = partial_id note
  id (header note) = note.note_id

  -- Private notes in full and partial notes become headers.
  unfoldable pub shrink : OutputNote → OutputNote
  unfolding partial_header
  shrink (full note) =
      if is_private note.header.note_metadata then header note.header else full note
  shrink (partial note) = header (partial_header note)
  shrink (header note) = header note

  -- `From<&OutputNote> for NoteHeader`
  unfoldable pub to_header : OutputNote → NoteHeader
  unfolding partial_header
  to_header (full note) = note.header
  to_header (partial note) = partial_header note
  to_header (header note) = note

  module _ ⦃F : Field⦄ where
    unfoldable pub hash : OutputNote → Digest
    unfolding id metadata compute_note_hash
    hash self = compute_note_hash (id self) (metadata self)

    unfoldable pub output_elements : List OutputNote → List Felt
    unfolding id metadata
    output_elements [] = []
    output_elements (note ∷ notes) =
        word_elements (id note)
        ++ (word_elements (to_word (metadata note)) ++ output_elements notes)

    unfoldable pub build_output_notes_commitment : List OutputNote → Digest
    unfolding output_elements
    build_output_notes_commitment [] = empty_word
    build_output_notes_commitment (note ∷ notes) = H.hash_elements (output_elements (note ∷ notes))

    -- What is left of `OutputNotes::new` after the loop.
    abbrev pub finish : Option NoteId → List OutputNote → Result TransactionOutputError OutputNotes
    unfolding build_output_notes_commitment
    finish (some repeated) notes = err (duplicate_output_note repeated)
    finish none notes =
        ok (record { notes = notes; commitment = build_output_notes_commitment notes })

    -- `OutputNotes::new`
    unfoldable pub new : List OutputNote → Result TransactionOutputError OutputNotes
    unfolding finish first_repeat
    new notes =
        fail_if (ltb max_output_notes_per_tx (length notes)) (too_many_output_notes (length notes))
          (finish (first_repeat id [] notes) notes)

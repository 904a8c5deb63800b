-- ===== src/Notes/Note.antt =====
-- `Note` and its parts: objects/src/notes/mod.rs, recipient.rs, details.rs, header.rs, partial.rs,
-- note_id.rs, nullifier.rs and location.rs. A script stands by its hash.
use miden_base.Base.{ℕ, Bool, List, ◌++◌, ltb, Result, ok, fail_if}
use miden_base.Base.Words.{Felt, Field, Word, Digest, empty_word, word_elements}
use miden_base.Base.Hashing.{Hasher}
use miden_base.Errors.{NoteError, invalid_location_index}
use miden_base.Notes.Kinds.{private, note_type_eq}
use miden_base.Notes.Assets.{NoteAssets}
use miden_base.Notes.Inputs.{NoteInputs}
use miden_base.Notes.Metadata.{NoteMetadata, to_word}

abbrev pub NoteId : Type 0
NoteId = Digest

abbrev pub Nullifier : Type 0
Nullifier = Digest

pub record NoteRecipient : Type 0 where
  pub serial_num : Word
  pub script : Digest
  pub inputs : NoteInputs
  pub digest : Digest

-- `NoteRecipient::to_elements`
unfoldable pub to_elements : NoteRecipient → List Felt
to_elements self =
    word_elements self.inputs.hash ++ (word_elements self.script ++ word_elements self.serial_num)

pub record NoteDetails : Type 0 where
  pub assets : NoteAssets
  pub recipient : NoteRecipient

pub record NoteHeader : Type 0 where
  pub note_id : NoteId
  pub note_metadata : NoteMetadata

pub record Note : Type 0 where
  pub header : NoteHeader
  pub details : NoteDetails
  pub nullifier : Nullifier

pub record PartialNote : Type 0 where
  pub metadata : NoteMetadata
  pub recipient_digest : Digest
  pub assets : NoteAssets

-- `NoteMetadata::is_private`
abbrev pub is_private : NoteMetadata → Bool
is_private metadata = note_type_eq metadata.note_type private

module _ ⦃H : Hasher⦄ where
  unfoldable pub compute_recipient_digest : Word → Digest → NoteInputs → Digest
  compute_recipient_digest serial_num script inputs =
      H.merge (H.merge (H.merge serial_num empty_word) script) inputs.hash

  -- `NoteRecipient::new`
  unfoldable pub recipient_new : Word → Digest → NoteInputs → NoteRecipient
  unfolding compute_recipient_digest
  recipient_new serial_num script inputs = record {
    serial_num = serial_num;
    script = script;
    inputs = inputs;
    digest = compute_recipient_digest serial_num script inputs;
  }

  -- `NoteId::new`
  unfoldable pub note_id_new : Digest → Digest → NoteId
  note_id_new recipient asset_commitment = H.merge recipient asset_commitment

  -- `Nullifier::new`
  unfoldable pub nullifier_new : Digest → Digest → Digest → Word → Nullifier
  nullifier_new script_hash inputs_hash asset_hash serial_num = H.hash_elements (
      word_elements serial_num
      ++ (word_elements script_hash ++ (word_elements inputs_hash ++ word_elements asset_hash)))

  -- `NoteDetails::id` and `NoteDetails::nullifier`
  unfoldable pub details_id : NoteDetails → NoteId
  unfolding note_id_new
  details_id self = note_id_new self.recipient.digest self.assets.hash

  unfoldable pub details_nullifier : NoteDetails → Nullifier
  unfolding nullifier_new
  details_nullifier self =
      nullifier_new self.recipient.script self.recipient.inputs.hash self.assets.hash
        self.recipient.serial_num

  -- `Note::new`
  unfoldable pub note_new : NoteAssets → NoteMetadata → NoteRecipient → Note
  unfolding details_id details_nullifier
  note_new assets metadata recipient =
      let details : NoteDetails = record { assets = assets; recipient = recipient } in
      record {
        header = record { note_id = details_id details; note_metadata = metadata };
        details = details;
        nullifier = details_nullifier details;
      }

  -- `PartialNote::id`
  unfoldable pub partial_id : PartialNote → NoteId
  unfolding note_id_new
  partial_id self = note_id_new self.recipient_digest self.assets.hash

  -- `From<&PartialNote> for NoteHeader`
  unfoldable pub partial_header : PartialNote → NoteHeader
  unfolding partial_id
  partial_header note = record { note_id = partial_id note; note_metadata = note.metadata }

  unfoldable pub compute_note_hash : ⦃F : Field⦄ → NoteId → NoteMetadata → Digest
  compute_note_hash id metadata = H.merge id (to_word metadata)

  -- `NoteHeader::hash`, which `Note::hash` calls.
  unfoldable pub header_hash : ⦃F : Field⦄ → NoteHeader → Digest
  unfolding compute_note_hash
  header_hash self = compute_note_hash self.note_id self.note_metadata

-- `From<&NoteHeader> for [Felt; 8]`
unfoldable pub header_elements : ⦃F : Field⦄ → NoteHeader → List Felt
header_elements note_header =
    word_elements note_header.note_id ++ word_elements (to_word note_header.note_metadata)

-- `From<&Note> for PartialNote`
unfoldable pub note_to_partial : Note → PartialNote
note_to_partial note = record {
  metadata = note.header.note_metadata;
  recipient_digest = note.details.recipient.digest;
  assets = note.details.assets;
}

pub record NoteLocation : Type 0 where
  pub block_num : ℕ
  pub node_index_in_block : ℕ

-- A Merkle path belongs to the crate `miden-crypto`.
pub record NoteInclusionProof (MerklePath : Type 0) : Type 0 where
  pub location : NoteLocation
  pub note_path : MerklePath

-- `MAX_BATCHES_PER_BLOCK * MAX_OUTPUT_NOTES_PER_BATCH - 1`
abbrev pub highest_index : ℕ
highest_index = 65535

-- `NoteInclusionProof::new`
unfoldable pub inclusion_proof_new :
    {MerklePath : Type 0} → ℕ → ℕ → MerklePath → Result NoteError (NoteInclusionProof MerklePath)
inclusion_proof_new block_num node_index_in_block note_path =
    fail_if (ltb highest_index node_index_in_block) (invalid_location_index node_index_in_block) (
      ok (record {
        location = record { block_num = block_num; node_index_in_block = node_index_in_block };
        note_path = note_path;
      }))

-- ===== src/Host/NoteBuilder.antt =====
-- `OutputNoteBuilder`: miden-tx/src/host/note_builder.rs. The decoding of a script, which the
-- assembler's crates do, is a parameter that gives the hash of the script.
use miden_base.Base.{
  Option, none, some, List, [], ◌∷◌, not, ltb, if◌then◌else◌, Result, ok, err, fail_if, ok_or,
  map_err, Method, ◌>>=◌, length, take,
}
use miden_base.Base.Words.{Felt, Word, Digest, empty_word, word_eq}
use miden_base.Base.Hashing.{Hasher}
use miden_base.Base.Words.{Field}
use miden_base.Kernel.Errors.{
  TransactionKernelError, failed_to_add_asset_to_note, invalid_note_inputs, malformed_note_inputs,
  malformed_note_metadata, malformed_note_script, malformed_recipient_data, missing_note_details,
  missing_note_inputs, too_few_elements_for_note_inputs,
}
use miden_base.Errors.{NoteError}
use miden_base.Assets.Data.{Asset}
use miden_base.Notes.Assets as Assets
use miden_base.Notes.Inputs as Inputs
use miden_base.Notes.Metadata as Metadata
use miden_base.Notes.Note.{NoteRecipient, is_private, recipient_new, note_new}
use miden_base.Transactions.OutputNotes.{OutputNote, full, partial}
use miden_base.Host.Process.{ProcessState, AdviceProvider}

pub record OutputNoteBuilder : Type 0 where
  pub metadata : Metadata.NoteMetadata
  pub assets : Assets.NoteAssets
  pub recipient_digest : Digest
  pub recipient : Option NoteRecipient

-- The hash of the inputs, that of the script and the serial number, in twelve elements.
unfoldable pub recipient_words : List Felt → Option (Word × Word × Word)
recipient_words (a0 ∷ a1 ∷ a2 ∷ a3 ∷ b0 ∷ b1 ∷ b2 ∷ b3 ∷ c0 ∷ c1 ∷ c2 ∷ c3 ∷ []) = some (
  record { e0 = a0; e1 = a1; e2 = a2; e3 = a3 },
  record { e0 = b0; e1 = b1; e2 = b2; e3 = b3 },
  record { e0 = c0; e1 = c1; e2 = c2; e3 = c3 },
)
recipient_words _ = none

abbrev or_empty : Option (List Felt) → List Felt
or_empty none = []
or_empty (some values) = values

-- The metadata word and the digest of the recipient on the stack.
abbrev pub metadata_word : ProcessState → Word
metadata_word process = record {
  e0 = process.get_stack_item 3;
  e1 = process.get_stack_item 2;
  e2 = process.get_stack_item 1;
  e3 = process.get_stack_item 0;
}

abbrev pub recipient_word : ProcessState → Digest
recipient_word process = record {
  e0 = process.get_stack_item 8;
  e1 = process.get_stack_item 7;
  e2 = process.get_stack_item 6;
  e3 = process.get_stack_item 5;
}

module _ ⦃H : Hasher⦄ where
  -- The inputs of the note: the number of them comes first, and what follows them is padding.
  unfoldable pub read_inputs : Option (List Felt) → Result TransactionKernelError Inputs.NoteInputs
  unfolding Inputs.new Inputs.pad_and_build
  read_inputs none = ok (Inputs.pad_and_build H.hash_elements [])
  read_inputs (some []) = err missing_note_inputs
  read_inputs (some (num_inputs ∷ inputs)) =
      fail_if (ltb (length inputs) num_inputs) too_few_elements_for_note_inputs
        (map_err malformed_note_inputs (Inputs.new H.hash_elements (take num_inputs inputs)))

  module _ {A : Type 0} ⦃P : AdviceProvider A⦄ (read_script : List Felt → Option Digest) where
    unfoldable pub read_recipient :
        A → List Felt → Word × Word × Word → Result TransactionKernelError NoteRecipient
    unfolding read_inputs recipient_new
    read_recipient adv_provider values (inputs_hash, script_hash, serial_num) =
        let script_values = or_empty (P.get_mapped_values adv_provider script_hash) in
        let inputs_values = P.get_mapped_values adv_provider inputs_hash in
        do
          inputs ← read_inputs inputs_values
          fail_if (not (word_eq inputs.hash inputs_hash))
              (invalid_note_inputs inputs_hash inputs.hash inputs_values)
              (do
                script ← ok_or (read_script script_values) (malformed_note_script script_values)
                ok (recipient_new serial_num script inputs))

    -- The recipient by what the advice map has under its digest.
    unfoldable pub find_recipient :
        A
        → Metadata.NoteMetadata
        → Digest
        → Option (List Felt)
        → Result TransactionKernelError (Option NoteRecipient)
    unfolding read_recipient recipient_words
    find_recipient adv_provider metadata recipient_digest (some values) = do
      words ← ok_or (recipient_words values) (malformed_recipient_data values)
      recipient ← read_recipient adv_provider values words
      ok (some recipient)
    find_recipient adv_provider metadata recipient_digest none =
        if is_private metadata
        then ok none
        else err (missing_note_details metadata recipient_digest)

    -- `OutputNoteBuilder::new`
    unfoldable pub new : ProcessState → A → Result TransactionKernelError OutputNoteBuilder
    unfolding find_recipient Metadata.try_from_word
    new process adv_provider = do
      metadata ← map_err malformed_note_metadata (Metadata.try_from_word (metadata_word process))
      recipient ←
          find_recipient adv_provider metadata (recipient_word process)
            (P.get_mapped_values adv_provider (recipient_word process))
      ok (record {
        metadata = metadata;
        recipient_digest = recipient_word process;
        recipient = recipient;
        assets = record { assets = []; hash = empty_word };
      })

  -- `OutputNoteBuilder::build`
  unfoldable pub build : OutputNoteBuilder → OutputNote
  unfolding note_new
  build self = elim self.recipient [
    | some recipient ↦ full (note_new self.assets self.metadata recipient)
    | none ↦ partial (record {
      metadata = self.metadata;
      recipient_digest = self.recipient_digest;
      assets = self.assets;
    })
  ]

  abbrev with_assets :
      OutputNoteBuilder
      → Result NoteError (Unit {0}) × Assets.NoteAssets
      → Result TransactionKernelError (Unit {0}) × OutputNoteBuilder
  with_assets self (r, assets) =
      (map_err failed_to_add_asset_to_note r, record self { assets = assets })

  unfoldable pub add_asset :
      ⦃F : Field⦄ → Asset → Method OutputNoteBuilder TransactionKernelError (Unit {0})
  unfolding Assets.add_asset
  add_asset asset self = with_assets self (Assets.add_asset H.hash_elements asset self.assets)

-- ===== src/Transactions/InputNotes.antt =====
-- `InputNotes`: objects/src/transaction/inputs.rs.
pub mod Laws
use miden_base.Base.{
  ℕ, Option, none, some, List, [], ◌∷◌, ◌++◌, ltb, Result, ok, err, fail_if, length,
}
use miden_base.Base.Words.{Felt, Word, Digest, empty_word, word_elements}
use miden_base.Base.Unique.{first_repeat}
use miden_base.Errors.{TransactionInputError, too_many_input_notes, duplicate_input_note}

-- The trait of the notes that the kernel can commit to; a `Nullifier` is its digest.
pub record ToInputNoteCommitments {ℓ} (T : Type ℓ) : Type ℓ where
  pub nullifier : T → Digest
  pub note_hash : T → Option Digest

abbrev pub max_input_notes_per_tx : ℕ
max_input_notes_per_tx = 1024

pub record InputNotes {ℓ} (T : Type ℓ) : Type ℓ where
  pub notes : List T
  pub commitment : Digest

abbrev pub zero_or_hash : Option Digest → Word
zero_or_hash none = empty_word
zero_or_hash (some note_id) = note_id

module _ {ℓ} {T : Type ℓ} ⦃C : ToInputNoteCommitments T⦄ where
  unfoldable pub commitment_elements : List T → List Felt
  commitment_elements [] = []
  commitment_elements (note ∷ notes) =
      word_elements (C.nullifier note)
      ++ word_elements (zero_or_hash (C.note_hash note))
      ++ commitment_elements notes

  module _ (hash_elements : List Felt → Digest) where
    unfoldable pub build_input_note_commitment : List T → Digest
    unfolding commitment_elements
    build_input_note_commitment [] = empty_word
    build_input_note_commitment (note ∷ notes) = hash_elements (commitment_elements (note ∷ notes))

    -- What is left of `InputNotes::new` after the loop over the nullifiers.
    abbrev finish : Option Digest → List T → Result TransactionInputError (InputNotes T)
    unfolding build_input_note_commitment
    finish (some repeated) notes = err (duplicate_input_note repeated)
    finish none notes =
        ok (record { notes = notes; commitment = build_input_note_commitment notes })

    -- `InputNotes::new`
    unfoldable pub new : List T → Result TransactionInputError (InputNotes T)
    unfolding finish first_repeat
    new notes =
        fail_if (ltb max_input_notes_per_tx (length notes))
          (too_many_input_notes max_input_notes_per_tx (length notes))
          (finish (first_repeat C.nullifier [] notes) notes)

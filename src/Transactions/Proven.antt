-- ===== src/Transactions/Proven.antt =====
-- `ProvenTransaction`, its builder and `TransactionId`: objects/src/transaction/proven_tx.rs and
-- transaction_id.rs.
pub mod Setters
pub mod Updates
pub mod Laws
use miden_base.Base.{
  ℕ, ◌+◌, Bool, true, false, not, Option, none, some, List, [], ◌∷◌, ◌++◌, map, ltb, ◌==◌,
  if◌then◌else◌, Result, ok, err, panic, fail_if, reject_if, map_err, ◌>>=◌,
}
use miden_base.Base.Words.{Felt, Field, Digest, empty_word, word_eq, word_elements}
use miden_base.Base.Hashing.{Hasher}
use miden_base.Base.Trees.{Smt}
use miden_base.Errors.{
  AccountError, ProvenTransactionError, account_final_hash_mismatch, account_id_mismatch,
  input_notes_error, output_notes_error, off_chain_account_with_details,
  on_chain_account_missing_details, new_on_chain_account_requires_full_details,
  existing_on_chain_account_requires_delta_details, account_update_size_limit_exceeded,
}
use miden_base.Assets.Data.{AccountId}
use miden_base.Accounts.Id.{is_public}
use miden_base.Accounts.Account as Accounts
use miden_base.Accounts.Details.{AccountUpdateDetails}
use miden_base.Accounts.Details
use miden_base.Delta.Account.{AccountDelta}
use miden_base.Notes.Note.{Nullifier, NoteHeader, header_hash}
use miden_base.Transactions.Inputs.{InputNote, authenticated, unauthenticated}
use miden_base.Transactions.InputNotes as Inputs
use miden_base.Transactions.InputNotes.{InputNotes, ToInputNoteCommitments}
use miden_base.Transactions.OutputNotes as Outputs
use miden_base.Transactions.OutputNotes.{OutputNote, OutputNotes}

abbrev pub TransactionId : Type 0
TransactionId = Digest

-- `InputNoteCommitment`: the nullifier of a consumed note, with its header if it is not authenticated.
pub record InputNoteCommitment : Type 0 where
  pub nullifier : Nullifier
  pub header : Option NoteHeader

pub record TxAccountUpdate (Tree : Type 0) : Type 0 where
  pub account_id : AccountId
  pub init_state_hash : Digest
  pub final_state_hash : Digest
  pub details : AccountUpdateDetails Tree

-- The proof belongs to the crate `miden-verifier`.
pub record ProvenTransaction (Tree Proof : Type 0) : Type 0 where
  pub id : TransactionId
  pub account_update : TxAccountUpdate Tree
  pub input_notes : InputNotes InputNoteCommitment
  pub output_notes : OutputNotes
  pub block_ref : Digest
  pub expiration_block_num : ℕ
  pub proof : Proof

pub record ProvenTransactionBuilder (Tree Proof : Type 0) : Type 0 where
  pub account_id : AccountId
  pub initial_account_hash : Digest
  pub final_account_hash : Digest
  pub account_update_details : AccountUpdateDetails Tree
  pub input_notes : List InputNoteCommitment
  pub output_notes : List OutputNote
  pub block_ref : Digest
  pub expiration_block_num : ℕ
  pub proof : Proof

-- `From<&InputNote> for InputNoteCommitment`
unfoldable pub commitment_from : {MerklePath : Type 0} → InputNote MerklePath → InputNoteCommitment
commitment_from (authenticated note _) = record { nullifier = note.nullifier; header = none }
commitment_from (unauthenticated note) = record {
  nullifier = note.nullifier;
  header = some note.header;
}

-- `is_authenticated`
unfoldable pub is_authenticated : InputNoteCommitment → Bool
is_authenticated self = elim self.header [ none ↦ true | some _ ↦ false ]

-- `get_unauthenticated_notes`
unfoldable pub unauthenticated_headers : List InputNoteCommitment → List NoteHeader
unauthenticated_headers [] = []
unauthenticated_headers (note ∷ notes) =
    let rest = unauthenticated_headers notes in
    elim note.header [ none ↦ rest | some header ↦ header ∷ rest ]

-- `AccountUpdateDetails::is_private`
abbrev pub is_private : {Tree : Type 0} → AccountUpdateDetails Tree → Bool
is_private Details.private = true
is_private (Details.new _) = false
is_private (Details.delta _) = false

abbrev pub account_update_max_size : ℕ
account_update_max_size = 32768

-- A panic in `is_public`, which no other outcome but a value has.
abbrev pub or_panic : Result AccountError Bool → Result ProvenTransactionError Bool
or_panic (ok b) = ok b
or_panic (err _) = panic
or_panic panic = panic

module _ ⦃F : Field⦄ ⦃H : Hasher⦄ where
  unfoldable pub commitment_hash : InputNoteCommitment → Option Digest
  unfolding header_hash
  commitment_hash self = elim self.header [ none ↦ none | some header ↦ some (header_hash header) ]

  unfoldable pub input_commitments : ToInputNoteCommitments InputNoteCommitment
  unfolding commitment_hash
  input_commitments = record { nullifier = λ note. note.nullifier; note_hash = commitment_hash }

  -- `TransactionId::new`
  unfoldable pub transaction_id_new : Digest → Digest → Digest → Digest → TransactionId
  transaction_id_new init_account_hash final_account_hash input_notes_hash output_notes_hash =
      H.hash_elements (
        word_elements init_account_hash
        ++ (word_elements final_account_hash
            ++ (word_elements input_notes_hash ++ word_elements output_notes_hash)))

  -- `get_size_hint`, the size of the serialized details, is a parameter.
  module _ ⦃S : Smt⦄ (get_size_hint : AccountUpdateDetails S.Tree → ℕ) where
    -- `TxAccountUpdate::validate`
    unfoldable pub validate_size : TxAccountUpdate S.Tree → Result ProvenTransactionError (Unit {0})
    validate_size self =
        reject_if (ltb account_update_max_size (get_size_hint self.details))
          (account_update_size_limit_exceeded self.account_id (get_size_hint self.details))

    -- The match on the details of a public account; the first argument is `is_new_account`.
    unfoldable pub check_details :
        Bool
        → AccountId
        → Digest
        → AccountUpdateDetails S.Tree
        → Result ProvenTransactionError (Unit {0})
    unfolding Accounts.hash
    check_details is_new_account account_id final_hash Details.private =
        err (on_chain_account_missing_details account_id)
    check_details is_new_account account_id final_hash (Details.new account) = do
      _ ←
          reject_if (not is_new_account)
            (existing_on_chain_account_requires_delta_details account_id)
      _ ← reject_if (not (account.id == account_id)) (account_id_mismatch account_id account.id)
      reject_if (not (word_eq (Accounts.hash H.hash_elements account) final_hash))
          (account_final_hash_mismatch final_hash (Accounts.hash H.hash_elements account))
    check_details is_new_account account_id final_hash (Details.delta _) =
        reject_if is_new_account (new_on_chain_account_requires_full_details account_id)

    -- The two branches of `ProvenTransaction::validate`.
    unfoldable pub check_update :
        TxAccountUpdate S.Tree → Bool → Result ProvenTransactionError (Unit {0})
    unfolding validate_size check_details
    check_update update true = do
      _ ← validate_size update
      check_details (word_eq update.init_state_hash empty_word) update.account_id
          update.final_state_hash update.details
    check_update update false =
        reject_if (not (is_private update.details))
          (off_chain_account_with_details update.account_id)

    -- `ProvenTransaction::validate`, which returns its argument.
    unfoldable pub validate :
        {Proof : Type 0}
        → ProvenTransaction S.Tree Proof
        → Result ProvenTransactionError (ProvenTransaction S.Tree Proof)
    unfolding is_public check_update
    validate self = do
      public ← or_panic (is_public self.account_update.account_id)
      _ ← check_update self.account_update public
      ok self

    -- The transaction that `build` validates.
    unfoldable pub assemble :
        {Proof : Type 0}
        → ProvenTransactionBuilder S.Tree Proof
        → InputNotes InputNoteCommitment
        → OutputNotes
        → ProvenTransaction S.Tree Proof
    unfolding transaction_id_new
    assemble self input_notes output_notes = record {
      id =
          transaction_id_new self.initial_account_hash self.final_account_hash
            input_notes.commitment output_notes.commitment;
      account_update = record {
        account_id = self.account_id;
        init_state_hash = self.initial_account_hash;
        final_state_hash = self.final_account_hash;
        details = self.account_update_details;
      };
      input_notes = input_notes;
      output_notes = output_notes;
      block_ref = self.block_ref;
      expiration_block_num = self.expiration_block_num;
      proof = self.proof;
    }

    -- `ProvenTransactionBuilder::build`
    unfoldable pub build :
        {Proof : Type 0}
        → ProvenTransactionBuilder S.Tree Proof
        → Result ProvenTransactionError (ProvenTransaction S.Tree Proof)
    unfolding Inputs.new Outputs.new assemble validate
    build self = do
      input_notes ←
          map_err input_notes_error
            (Inputs.new ⦃C = input_commitments⦄ H.hash_elements self.input_notes)
      output_notes ← map_err output_notes_error (Outputs.new self.output_notes)
      validate (assemble self input_notes output_notes)

-- ===== src/Transactions/Inputs.antt =====
-- `TransactionInputs` and `InputNote`: objects/src/transaction/inputs.rs.
pub mod Included
pub mod Laws
use miden_base.Base.{
  ℕ, ◌%◌, ◌^◌, Bool, true, false, not, Option, none, some, List, [], ◌∷◌, ◌==◌, if◌then◌else◌,
  Result, ok, err, panic, reject_if, map_err, ok_or, ◌>>=◌,
}
use miden_base.Base.Words.{Felt, Field, Word, Digest, word_eq}
use miden_base.Base.Hashing.{Hasher}
use miden_base.Base.Trees.{Smt}
use miden_base.Errors.{
  TransactionInputError, account_seed_not_provided_for_new_account,
  account_seed_provided_for_existing_account, inconsistent_account_seed, inconsistent_chain_length,
  inconsistent_chain_root, input_note_block_not_in_chain_mmr, input_note_not_in_block,
  invalid_account_seed,
}
use miden_base.Accounts.Id.{id_new}
use miden_base.Accounts.Account.{Account, is_new}
use miden_base.Accounts.Storage as AccountStorage
use miden_base.Notes.Note.{NoteId, Nullifier, NoteInclusionProof, NoteLocation, header_hash}
use miden_base.Notes.Note
use miden_base.Blocks.Header.{BlockHeader}
use miden_base.Blocks.Chain.{PartialMmr, ChainMmr, chain_length, peaks_hash, get_block}
use miden_base.Transactions.InputNotes.{InputNotes, ToInputNoteCommitments}

-- `MerklePath` of the crate `miden-crypto`: `verify` checks the path from a leaf at an index to a root.
pub record MerklePaths : Type 1 where
  pub MerklePath : Type 0
  pub verify : MerklePath → ℕ → Digest → Digest → Bool

pub data InputNote (MerklePath : Type 0) : Type 0 where
  authenticated : Note.Note → NoteInclusionProof MerklePath → InputNote MerklePath
  unauthenticated : Note.Note → InputNote MerklePath

module _ {MerklePath : Type 0} where
  -- `InputNote::note`
  unfoldable pub input_note : InputNote MerklePath → Note.Note
  input_note (authenticated note _) = note
  input_note (unauthenticated note) = note

  -- `InputNote::proof` and `InputNote::location`
  unfoldable pub input_proof : InputNote MerklePath → Option (NoteInclusionProof MerklePath)
  input_proof (authenticated _ proof) = some proof
  input_proof (unauthenticated _) = none

  unfoldable pub location : InputNote MerklePath → Option NoteLocation
  location (authenticated _ proof) = some proof.location
  location (unauthenticated _) = none

  -- `InputNote::id`
  unfoldable pub input_id : InputNote MerklePath → NoteId
  unfolding input_note
  input_id self = (input_note self).header.note_id

  -- `ToInputNoteCommitments::nullifier` and `note_hash` of an input note
  unfoldable pub input_nullifier : InputNote MerklePath → Nullifier
  unfolding input_note
  input_nullifier self = (input_note self).nullifier

  unfoldable pub input_hash : ⦃F : Field⦄ ⦃H : Hasher⦄ → InputNote MerklePath → Option Digest
  unfolding header_hash
  input_hash (authenticated _ _) = none
  input_hash (unauthenticated note) = some (header_hash note.header)

abbrev pub input_commitments :
    {MerklePath : Type 0} ⦃F : Field⦄ ⦃H : Hasher⦄ → ToInputNoteCommitments (InputNote MerklePath)
unfolding input_nullifier input_hash
input_commitments = record { nullifier = input_nullifier; note_hash = input_hash }

pub record TransactionInputs (Tree Mmr MerklePath : Type 0) : Type 0 where
  pub account : Account Tree
  pub account_seed : Option Word
  pub block_header : BlockHeader
  pub block_chain : ChainMmr Mmr
  pub input_notes : InputNotes (InputNote MerklePath)

module _ ⦃F : Field⦄ ⦃H : Hasher⦄ where
  module _ ⦃S : Smt⦄ where
    -- The case of a seed for a new account.
    unfoldable pub check_seed : Account S.Tree → Word → Result TransactionInputError (Unit {0})
    unfolding id_new AccountStorage.commitment
    check_seed account seed = do
      account_id ← map_err invalid_account_seed (
          id_new H.hash_elements seed account.code.commitment
            (AccountStorage.commitment H.hash_elements account.storage))
      reject_if (not (account_id == account.id)) (inconsistent_account_seed account.id account_id)

    abbrev pub seed_cases :
        Bool → Account S.Tree → Option Word → Result TransactionInputError (Unit {0})
    unfolding check_seed
    seed_cases true account (some seed) = check_seed account seed
    seed_cases true account none = err account_seed_not_provided_for_new_account
    seed_cases false account (some _) = err account_seed_provided_for_existing_account
    seed_cases false account none = ok tt

    unfoldable pub validate_account_seed :
        Account S.Tree → Option Word → Result TransactionInputError (Unit {0})
    unfolding seed_cases is_new
    validate_account_seed account account_seed = seed_cases (is_new account) account account_seed

  module _ ⦃P : MerklePaths⦄ where
    unfoldable pub validate_is_in_block :
        Note.Note
        → NoteInclusionProof P.MerklePath
        → BlockHeader
        → Result TransactionInputError (Unit {0})
    unfolding header_hash
    validate_is_in_block note proof block_header =
        reject_if
          (not (
            P.verify proof.note_path proof.location.node_index_in_block (header_hash note.header)
              block_header.note_root))
          (input_note_not_in_block note.header.note_id proof.location.block_num)

    module _ ⦃M : PartialMmr⦄ where
      -- The header against which a note is checked.
      unfoldable pub block_of :
          BlockHeader
          → ChainMmr M.Mmr
          → Note.Note
          → NoteLocation
          → Result TransactionInputError BlockHeader
      unfolding get_block
      block_of block_header block_chain note location =
          if location.block_num == block_header.block_num
          then ok block_header
          else ok_or (get_block block_chain location.block_num)
              (input_note_block_not_in_chain_mmr note.header.note_id)

      -- The body of the loop over the input notes, and the loop.
      unfoldable pub check_note :
          BlockHeader
          → ChainMmr M.Mmr
          → InputNote P.MerklePath
          → Result TransactionInputError (Unit {0})
      unfolding validate_is_in_block block_of
      check_note block_header block_chain (unauthenticated note) = ok tt
      check_note block_header block_chain (authenticated note proof) = do
        header ← block_of block_header block_chain note proof.location
        validate_is_in_block note proof header

      unfoldable pub check_notes :
          BlockHeader
          → ChainMmr M.Mmr
          → List (InputNote P.MerklePath)
          → Result TransactionInputError (Unit {0})
      unfolding check_note
      check_notes block_header block_chain [] = ok tt
      check_notes block_header block_chain (note ∷ notes) = do
        _ ← check_note block_header block_chain note
        check_notes block_header block_chain notes

      -- `TransactionInputs::new`
      unfoldable pub new :
          ⦃S : Smt⦄
          → Account S.Tree
          → Option Word
          → BlockHeader
          → ChainMmr M.Mmr
          → InputNotes (InputNote P.MerklePath)
          → Result TransactionInputError (TransactionInputs S.Tree M.Mmr P.MerklePath)
      unfolding validate_account_seed check_notes chain_length peaks_hash
      new account account_seed block_header block_chain input_notes = do
        _ ← validate_account_seed account account_seed
        _ ←
            reject_if (not (chain_length block_chain == block_header.block_num))
              (inconsistent_chain_length block_header.block_num (chain_length block_chain % 2 ^ 32))
        _ ←
            reject_if (not (word_eq (peaks_hash block_chain) block_header.chain_root))
              (inconsistent_chain_root block_header.chain_root (peaks_hash block_chain))
        _ ← check_notes block_header block_chain input_notes.notes
        ok (record {
          account = account;
          account_seed = account_seed;
          block_header = block_header;
          block_chain = block_chain;
          input_notes = input_notes;
        })

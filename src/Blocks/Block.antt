-- ===== src/Blocks/Block.antt =====
-- `Block`: objects/src/block/mod.rs.
pub mod Laws
pub mod Leaves
pub mod Notes
use miden_base.Base.{
  ℕ, suc, ◌+◌, Option, none, some, List, [], ◌∷◌, ◌++◌, map, ltb, Result, ok, err, panic, fail_if,
  ◌>>=◌, length,
}
use miden_base.Base.Words.{Felt, Field, Digest, word_elements}
use miden_base.Base.Hashing.{Hasher}
use miden_base.Base.Unique.{first_repeat, push_all}
use miden_base.Errors.{
  BlockError, duplicate_note_found, too_many_account_updates, too_many_notes_in_batch,
  too_many_notes_in_block, too_many_nullifiers_in_block, too_many_transaction_batches,
}
use miden_base.Assets.Data.{AccountId}
use miden_base.Accounts.Details.{AccountUpdateDetails}
use miden_base.Notes.Note.{Nullifier}
use miden_base.Transactions.OutputNotes as Outputs
use miden_base.Transactions.OutputNotes.{OutputNote}
use miden_base.Blocks.Header.{BlockHeader}
use miden_base.Blocks.NoteTree.{
  BlockNoteIndex, SimpleSmt, index_new, with_entries, max_batches_per_block,
  max_output_notes_per_batch,
}

-- `TransactionId`
abbrev pub TransactionId : Type 0
TransactionId = Digest

pub record BlockAccountUpdate (Tree : Type 0) : Type 0 where
  pub account_id : AccountId
  pub new_state_hash : Digest
  pub details : AccountUpdateDetails Tree
  pub transactions : List TransactionId

pub record Block (Tree : Type 0) : Type 0 where
  pub header : BlockHeader
  pub updated_accounts : List (BlockAccountUpdate Tree)
  pub output_note_batches : List (List OutputNote)
  pub nullifiers : List Nullifier

abbrev pub max_accounts_per_block : ℕ
max_accounts_per_block = 65536

abbrev pub max_output_notes_per_block : ℕ
max_output_notes_per_block = 65536

abbrev pub max_input_notes_per_block : ℕ
max_input_notes_per_block = 65536

-- `transactions`: the IDs with the account that each of them updated.
unfoldable pub transactions :
    {Tree : Type 0} → List (BlockAccountUpdate Tree) → List (TransactionId × AccountId)
transactions [] = []
transactions (update ∷ updates) =
    map (λ id. (id, update.account_id)) update.transactions ++ transactions updates

unfoldable pub tx_elements : List (TransactionId × AccountId) → List Felt
tx_elements [] = []
tx_elements ((transaction_id, account_id) ∷ updates) =
    (account_id ∷ 0 ∷ 0 ∷ 0 ∷ []) ++ (word_elements transaction_id ++ tx_elements updates)

-- `compute_tx_hash`
unfoldable pub compute_tx_hash : ⦃H : Hasher⦄ → List (TransactionId × AccountId) → Digest
unfolding tx_elements
compute_tx_hash ⦃H⦄ updated_accounts = H.hash_elements (tx_elements updated_accounts)

-- The panic of `expect` takes the place of an error.
abbrev pub expect {ℓ} : {A : Type ℓ} → Result BlockError A → Result BlockError A
expect (ok a) = ok a
expect (err e) = panic
expect panic = panic

-- The notes of a batch with their indices.
unfoldable pub number_notes :
    ℕ → ℕ → List OutputNote → Result BlockError (List (BlockNoteIndex × OutputNote))
unfolding index_new
number_notes batch_idx note_idx [] = ok []
number_notes batch_idx note_idx (note ∷ notes) = do
  index ← expect (index_new batch_idx note_idx)
  rest ← number_notes batch_idx (suc note_idx) notes
  ok ((index, note) ∷ rest)

unfoldable pub number_batches :
    ℕ → List (List OutputNote) → Result BlockError (List (BlockNoteIndex × OutputNote))
unfolding number_notes
number_batches batch_idx [] = ok []
number_batches batch_idx (batch ∷ batches) = do
  notes ← number_notes batch_idx 0 batch
  rest ← number_batches (suc batch_idx) batches
  ok (notes ++ rest)

abbrev pub tree_or_panic : {T : Type 0} → Option T → Result BlockError T
tree_or_panic none = panic
tree_or_panic (some t) = ok t

-- The check after the loop over the batches.
abbrev pub check_total : ℕ → Result BlockError (Unit {0})
check_total output_note_count =
    fail_if (ltb max_output_notes_per_block output_note_count)
      (too_many_notes_in_block output_note_count) (ok tt)

module _ ⦃H : Hasher⦄ where
  -- The loop over the batches, with the identifiers seen and the notes counted before.
  unfoldable pub check_batches : List Digest → ℕ → List (List OutputNote) → Result BlockError ℕ
  unfolding first_repeat push_all Outputs.id
  check_batches seen count [] = ok count
  check_batches seen count (batch ∷ batches) =
      let rest = check_batches (push_all Outputs.id seen batch) (count + length batch) batches in
      fail_if (ltb max_output_notes_per_batch (length batch))
        (too_many_notes_in_batch (length batch))
        (elim (first_repeat Outputs.id seen batch) [
          | some repeated ↦ err (duplicate_note_found repeated)
          | none ↦ rest
        ])

  module _ {Tree : Type 0} where
    -- `notes`
    unfoldable pub notes : Block Tree → Result BlockError (List (BlockNoteIndex × OutputNote))
    unfolding number_batches
    notes self = number_batches 0 self.output_note_batches

    unfoldable pub validate : Block Tree → Result BlockError (Unit {0})
    unfolding check_batches
    validate self =
        fail_if (ltb max_accounts_per_block (length self.updated_accounts))
          (too_many_account_updates (length self.updated_accounts))
          (fail_if (ltb max_batches_per_block (length self.output_note_batches))
            (too_many_transaction_batches (length self.output_note_batches))
            (fail_if (ltb max_input_notes_per_block (length self.nullifiers))
              (too_many_nullifiers_in_block (length self.nullifiers))
              (check_batches [] 0 self.output_note_batches >>= check_total)))

    -- `Block::new`
    unfoldable pub new :
        BlockHeader
        → List (BlockAccountUpdate Tree)
        → List (List OutputNote)
        → List Nullifier
        → Result BlockError (Block Tree)
    unfolding validate
    new header updated_accounts output_note_batches nullifiers =
        let block : Block Tree = record {
          header = header;
          updated_accounts = updated_accounts;
          output_note_batches = output_note_batches;
          nullifiers = nullifiers;
        } in
        validate block >>= (λ _. ok block)

    -- `build_note_tree`
    unfoldable pub build_note_tree :
        ⦃F : Field⦄ ⦃S : SimpleSmt⦄ → Block Tree → Result BlockError S.Tree
    unfolding notes with_entries Outputs.id Outputs.metadata
    build_note_tree self = do
      numbered ← notes self
      tree ← with_entries (map (λ n. (n.0, Outputs.id n.1, Outputs.metadata n.1)) numbered)
      tree_or_panic tree

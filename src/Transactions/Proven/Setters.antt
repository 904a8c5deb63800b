-- ===== src/Transactions/Proven/Setters.antt =====
-- The construction of a `ProvenTransactionBuilder`: objects/src/transaction/proven_tx.rs.
use miden_base.Base.{ℕ, List, [], ◌++◌}
use miden_base.Base.Words.{Digest}
use miden_base.Assets.Data.{AccountId}
use miden_base.Accounts.Details.{AccountUpdateDetails}
use miden_base.Accounts.Details as Details
use miden_base.Transactions.OutputNotes.{OutputNote}
use miden_base.Transactions.Proven.{ProvenTransactionBuilder, InputNoteCommitment}

-- `ProvenTransactionBuilder::new` and its setters
module _ {Tree Proof : Type 0} where
  unfoldable pub builder_new :
      AccountId → Digest → Digest → Digest → ℕ → Proof → ProvenTransactionBuilder Tree Proof
  builder_new account_id initial_account_hash final_account_hash block_ref expiration_block_num
        proof =
      record {
        account_id = account_id;
        initial_account_hash = initial_account_hash;
        final_account_hash = final_account_hash;
        account_update_details = Details.private;
        input_notes = [];
        output_notes = [];
        block_ref = block_ref;
        expiration_block_num = expiration_block_num;
        proof = proof;
      }

  unfoldable pub set_account_update_details :
      AccountUpdateDetails Tree
      → ProvenTransactionBuilder Tree Proof
      → ProvenTransactionBuilder Tree Proof
  set_account_update_details details self = record self { account_update_details = details }

  unfoldable pub add_input_notes :
      List InputNoteCommitment
      → ProvenTransactionBuilder Tree Proof
      → ProvenTransactionBuilder Tree Proof
  add_input_notes notes self = record self { input_notes = self.input_notes ++ notes }

  unfoldable pub add_output_notes :
      List OutputNote → ProvenTransactionBuilder Tree Proof → ProvenTransactionBuilder Tree Proof
  add_output_notes notes self = record self { output_notes = self.output_notes ++ notes }

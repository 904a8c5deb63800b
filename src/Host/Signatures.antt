-- ===== src/Host/Signatures.antt =====
-- What the host gives the VM by its advice stack: miden-tx/src/host/mod.rs.
pub mod Laws
use miden_base.Base.{
  ℕ, ◌%◌, ◌^◌, Option, none, some, List, [], ◌∷◌, not, ltb, leb, ◌==◌, if◌then◌else◌, Result, ok,
  err, panic, fail_if, ok_or, expect_ok, map_err, Method, then_do, ◌>>=◌, length,
}
use miden_base.Base.Words.{Felt, Field, Word, Digest, word_eq}
use miden_base.Base.Hashing.{Hasher}
use miden_base.Base.Maps.{Map, Key, nat_key, lookup, insert}
use miden_base.Errors.{AccountDeltaError}
use miden_base.Kernel.Errors.{
  TransactionKernelError, account_delta_error, invalid_storage_slot_index, malformed_asset,
  malformed_asset_on_account_vault_update, missing_note, missing_memory_value, ExecutionError,
  failed_signature_generation, no_authenticator_assigned, error_generating_signature,
}
use miden_base.Kernel.Memory.{native_num_acct_storage_slots_ptr}
use miden_base.Assets.Data.{Asset, NonFungibleAsset}
use miden_base.Assets.Whole as Whole
use miden_base.Delta.Account.{AccountDelta}
use miden_base.Delta.Storage as StorageDelta
use miden_base.Delta.Vault as VaultDelta
use miden_base.Delta.Tracker as Tracker
use miden_base.Host.Process.{ProcessState, AdviceProvider}
use miden_base.Host.NoteBuilder as NoteBuilder
use miden_base.Host.Procedures as Procedures
use miden_base.Host.State.{TransactionHost, Handler, TransactionAuthenticator}

-- The signature that the authenticator gives.
unfoldable pub sign :
    Option TransactionAuthenticator → Word → Word → AccountDelta → Result ExecutionError (List Felt)
sign none pub_key msg account_delta = err (failed_signature_generation no_authenticator_assigned)
sign (some get_signature) pub_key msg account_delta =
    ok_or (get_signature pub_key msg account_delta)
      (failed_signature_generation error_generating_signature)

abbrev pub signature_key : ⦃H : Hasher⦄ → ProcessState → Digest
signature_key ⦃H⦄ process = H.merge (process.get_stack_word 0) (process.get_stack_word 1)

module _ {A : Type 0} ⦃P : AdviceProvider A⦄ where
  abbrev pub push_value : Felt → Method (TransactionHost A) ExecutionError (Unit {0})
  push_value value self =
      let (r, adv_provider) = P.push_stack value self.adv_provider in
      (r, record self { adv_provider = adv_provider })

  unfoldable pub on_account_push_procedure_index : ⦃D : Key Digest⦄ → Handler (TransactionHost A)
  unfolding Procedures.get_proc_index
  on_account_push_procedure_index process self =
      then_do (Procedures.get_proc_index self.acct_procedure_index_map process, self)
        (λ proc_idx self. let (r, self') = push_value proc_idx self in (expect_ok r, self'))

  unfoldable pub push_values : List Felt → Method (TransactionHost A) ExecutionError (Unit {0})
  push_values [] self = (ok tt, self)
  push_values (value ∷ values) self =
      then_do (push_value value self) (λ _ self'. push_values values self')

  module _ ⦃H : Hasher⦄ ⦃D : Key Digest⦄ (felt_add : Felt → Felt → Felt) where
    abbrev pub generate : ProcessState → TransactionHost A → Result ExecutionError (List Felt)
    generate process self = do
      account_delta ← expect_ok (Tracker.into_delta felt_add self.account_delta)
      sign self.authenticator (process.get_stack_word 0) (process.get_stack_word 1) account_delta

    -- The rest of `on_signature_requested`, by what the advice map has under the key.
    unfoldable pub answer :
        ProcessState → Option (List Felt) → Method (TransactionHost A) ExecutionError (Unit {0})
    unfolding push_values
    answer process (some signature) self = push_values signature self
    answer process none self =
        then_do (generate process self, self)
          (λ signature self'. push_values signature (record self' {
            generated_signatures =
                insert (signature_key process) signature self'.generated_signatures;
          }))

    unfoldable pub on_signature_requested :
        ProcessState → Method (TransactionHost A) ExecutionError (Unit {0})
    unfolding answer
    on_signature_requested process self =
        answer process (P.get_mapped_values self.adv_provider (signature_key process)) self

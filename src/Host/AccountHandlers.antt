-- ===== src/Host/AccountHandlers.antt =====
-- The handlers of kernel events that change the account: miden-tx/src/host/mod.rs.
use miden_base.Base.{
  ℕ, ◌%◌, ◌^◌, not, leb, if◌then◌else◌, Result, ok, fail_if, ok_or, map_err, then_do, ◌>>=◌,
}
use miden_base.Base.Words.{Felt, Word, Digest, word_eq}
use miden_base.Base.Maps.{Key, nat_key}
use miden_base.Errors.{AccountDeltaError}
use miden_base.Kernel.Errors.{
  TransactionKernelError, account_delta_error, invalid_storage_slot_index,
  malformed_asset_on_account_vault_update, missing_memory_value,
}
use miden_base.Kernel.Memory.{native_num_acct_storage_slots_ptr}
use miden_base.Assets.Data.{Asset, NonFungibleAsset}
use miden_base.Assets.Whole as Whole
use miden_base.Delta.Storage as StorageDelta
use miden_base.Delta.Vault as VaultDelta
use miden_base.Delta.Tracker as Tracker
use miden_base.Host.Process.{ProcessState}
use miden_base.Host.State.{TransactionHost, Handler}

-- The word of the four stack items from this position on, the deepest first.
abbrev pub word_at : ℕ → ℕ → ℕ → ℕ → ProcessState → Word
word_at i j k l process = record {
  e0 = process.get_stack_item i;
  e1 = process.get_stack_item j;
  e2 = process.get_stack_item k;
  e3 = process.get_stack_item l;
}

unfoldable pub get_num_storage_slots : ProcessState → Result TransactionKernelError ℕ
get_num_storage_slots process = do
  word ←
      ok_or (process.get_mem_value process.ctx native_num_acct_storage_slots_ptr)
        (missing_memory_value native_num_acct_storage_slots_ptr)
  ok word.e0

-- The slot on the stack, if the account has it; it becomes a `u8`.
unfoldable pub checked_slot : ProcessState → Result TransactionKernelError ℕ
unfolding get_num_storage_slots
checked_slot process = do
  num_storage_slot ← get_num_storage_slots process
  fail_if (leb num_storage_slot (process.get_stack_item 0))
      (invalid_storage_slot_index num_storage_slot (process.get_stack_item 0))
      (ok (process.get_stack_item 0 % 2 ^ 8))

abbrev pub vault_update_asset : ProcessState → Result TransactionKernelError Asset
vault_update_asset process =
    map_err malformed_asset_on_account_vault_update (Whole.try_from_word (process.get_stack_word 0))

module _ {A : Type 0} where
  abbrev pub on_storage :
      (StorageDelta.AccountStorageDelta → StorageDelta.AccountStorageDelta)
      → TransactionHost A
      → TransactionHost A
  on_storage f self = record self {
    account_delta = record self.account_delta { storage = f self.account_delta.storage };
  }

  abbrev pub on_vault :
      TransactionHost A
      → Result AccountDeltaError (Unit {0}) × VaultDelta.AccountVaultDelta
      → Result TransactionKernelError (Unit {0}) × TransactionHost A
  on_vault self (r, vault) = (
    map_err account_delta_error r,
    record self { account_delta = record self.account_delta { vault = vault } },
  )

  unfoldable pub on_account_storage_after_set_item : Handler (TransactionHost A)
  unfolding checked_slot StorageDelta.set_item
  on_account_storage_after_set_item process self =
      then_do (checked_slot process, self)
        (λ slot self.
          let new_slot_value = word_at 4 3 2 1 process in
          let current_slot_value = word_at 8 7 6 5 process in
          (
            ok tt,
            if not (word_eq current_slot_value new_slot_value)
                then on_storage (StorageDelta.set_item slot new_slot_value) self
                else self,
          ))

  unfoldable pub on_account_storage_after_set_map_item :
      ⦃D : Key Digest⦄ → Handler (TransactionHost A)
  unfolding checked_slot StorageDelta.set_map_item
  on_account_storage_after_set_map_item process self =
      then_do (checked_slot process, self)
        (λ slot self. (
          ok tt,
          on_storage
              (StorageDelta.set_map_item slot (word_at 4 3 2 1 process) (word_at 8 7 6 5 process))
              self,
        ))

  module _ ⦃N : Key NonFungibleAsset⦄ where
    unfoldable pub on_account_vault_after_add_asset : Handler (TransactionHost A)
    unfolding VaultDelta.add_asset
    on_account_vault_after_add_asset process self =
        then_do (vault_update_asset process, self)
          (λ asset self. on_vault self (VaultDelta.add_asset asset self.account_delta.vault))

    unfoldable pub on_account_vault_after_remove_asset : Handler (TransactionHost A)
    unfolding VaultDelta.remove_asset
    on_account_vault_after_remove_asset process self =
        then_do (vault_update_asset process, self)
          (λ asset self. on_vault self (VaultDelta.remove_asset asset self.account_delta.vault))

  unfoldable pub on_account_before_increment_nonce :
      (Felt → Felt → Felt) → Handler (TransactionHost A)
  unfolding Tracker.increment_nonce
  on_account_before_increment_nonce felt_add process self = (
    ok tt,
    record self {
      account_delta =
          Tracker.increment_nonce felt_add (process.get_stack_item 0) self.account_delta;
    },
  )

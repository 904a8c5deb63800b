-- ===== src/Host/Events/Frames.antt =====
-- What the handlers of kernel events leave as it is: miden-tx/src/host/mod.rs.
use miden_base.Base.{ℕ, ◌≡◌, refl, Bool, true, false, List, Option, none, some, then_do-keeps}
use miden_base.Base.Words.{Felt, Field, Digest}
use miden_base.Base.Maps.{Map, Key, nat_key}
use miden_base.Base.Hashing.{Hasher}
use miden_base.Assets.Data.{Asset, NonFungibleAsset}
use miden_base.Kernel.Events.{
  TransactionEvent, account_vault_before_add_asset, account_vault_after_add_asset,
  account_vault_before_remove_asset, account_vault_after_remove_asset,
  account_storage_before_set_item, account_storage_after_set_item,
  account_storage_before_set_map_item, account_storage_after_set_map_item,
  account_before_increment_nonce, account_after_increment_nonce, account_push_procedure_index,
  note_before_created, note_after_created, note_before_add_asset, note_after_add_asset,
}
use miden_base.Host.Process.{ProcessState, AdviceProvider}
use miden_base.Host.Procedures as Procedures
use miden_base.Host.NoteBuilder.{OutputNoteBuilder}
use miden_base.Host.State.{TransactionHost}
use miden_base.Host.AccountHandlers
use miden_base.Host.Signatures
use miden_base.Host.NoteHandlers
use miden_base.Host.Events.{handle}
use miden_base.Delta.Tracker.{AccountDeltaTracker}
use native.Mathlib.Omega.{arith}

module _ {A : Type 0} where
  abbrev pub notes_of : TransactionHost A → Map ℕ OutputNoteBuilder
  notes_of self = self.output_notes

  abbrev pub delta_of : TransactionHost A → AccountDeltaTracker
  delta_of self = self.account_delta

  pub set_item-notes :
      (process : ProcessState) (self : TransactionHost A)
      → notes_of (AccountHandlers.on_account_storage_after_set_item process self).1 ≡ notes_of self
  unfolding AccountHandlers.on_account_storage_after_set_item
  set_item-notes process self =
      then_do-keeps notes_of (AccountHandlers.checked_slot process) self _ (λ slot. ground arith)

  pub set_map_item-notes :
      ⦃D : Key Digest⦄ (process : ProcessState) (self : TransactionHost A)
      → notes_of (AccountHandlers.on_account_storage_after_set_map_item process self).1
        ≡ notes_of self
  unfolding AccountHandlers.on_account_storage_after_set_map_item
  set_map_item-notes process self =
      then_do-keeps notes_of (AccountHandlers.checked_slot process) self _ (λ slot. refl)

  module _ ⦃N : Key NonFungibleAsset⦄ where
    pub add_asset-notes :
        (process : ProcessState) (self : TransactionHost A)
        → notes_of (AccountHandlers.on_account_vault_after_add_asset process self).1 ≡ notes_of self
    unfolding AccountHandlers.on_account_vault_after_add_asset
    add_asset-notes process self =
        then_do-keeps notes_of (AccountHandlers.vault_update_asset process) self _ (λ asset. refl)

    pub remove_asset-notes :
        (process : ProcessState) (self : TransactionHost A)
        → notes_of (AccountHandlers.on_account_vault_after_remove_asset process self).1
          ≡ notes_of self
    unfolding AccountHandlers.on_account_vault_after_remove_asset
    remove_asset-notes process self =
        then_do-keeps notes_of (AccountHandlers.vault_update_asset process) self _ (λ asset. refl)

  module _ ⦃P : AdviceProvider A⦄ ⦃D : Key Digest⦄ where
    push_procedure_index-notes :
        (process : ProcessState) (self : TransactionHost A)
        → notes_of (Signatures.on_account_push_procedure_index process self).1 ≡ notes_of self
    unfolding Signatures.on_account_push_procedure_index
    push_procedure_index-notes process self =
        then_do-keeps notes_of (Procedures.get_proc_index self.acct_procedure_index_map process)
          self _ (λ i. refl)

    push_procedure_index-delta :
        (process : ProcessState) (self : TransactionHost A)
        → delta_of (Signatures.on_account_push_procedure_index process self).1 ≡ delta_of self
    unfolding Signatures.on_account_push_procedure_index
    push_procedure_index-delta process self =
        then_do-keeps delta_of (Procedures.get_proc_index self.acct_procedure_index_map process)
          self _ (λ i. refl)

  module _ ⦃H : Hasher⦄ where
    add_to_note-delta :
        ⦃F : Field⦄ (i : ℕ) (asset : Asset) (self : TransactionHost A)
        (found : Option OutputNoteBuilder)
        → delta_of (NoteHandlers.add_to_note i asset self found).1 ≡ delta_of self
    unfolding NoteHandlers.add_to_note
    add_to_note-delta i asset self none = refl
    add_to_note-delta i asset self (some builder) = refl

    add_asset_to_note-delta :
        ⦃F : Field⦄ (process : ProcessState) (self : TransactionHost A)
        → delta_of (NoteHandlers.on_note_before_add_asset process self).1 ≡ delta_of self
    unfolding NoteHandlers.on_note_before_add_asset
    add_asset_to_note-delta process self =
        then_do-keeps delta_of (NoteHandlers.asset_of_note process self) self _
          (λ asset. add_to_note-delta (process.get_stack_item 6) asset self _)

    note_created-delta :
        ⦃P : AdviceProvider A⦄ (read_script : List Felt → Option Digest) (process : ProcessState)
        (self : TransactionHost A)
        → delta_of (NoteHandlers.on_note_after_created read_script process self).1 ≡ delta_of self
    unfolding NoteHandlers.on_note_after_created
    note_created-delta read_script process self =
        then_do-keeps delta_of (NoteHandlers.new_note read_script process self) self _
          (λ builder. refl)

-- Is this an event on which the host changes its output notes, and one on which it changes the
-- account's delta?
abbrev pub touches_notes : TransactionEvent → Bool
touches_notes note_after_created = true
touches_notes note_before_add_asset = true
touches_notes _ = false

abbrev pub touches_account : TransactionEvent → Bool
touches_account account_vault_after_add_asset = true
touches_account account_vault_after_remove_asset = true
touches_account account_storage_after_set_item = true
touches_account account_storage_after_set_map_item = true
touches_account account_before_increment_nonce = true
touches_account _ = false

module _ {A : Type 0} ⦃F : Field⦄ ⦃H : Hasher⦄ ⦃D : Key Digest⦄ ⦃N : Key NonFungibleAsset⦄
    ⦃P : AdviceProvider A⦄ (felt_add : Felt → Felt → Felt)
    (read_script : List Felt → Option Digest) where
  pub handle-notes :
      (e : TransactionEvent) (process : ProcessState) (self : TransactionHost A)
      → touches_notes e ≡ false
      → notes_of (handle felt_add read_script e process self).1 ≡ notes_of self
  unfolding handle AccountHandlers.on_account_before_increment_nonce
  handle-notes account_vault_before_add_asset process self t = refl
  handle-notes account_vault_after_add_asset process self t = add_asset-notes process self
  handle-notes account_vault_before_remove_asset process self t = refl
  handle-notes account_vault_after_remove_asset process self t = remove_asset-notes process self
  handle-notes account_storage_before_set_item process self t = refl
  handle-notes account_storage_after_set_item process self t = set_item-notes process self
  handle-notes account_storage_before_set_map_item process self t = refl
  handle-notes account_storage_after_set_map_item process self t = set_map_item-notes process self
  handle-notes account_before_increment_nonce process self t = refl
  handle-notes account_after_increment_nonce process self t = refl
  handle-notes account_push_procedure_index process self t = push_procedure_index-notes process self
  handle-notes note_before_created process self t = refl
  handle-notes note_after_created process self t = absurd (cc)
  handle-notes note_before_add_asset process self t = absurd (cc)
  handle-notes note_after_add_asset process self t = refl

  pub handle-delta :
      (e : TransactionEvent) (process : ProcessState) (self : TransactionHost A)
      → touches_account e ≡ false
      → delta_of (handle felt_add read_script e process self).1 ≡ delta_of self
  unfolding handle
  handle-delta account_vault_before_add_asset process self t = refl
  handle-delta account_vault_after_add_asset process self t = absurd (cc)
  handle-delta account_vault_before_remove_asset process self t = refl
  handle-delta account_vault_after_remove_asset process self t = absurd (cc)
  handle-delta account_storage_before_set_item process self t = refl
  handle-delta account_storage_after_set_item process self t = absurd (cc)
  handle-delta account_storage_before_set_map_item process self t = refl
  handle-delta account_storage_after_set_map_item process self t = absurd (cc)
  handle-delta account_before_increment_nonce process self t = absurd (cc)
  handle-delta account_after_increment_nonce process self t = refl
  handle-delta account_push_procedure_index process self t = push_procedure_index-delta process self
  handle-delta note_before_created process self t = refl
  handle-delta note_after_created process self t = note_created-delta read_script process self
  handle-delta note_before_add_asset process self t = add_asset_to_note-delta process self
  handle-delta note_after_add_asset process self t = refl

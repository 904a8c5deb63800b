-- ===== src/Errors.antt =====
-- Error types: objects/src/errors.rs, by the variants that the modelled code returns. A payload
-- that is only a message is left out.
use miden_base.Base.{ℕ}
use miden_base.Base.Ints.{ℤ}
use miden_base.Base.Words.{Word}
use miden_base.Assets.Data.{AccountId, FungibleAsset, NonFungibleAsset, Asset}
use miden_base.Accounts.Kinds.{AccountType}
use miden_base.Notes.Kinds.{NoteType}

pub data AssetError : Type 0 where
  amount_too_big : ℕ → AssetError
  asset_amount_not_sufficient : ℕ → ℕ → AssetError
  fungible_asset_invalid_word : Word → AssetError
  inconsistent_faucet_ids : AccountId → AccountId → AssetError
  invalid_account_id : AssetError
  not_a_fungible_faucet_id : AccountId → AccountType → AssetError
  not_a_non_fungible_faucet_id : AccountId → AssetError
  token_symbol_error : AssetError

pub data AssetVaultError : Type 0 where
  add_fungible_asset_balance_error : AssetError → AssetVaultError
  duplicate_asset : AssetVaultError
  duplicate_non_fungible_asset : NonFungibleAsset → AssetVaultError
  fungible_asset_not_found : FungibleAsset → AssetVaultError
  not_a_non_fungible_asset : Asset → AssetVaultError
  vault_not_a_fungible_faucet_id : AccountId → AssetVaultError
  non_fungible_asset_not_found : NonFungibleAsset → AssetVaultError
  subtract_fungible_asset_balance_error : AssetError → AssetVaultError

pub data AccountError : Type 0 where
  account_code_merge_error : AccountError
  account_code_no_procedures : AccountError
  account_code_too_many_procedures : ℕ → ℕ → AccountError
  unsupported_component_for_account_type : AccountType → ℕ → AccountError
  account_code_procedure_invalid_storage_offset : AccountError
  account_code_procedure_invalid_storage_size : AccountError
  account_code_procedure_invalid_padding : AccountError
  account_id_invalid_field_element : AccountError
  account_id_too_few_ones : ℕ → ℕ → AccountError
  asset_vault_update_error : AssetVaultError → AccountError
  -- `BuildError`, without a cause and with one.
  init_seed_not_set : AccountError
  build_error : AccountError → AccountError
  invalid_account_storage_mode : AccountError
  nonce_not_monotonically_increasing : ℕ → ℕ → AccountError
  seed_digest_too_few_trailing_zeros : ℕ → ℕ → AccountError
  storage_slot_not_map : ℕ → AccountError
  storage_slot_not_value : ℕ → AccountError
  storage_index_out_of_bounds : ℕ → ℕ → AccountError
  storage_too_many_slots : ℕ → AccountError
  storage_offset_out_of_bounds : ℕ → ℕ → AccountError
  pure_procedure_with_storage_offset : AccountError

pub data AccountDeltaError : Type 0 where
  duplicate_storage_item_update : ℕ → AccountDeltaError
  duplicate_non_fungible_vault_update : NonFungibleAsset → AccountDeltaError
  fungible_asset_delta_overflow : AccountId → ℤ → ℤ → AccountDeltaError
  incompatible_account_updates : AccountDeltaError
  inconsistent_nonce_update : AccountDeltaError
  delta_not_a_fungible_faucet_id : AccountId → AccountDeltaError

pub data NoteError : Type 0 where
  invalid_location_index : ℕ → NoteError
  duplicate_fungible_asset : AccountId → NoteError
  note_duplicate_non_fungible_asset : NonFungibleAsset → NoteError
  inconsistent_note_tag : NoteType → ℕ → NoteError
  invalid_asset_data : AssetError → NoteError
  invalid_note_sender : AccountError → NoteError
  invalid_note_tag_use_case : ℕ → NoteError
  invalid_note_execution_hint_tag : ℕ → NoteError
  invalid_note_execution_hint_payload : ℕ → ℕ → NoteError
  invalid_note_type_value : ℕ → NoteError
  network_execution_requires_on_chain_account : NoteError
  network_execution_requires_public_note : NoteType → NoteError
  public_use_case_requires_public_note : NoteType → NoteError
  too_many_assets : ℕ → NoteError
  too_many_inputs : ℕ → NoteError

pub data TransactionInputError : Type 0 where
  account_seed_not_provided_for_new_account : TransactionInputError
  account_seed_provided_for_existing_account : TransactionInputError
  duplicate_input_note : Word → TransactionInputError
  inconsistent_account_seed : AccountId → AccountId → TransactionInputError
  inconsistent_chain_length : ℕ → ℕ → TransactionInputError
  inconsistent_chain_root : Word → Word → TransactionInputError
  input_note_block_not_in_chain_mmr : Word → TransactionInputError
  input_note_not_in_block : Word → ℕ → TransactionInputError
  invalid_account_seed : AccountError → TransactionInputError
  too_many_input_notes : ℕ → ℕ → TransactionInputError

pub data TransactionOutputError : Type 0 where
  too_many_output_notes : ℕ → TransactionOutputError
  duplicate_output_note : Word → TransactionOutputError

pub data ProvenTransactionError : Type 0 where
  account_final_hash_mismatch : Word → Word → ProvenTransactionError
  account_id_mismatch : AccountId → AccountId → ProvenTransactionError
  input_notes_error : TransactionInputError → ProvenTransactionError
  output_notes_error : TransactionOutputError → ProvenTransactionError
  off_chain_account_with_details : AccountId → ProvenTransactionError
  on_chain_account_missing_details : AccountId → ProvenTransactionError
  new_on_chain_account_requires_full_details : AccountId → ProvenTransactionError
  existing_on_chain_account_requires_delta_details : AccountId → ProvenTransactionError
  account_update_size_limit_exceeded : AccountId → ℕ → ProvenTransactionError

pub data BlockError : Type 0 where
  duplicate_note_found : Word → BlockError
  too_many_account_updates : ℕ → BlockError
  too_many_notes_in_batch : ℕ → BlockError
  too_many_notes_in_block : ℕ → BlockError
  too_many_nullifiers_in_block : ℕ → BlockError
  too_many_transaction_batches : ℕ → BlockError

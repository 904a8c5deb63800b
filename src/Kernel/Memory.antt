-- ===== src/Kernel/Memory.antt =====
-- The layout of the kernel's memory: miden-lib/src/transaction/memory.rs. An address is a `u32`.
pub mod Laws
use miden_base.Base.{ℕ, ◌+◌}

abbrev pub tx_vault_root_ptr : ℕ
tx_vault_root_ptr = 0

abbrev pub current_input_note_ptr : ℕ
current_input_note_ptr = 1

abbrev pub num_output_notes_ptr : ℕ
num_output_notes_ptr = 2

abbrev pub input_vault_root_ptr : ℕ
input_vault_root_ptr = 3

abbrev pub output_vault_root_ptr : ℕ
output_vault_root_ptr = 4

abbrev pub current_account_data_ptr : ℕ
current_account_data_ptr = 5

abbrev pub new_code_root_ptr : ℕ
new_code_root_ptr = 6

abbrev pub tx_expiration_block_num_ptr : ℕ
tx_expiration_block_num_ptr = 7

abbrev pub blk_hash_ptr : ℕ
blk_hash_ptr = 100

abbrev pub acct_id_ptr : ℕ
acct_id_ptr = 101

abbrev pub init_acct_hash_ptr : ℕ
init_acct_hash_ptr = 102

abbrev pub input_notes_commitment_ptr : ℕ
input_notes_commitment_ptr = 103

abbrev pub init_nonce_ptr : ℕ
init_nonce_ptr = 104

abbrev pub tx_script_root_ptr : ℕ
tx_script_root_ptr = 105

abbrev pub prev_block_hash_ptr : ℕ
prev_block_hash_ptr = 200

abbrev pub chain_root_ptr : ℕ
chain_root_ptr = 201

abbrev pub acct_db_root_ptr : ℕ
acct_db_root_ptr = 202

abbrev pub nullifier_db_root_ptr : ℕ
nullifier_db_root_ptr = 203

abbrev pub tx_hash_ptr : ℕ
tx_hash_ptr = 204

abbrev pub kernel_root_ptr : ℕ
kernel_root_ptr = 205

abbrev pub proof_hash_ptr : ℕ
proof_hash_ptr = 206

abbrev pub block_metadata_ptr : ℕ
block_metadata_ptr = 207

abbrev pub note_root_ptr : ℕ
note_root_ptr = 208

abbrev pub chain_mmr_num_leaves_ptr : ℕ
chain_mmr_num_leaves_ptr = 300

abbrev pub chain_mmr_peaks_ptr : ℕ
chain_mmr_peaks_ptr = 301

abbrev pub num_kernel_procedures_ptr : ℕ
num_kernel_procedures_ptr = 400

abbrev pub kernel_procedures_ptr : ℕ
kernel_procedures_ptr = 401

abbrev pub native_account_data_ptr : ℕ
native_account_data_ptr = 2048

abbrev pub account_data_length : ℕ
account_data_length = 2048

abbrev pub acct_id_and_nonce_offset : ℕ
acct_id_and_nonce_offset = 0

abbrev pub native_acct_id_and_nonce_ptr : ℕ
native_acct_id_and_nonce_ptr = native_account_data_ptr + acct_id_and_nonce_offset

abbrev pub acct_vault_root_offset : ℕ
acct_vault_root_offset = 1

abbrev pub native_acct_vault_root_ptr : ℕ
native_acct_vault_root_ptr = native_account_data_ptr + acct_vault_root_offset

abbrev pub acct_storage_commitment_offset : ℕ
acct_storage_commitment_offset = 2

abbrev pub native_acct_storage_commitment_ptr : ℕ
native_acct_storage_commitment_ptr = native_account_data_ptr + acct_storage_commitment_offset

abbrev pub acct_code_commitment_offset : ℕ
acct_code_commitment_offset = 3

abbrev pub native_acct_code_commitment_ptr : ℕ
native_acct_code_commitment_ptr = native_account_data_ptr + acct_code_commitment_offset

abbrev pub num_acct_procedures_offset : ℕ
num_acct_procedures_offset = 7

abbrev pub native_num_acct_procedures_ptr : ℕ
native_num_acct_procedures_ptr = native_account_data_ptr + num_acct_procedures_offset

abbrev pub acct_procedures_section_offset : ℕ
acct_procedures_section_offset = 8

abbrev pub native_acct_procedures_section_ptr : ℕ
native_acct_procedures_section_ptr = native_account_data_ptr + acct_procedures_section_offset

abbrev pub num_acct_storage_slots_offset : ℕ
num_acct_storage_slots_offset = 521

abbrev pub native_num_acct_storage_slots_ptr : ℕ
native_num_acct_storage_slots_ptr = native_account_data_ptr + num_acct_storage_slots_offset

abbrev pub acct_storage_slots_section_offset : ℕ
acct_storage_slots_section_offset = 522

abbrev pub native_acct_storage_slots_section_ptr : ℕ
native_acct_storage_slots_section_ptr = native_account_data_ptr + acct_storage_slots_section_offset

abbrev pub note_mem_size : ℕ
note_mem_size = 512

abbrev pub input_note_section_offset : ℕ
input_note_section_offset = 1048576

abbrev pub input_note_data_section_offset : ℕ
input_note_data_section_offset = 1064960

abbrev pub input_note_id_offset : ℕ
input_note_id_offset = 0

abbrev pub input_note_serial_num_offset : ℕ
input_note_serial_num_offset = 1

abbrev pub input_note_script_root_offset : ℕ
input_note_script_root_offset = 2

abbrev pub input_note_inputs_hash_offset : ℕ
input_note_inputs_hash_offset = 3

abbrev pub input_note_assets_hash_offset : ℕ
input_note_assets_hash_offset = 4

abbrev pub input_note_metadata_offset : ℕ
input_note_metadata_offset = 5

abbrev pub input_note_args_offset : ℕ
input_note_args_offset = 6

abbrev pub input_note_num_assets_offset : ℕ
input_note_num_assets_offset = 7

abbrev pub input_note_assets_offset : ℕ
input_note_assets_offset = 8

abbrev pub output_note_section_offset : ℕ
output_note_section_offset = 4194304

abbrev pub output_note_id_offset : ℕ
output_note_id_offset = 0

abbrev pub output_note_metadata_offset : ℕ
output_note_metadata_offset = 1

abbrev pub output_note_recipient_offset : ℕ
output_note_recipient_offset = 2

abbrev pub output_note_asset_hash_offset : ℕ
output_note_asset_hash_offset = 3

abbrev pub output_note_num_assets_offset : ℕ
output_note_num_assets_offset = 4

abbrev pub output_note_assets_offset : ℕ
output_note_assets_offset = 5

-- ===== src/Kernel/Memory/Laws.antt =====
-- The sections of the kernel's memory do not overlap: miden-lib/src/transaction/memory.rs, with the
-- limits of objects/src.
use miden_base.Base.{
  ℕ, zero, suc, ◌+◌, ◌*◌, ◌^◌, ◌≤◌, ◌<◌, ◌≡◌, refl, subst, Bool, true, false, Option, some, List,
  [], ◌∷◌, if◌then◌else◌, ltb, get_elem?, arith,
}
use miden_base.Kernel.Memory.{
  tx_vault_root_ptr, current_input_note_ptr, num_output_notes_ptr, input_vault_root_ptr,
  output_vault_root_ptr, current_account_data_ptr, new_code_root_ptr, tx_expiration_block_num_ptr,
  blk_hash_ptr, acct_id_ptr, init_acct_hash_ptr, input_notes_commitment_ptr, init_nonce_ptr,
  tx_script_root_ptr, prev_block_hash_ptr, chain_root_ptr, acct_db_root_ptr, nullifier_db_root_ptr,
  tx_hash_ptr, kernel_root_ptr, proof_hash_ptr, block_metadata_ptr, note_root_ptr,
  chain_mmr_num_leaves_ptr, chain_mmr_peaks_ptr, num_kernel_procedures_ptr, kernel_procedures_ptr,
  native_acct_id_and_nonce_ptr, native_acct_vault_root_ptr, native_acct_storage_commitment_ptr,
  native_acct_code_commitment_ptr, native_num_acct_procedures_ptr,
  native_acct_procedures_section_ptr, native_num_acct_storage_slots_ptr,
  native_acct_storage_slots_section_ptr, input_note_id_offset, input_note_serial_num_offset,
  input_note_script_root_offset, input_note_inputs_hash_offset, input_note_assets_hash_offset,
  input_note_metadata_offset, input_note_args_offset, input_note_num_assets_offset,
  output_note_id_offset, output_note_metadata_offset, output_note_recipient_offset,
  output_note_asset_hash_offset, output_note_num_assets_offset, native_account_data_ptr,
  account_data_length, acct_procedures_section_offset, num_acct_storage_slots_offset,
  acct_storage_slots_section_offset, input_note_section_offset, input_note_data_section_offset,
  input_note_assets_offset, note_mem_size, output_note_section_offset, output_note_assets_offset,
}
use miden_base.Accounts.Code.{max_num_procedures}
use miden_base.Accounts.Storage.{max_num_storage_slots}
use miden_base.Notes.Assets.{max_num_assets}
use miden_base.Transactions.InputNotes.{max_input_notes_per_tx}
use miden_base.Transactions.OutputNotes.{max_output_notes_per_tx}

-- The native account is the one with number 0; there are up to 64 foreign ones.
abbrev pub account_ptr : ℕ → ℕ
account_ptr account = native_account_data_ptr + account_data_length * account

-- A procedure and a storage slot take two words each.
abbrev pub procedure_ptr : ℕ → ℕ → ℕ
procedure_ptr account i = account_ptr account + acct_procedures_section_offset + 2 * i

abbrev pub slot_ptr : ℕ → ℕ → ℕ
slot_ptr account i = account_ptr account + acct_storage_slots_section_offset + 2 * i

-- The number of input notes is followed by their nullifiers.
abbrev pub nullifier_ptr : ℕ → ℕ
nullifier_ptr i = input_note_section_offset + 1 + i

abbrev pub input_note_ptr : ℕ → ℕ
input_note_ptr i = input_note_data_section_offset + note_mem_size * i

abbrev pub output_note_ptr : ℕ → ℕ
output_note_ptr i = output_note_section_offset + note_mem_size * i

-- The procedures of an account with as many as its code may have come before the number of its
-- slots, its slots come after it, and they end before the next account, and the last of the accounts
-- before the input notes.
pub account_layout :
    (account i j : ℕ)
    → account ≤ 64
    → i < max_num_procedures
    → j < max_num_storage_slots
    → (procedure_ptr account i + 1 < account_ptr account + num_acct_storage_slots_offset)
      × (account_ptr account + num_acct_storage_slots_offset < slot_ptr account j)
      × (slot_ptr account j + 1 < account_ptr (account + 1))
      × (account_ptr (account + 1) ≤ input_note_section_offset)
account_layout account i j a p s = (omega arith, omega arith, omega arith, omega arith)

-- The nullifiers of as many input notes as a transaction may have come before their data; the assets
-- of a note end before the next note, the last input note before the output notes, and the last
-- output note within the addresses.
pub note_layout :
    (i k a : ℕ)
    → i < max_input_notes_per_tx
    → k < max_output_notes_per_tx
    → a < max_num_assets
    → (nullifier_ptr i < input_note_data_section_offset)
      × (input_note_ptr i + input_note_assets_offset + a < input_note_ptr (i + 1))
      × (input_note_ptr (i + 1) ≤ output_note_section_offset)
      × (output_note_ptr k + output_note_assets_offset + a < output_note_ptr (k + 1))
      × (output_note_ptr (k + 1) ≤ 2 ^ 32)
note_layout i k a p q r = (omega arith, omega arith, omega arith, omega arith, omega arith)

-- The addresses of single words, of the kernel's state and of the native account, in order.
abbrev fixed_addresses : List ℕ
fixed_addresses =
    tx_vault_root_ptr ∷ current_input_note_ptr ∷ num_output_notes_ptr ∷ input_vault_root_ptr
    ∷ output_vault_root_ptr ∷ current_account_data_ptr ∷ new_code_root_ptr
    ∷ tx_expiration_block_num_ptr ∷ blk_hash_ptr ∷ acct_id_ptr ∷ init_acct_hash_ptr
    ∷ input_notes_commitment_ptr ∷ init_nonce_ptr ∷ tx_script_root_ptr ∷ prev_block_hash_ptr
    ∷ chain_root_ptr ∷ acct_db_root_ptr ∷ nullifier_db_root_ptr ∷ tx_hash_ptr ∷ kernel_root_ptr
    ∷ proof_hash_ptr ∷ block_metadata_ptr ∷ note_root_ptr ∷ chain_mmr_num_leaves_ptr
    ∷ chain_mmr_peaks_ptr ∷ num_kernel_procedures_ptr ∷ kernel_procedures_ptr
    ∷ native_acct_id_and_nonce_ptr ∷ native_acct_vault_root_ptr ∷ native_acct_storage_commitment_ptr
    ∷ native_acct_code_commitment_ptr ∷ native_num_acct_procedures_ptr
    ∷ native_acct_procedures_section_ptr ∷ native_num_acct_storage_slots_ptr
    ∷ native_acct_storage_slots_section_ptr ∷ input_note_section_offset ∷ []

-- The parts of an input note's data and of an output note's, and the end of the data.
abbrev pub input_note_parts : List ℕ
input_note_parts =
    input_note_id_offset ∷ input_note_serial_num_offset ∷ input_note_script_root_offset
    ∷ input_note_inputs_hash_offset ∷ input_note_assets_hash_offset ∷ input_note_metadata_offset
    ∷ input_note_args_offset ∷ input_note_num_assets_offset ∷ input_note_assets_offset
    ∷ note_mem_size ∷ []

abbrev pub output_note_parts : List ℕ
output_note_parts =
    output_note_id_offset ∷ output_note_metadata_offset ∷ output_note_recipient_offset
    ∷ output_note_asset_hash_offset ∷ output_note_num_assets_offset ∷ output_note_assets_offset
    ∷ note_mem_size ∷ []

abbrev increasing : List ℕ → Bool
increasing [] = true
increasing (a ∷ []) = true
increasing (a ∷ b ∷ l) = if ltb a b then increasing (b ∷ l) else false

some_injective : {l m : List ℕ} → ◌≡◌ {A = Option (List ℕ)} (some l) (some m) → l ≡ m
some_injective h = cc

-- An increasing list is increasing from its head on.
increasing-head :
    (a : ℕ) (l : List ℕ) (j b : ℕ) → increasing (a ∷ l) ≡ true → get_elem? l j ≡ some b → a < b
increasing-head a [] j b h e = absurd (cc)
increasing-head a (c ∷ l) zero b h e = ground arith
increasing-head a (c ∷ l) (suc j) b h e =
    let later : c < b = increasing-head c l j b (ground arith) e in ground arith

increasing-get_elem? :
    (l : List ℕ) (i j a b : ℕ)
    → increasing l ≡ true
    → i < j
    → get_elem? l i ≡ some a
    → get_elem? l j ≡ some b
    → a < b
increasing-get_elem? [] i j a b h lt e f = absurd (cc)
increasing-get_elem? (c ∷ l) i zero a b h lt e f = absurd (omega arith)
increasing-get_elem? (c ∷ l) zero (suc j) a b h lt e f =
    let is : c ≡ a = ground arith in subst (λ n. n < b) is (increasing-head c l j b h f)
increasing-get_elem? (c ∷ []) (suc i) (suc j) a b h lt e f = absurd (cc)
increasing-get_elem? (c ∷ d ∷ l) (suc i) (suc j) a b h lt e f =
    increasing-get_elem? (d ∷ l) i j a b (ground arith) (omega arith) e f

abbrev pub layouts : List (List ℕ)
layouts = fixed_addresses ∷ input_note_parts ∷ output_note_parts ∷ []

layouts-increasing : (k : ℕ) (l : List ℕ) → get_elem? layouts k ≡ some l → increasing l ≡ true
layouts-increasing zero l e = subst (λ (m : List ℕ). increasing m ≡ true) (some_injective e) refl
layouts-increasing (suc zero) l e =
    subst (λ (m : List ℕ). increasing m ≡ true) (some_injective e) refl
layouts-increasing (suc (suc zero)) l e =
    subst (λ (m : List ℕ). increasing m ≡ true) (some_injective e) refl
layouts-increasing (suc (suc (suc k))) l e = absurd (cc)

-- No two words at fixed addresses share one, and all of these come before the input notes; and the
-- parts of an input note's data, and of an output note's, come one after the other and end within the
-- data.
layouts_increase :
    (k i j a b : ℕ) (l : List ℕ)
    → get_elem? layouts k ≡ some l
    → i < j
    → get_elem? l i ≡ some a
    → get_elem? l j ≡ some b
    → a < b
layouts_increase k i j a b l is lt e f =
    increasing-get_elem? l i j a b (layouts-increasing k l is) lt e f

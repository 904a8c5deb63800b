-- ===== src/Host/Procedures.antt =====
-- `AccountProcedureIndexMap`: miden-tx/src/host/account_procs.rs.
pub mod Laws
use miden_base.Base.{
  ℕ, suc, ◌+◌, ◌/◌, ◌%◌, ◌^◌, Bool, true, false, Option, none, some, List, [], ◌∷◌, not, ltb, leb,
  ◌==◌, if◌then◌else◌, Result, ok, err, panic, fail_if, ok_or, expect, map_err, ◌>>=◌, length,
}
use miden_base.Base.Words.{Felt, Word, Digest}
use miden_base.Base.Maps.{Map, Key, lookup, insert}
use miden_base.Kernel.Errors.{
  TransactionKernelError, TransactionHostError, failed_to_read_account_procedure_data,
  account_code_without_procedures, account_procedure_data_of_invalid_length,
  account_code_of_too_many_procedures, failed_to_create_account_procedure_info,
  unknown_account_procedure, unknown_code_commitment,
}
use miden_base.Kernel.Memory.{current_account_data_ptr, acct_code_commitment_offset}
use miden_base.Accounts.Code.{procedure_try_from_elements, max_num_procedures}
use miden_base.Host.Process.{ProcessState, AdviceProvider}

abbrev pub AccountProcedureIndexMap : Type 0
AccountProcedureIndexMap = Map Digest (Map Digest ℕ)

-- `NUM_ELEMENTS_PER_PROC`
abbrev pub num_elements_per_proc : ℕ
num_elements_per_proc = 8

-- The chunks of eight elements, each as two words.
unfoldable pub chunks : List Felt → List (Word × Word)
chunks (a0 ∷ a1 ∷ a2 ∷ a3 ∷ b0 ∷ b1 ∷ b2 ∷ b3 ∷ elements) =
    (record { e0 = a0; e1 = a1; e2 = a2; e3 = a3 }, record { e0 = b0; e1 = b1; e2 = b2; e3 = b3 })
    ∷ chunks elements
chunks _ = []

abbrev pub is_empty : List Felt → Bool
is_empty [] = true
is_empty (_ ∷ _) = false

module _ ⦃D : Key Digest⦄ where
  -- The loop over the chunks; an index is a `u8`.
  unfoldable pub insert_procedures :
      ℕ → List (Word × Word) → Map Digest ℕ → Result TransactionHostError (Map Digest ℕ)
  unfolding procedure_try_from_elements
  insert_procedures proc_idx [] account_procs_map = ok account_procs_map
  insert_procedures proc_idx (proc_info ∷ proc_infos) account_procs_map = do
    procedure ←
        map_err failed_to_create_account_procedure_info (procedure_try_from_elements proc_info)
    if ltb proc_idx (2 ^ 8)
        then insert_procedures (suc proc_idx) proc_infos
            (insert procedure.mast_root proc_idx account_procs_map)
        else panic

  -- What `build_account_procedure_map` does with the data it has read.
  unfoldable pub index_procedures : List Felt → Result TransactionHostError (Map Digest ℕ)
  unfolding insert_procedures chunks
  index_procedures proc_data = fail_if (is_empty proc_data) account_code_without_procedures (
      fail_if (not (length proc_data % num_elements_per_proc == 0))
        account_procedure_data_of_invalid_length
        (fail_if (ltb max_num_procedures (length proc_data / num_elements_per_proc))
          account_code_of_too_many_procedures (insert_procedures 0 (chunks proc_data) [])))

  module _ {A : Type 0} ⦃P : AdviceProvider A⦄ where
    unfoldable pub build_account_procedure_map :
        Digest → A → Result TransactionHostError (Map Digest ℕ)
    unfolding index_procedures
    build_account_procedure_map code_commitment adv_provider = do
      proc_data ←
          ok_or (P.get_mapped_values adv_provider code_commitment)
            failed_to_read_account_procedure_data
      index_procedures proc_data

    -- The loop of `AccountProcedureIndexMap::new`.
    unfoldable pub index_accounts :
        List Digest
        → A
        → AccountProcedureIndexMap
        → Result TransactionHostError AccountProcedureIndexMap
    unfolding build_account_procedure_map
    index_accounts [] adv_provider result = ok result
    index_accounts (code_commitment ∷ commitments) adv_provider result = do
      account_procs_map ← build_account_procedure_map code_commitment adv_provider
      index_accounts commitments adv_provider (insert code_commitment account_procs_map result)

    -- `AccountProcedureIndexMap::new`
    unfoldable pub new : List Digest → A → Result TransactionHostError AccountProcedureIndexMap
    unfolding index_accounts
    new account_code_commitments adv_provider =
        index_accounts account_code_commitments adv_provider []

  -- The address of the code commitment of the current account, a `u32`.
  abbrev code_commitment_address : Felt → Result TransactionKernelError ℕ
  code_commitment_address curr_data_ptr =
      let address = curr_data_ptr % 2 ^ 32 + acct_code_commitment_offset in
      if ltb address (2 ^ 32) then ok address else panic

  abbrev pub current_code_commitment : ProcessState → Result TransactionKernelError Digest
  current_code_commitment process = do
    word ← expect (process.get_mem_value process.ctx current_account_data_ptr)
    address ← code_commitment_address word.e0
    expect (process.get_mem_value process.ctx address)

  unfoldable pub get_proc_index :
      AccountProcedureIndexMap → ProcessState → Result TransactionKernelError ℕ
  get_proc_index self process = do
    code_commitment ← current_code_commitment process
    procedures ← ok_or (lookup code_commitment self) (unknown_code_commitment code_commitment)
    ok_or (lookup (process.get_stack_word 0) procedures)
        (unknown_account_procedure (process.get_stack_word 0))

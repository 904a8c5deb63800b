-- ===== src/Kernel/Errors.antt =====
-- Errors of the handlers of kernel events: miden-lib/src/transaction/errors.rs, and of the host:
-- miden-tx/src/errors. `ExecutionError` belongs to the VM; of it stand here the variants that the
-- host returns, with the error that a message shows in place of the message.
use miden_base.Base.{ℕ, Option, List}
use miden_base.Base.Words.{Felt, Digest}
use miden_base.Errors.{AssetError, NoteError, AccountError, AccountDeltaError}
use miden_base.Notes.Metadata.{NoteMetadata}
use miden_base.Kernel.Events.{
  TransactionEvent, TransactionEventParsingError, TransactionTraceParsingError,
}

pub data TransactionKernelError : Type 0 where
  account_delta_error : AccountDeltaError → TransactionKernelError
  failed_to_add_asset_to_note : NoteError → TransactionKernelError
  invalid_note_inputs : Digest → Digest → Option (List Felt) → TransactionKernelError
  invalid_storage_slot_index : ℕ → ℕ → TransactionKernelError
  malformed_asset : AssetError → TransactionKernelError
  malformed_asset_on_account_vault_update : AssetError → TransactionKernelError
  malformed_note_inputs : NoteError → TransactionKernelError
  malformed_note_metadata : NoteError → TransactionKernelError
  malformed_note_script : List Felt → TransactionKernelError
  malformed_recipient_data : List Felt → TransactionKernelError
  missing_note : ℕ → TransactionKernelError
  missing_note_details : NoteMetadata → Digest → TransactionKernelError
  missing_note_inputs : TransactionKernelError
  too_few_elements_for_note_inputs : TransactionKernelError
  unknown_account_procedure : Digest → TransactionKernelError
  unknown_code_commitment : Digest → TransactionKernelError
  missing_memory_value : ℕ → TransactionKernelError

-- What `TransactionHostError::AccountProcedureIndexMapError` says.
pub data TransactionHostError : Type 0 where
  failed_to_read_account_procedure_data : TransactionHostError
  account_code_without_procedures : TransactionHostError
  account_procedure_data_of_invalid_length : TransactionHostError
  account_code_of_too_many_procedures : TransactionHostError
  failed_to_create_account_procedure_info : AccountError → TransactionHostError

pub data EventMessage : Type 0 where
  not_an_event : TransactionEventParsingError → EventMessage
  not_a_trace : TransactionTraceParsingError → EventMessage
  outside_root_context : TransactionEvent → EventMessage
  failed_handler : TransactionKernelError → EventMessage

pub data SignatureMessage : Type 0 where
  no_authenticator_assigned : SignatureMessage
  error_generating_signature : SignatureMessage

pub data ExecutionError : Type 0 where
  event_error : EventMessage → ExecutionError
  failed_signature_generation : SignatureMessage → ExecutionError
  memory_address_out_of_bounds : ℕ → ExecutionError
  advice_error : ExecutionError

-- ===== src/Host/Events.antt =====
-- The events and traces that the kernel emits: `on_event` and `on_trace` of miden-tx/src/host/mod.rs.
pub mod Frames
pub mod Outputs
pub mod Runs
pub mod Replay
pub mod Traces
use miden_base.Base.{
  ℕ, Option, none, some, List, not, ltb, ◌==◌, if◌then◌else◌, Result, ok, err, panic, fail_if,
  ok_or, expect, map_err, Method, then_do, ◌>>=◌, ◌^◌,
}
use miden_base.Base.Words.{Felt, Field, Word, Digest}
use miden_base.Base.Hashing.{Hasher}
use miden_base.Base.Maps.{Key}
use miden_base.Kernel.Errors.{
  TransactionKernelError, ExecutionError, event_error, memory_address_out_of_bounds, not_an_event,
  not_a_trace, outside_root_context, failed_handler,
}
use miden_base.Kernel.Events.{
  TransactionEvent, account_vault_before_add_asset, account_vault_after_add_asset,
  account_vault_before_remove_asset, account_vault_after_remove_asset,
  account_storage_before_set_item, account_storage_after_set_item,
  account_storage_before_set_map_item, account_storage_after_set_map_item,
  account_before_increment_nonce, account_after_increment_nonce, account_push_procedure_index,
  note_before_created, note_after_created, note_before_add_asset, note_after_add_asset,
  event_try_from, TransactionTrace, prologue_start, prologue_end, notes_processing_start,
  notes_processing_end, note_execution_start, note_execution_end, tx_script_processing_start,
  tx_script_processing_end, epilogue_start, epilogue_end, trace_try_from,
}
use miden_base.Kernel.Memory.{current_input_note_ptr}
use miden_base.Assets.Data.{NonFungibleAsset}
use miden_base.Host.Process.{ProcessState, AdviceProvider}
use miden_base.Host.Progress as Progress
use miden_base.Host.State.{TransactionHost, Handler}
use miden_base.Host.AccountHandlers as Accounts
use miden_base.Host.NoteHandlers as Notes
use miden_base.Host.Signatures as Signatures

abbrev address_of : Felt → Result ExecutionError ℕ
address_of felt = if ltb felt (2 ^ 32) then ok felt else err (memory_address_out_of_bounds felt)

-- The note at the address that the word holds.
abbrev note_at : ProcessState → Option Word → Result ExecutionError (Option Digest)
note_at process none = ok none
note_at process (some word) = do
  address ← address_of word.e0
  ok (if address == 0 then none else process.get_mem_value process.ctx address)

unfoldable pub get_current_note_id : ProcessState → Result ExecutionError (Option Digest)
get_current_note_id process =
    note_at process (process.get_mem_value process.ctx current_input_note_ptr)

module _ {A : Type 0} where
  abbrev on_progress :
      (Progress.TransactionProgress → Progress.TransactionProgress)
      → TransactionHost A
      → Result ExecutionError (Unit {0}) × TransactionHost A
  on_progress f self = (ok tt, record self { tx_progress = f self.tx_progress })

  -- The match of `on_trace`.
  unfoldable pub handle_trace :
      TransactionTrace → ProcessState → Method (TransactionHost A) ExecutionError (Unit {0})
  unfolding get_current_note_id Progress.start_prologue Progress.end_prologue
      Progress.start_notes_processing Progress.end_notes_processing Progress.start_note_execution
      Progress.end_note_execution Progress.start_tx_script_processing
      Progress.end_tx_script_processing Progress.start_epilogue Progress.end_epilogue
  handle_trace prologue_start process self = on_progress (Progress.start_prologue process.clk) self
  handle_trace prologue_end process self = on_progress (Progress.end_prologue process.clk) self
  handle_trace notes_processing_start process self =
      on_progress (Progress.start_notes_processing process.clk) self
  handle_trace notes_processing_end process self =
      on_progress (Progress.end_notes_processing process.clk) self
  handle_trace note_execution_start process self =
      then_do ((do note_id ← get_current_note_id process; expect note_id), self)
        (λ note_id self'. on_progress (Progress.start_note_execution process.clk note_id) self')
  handle_trace note_execution_end process self =
      on_progress (Progress.end_note_execution process.clk) self
  handle_trace tx_script_processing_start process self =
      on_progress (Progress.start_tx_script_processing process.clk) self
  handle_trace tx_script_processing_end process self =
      on_progress (Progress.end_tx_script_processing process.clk) self
  handle_trace epilogue_start process self = on_progress (Progress.start_epilogue process.clk) self
  handle_trace epilogue_end process self = on_progress (Progress.end_epilogue process.clk) self

  unfoldable pub on_trace : ProcessState → ℕ → Method (TransactionHost A) ExecutionError (Unit {0})
  unfolding handle_trace trace_try_from
  on_trace process trace_id self =
      then_do (map_err (λ e. event_error (not_a_trace e)) (trace_try_from trace_id), self)
        (λ event self'. handle_trace event process self')

  abbrev pub as_event_error :
      Result TransactionKernelError (Unit {0}) × TransactionHost A
      → Result ExecutionError (Unit {0}) × TransactionHost A
  as_event_error (r, self) = (map_err (λ e. event_error (failed_handler e)) r, self)

  module _ ⦃F : Field⦄ ⦃H : Hasher⦄ ⦃D : Key Digest⦄ ⦃N : Key NonFungibleAsset⦄
      ⦃P : AdviceProvider A⦄ (felt_add : Felt → Felt → Felt)
      (read_script : List Felt → Option Digest) where
    -- The match of `on_event`.
    unfoldable pub handle : TransactionEvent → Handler (TransactionHost A)
    unfolding Accounts.on_account_vault_after_add_asset Accounts.on_account_vault_after_remove_asset
        Accounts.on_account_storage_after_set_item Accounts.on_account_storage_after_set_map_item
        Accounts.on_account_before_increment_nonce Signatures.on_account_push_procedure_index
        Notes.on_note_after_created Notes.on_note_before_add_asset
    handle account_vault_before_add_asset process self = (ok tt, self)
    handle account_vault_after_add_asset process self =
        Accounts.on_account_vault_after_add_asset process self
    handle account_vault_before_remove_asset process self = (ok tt, self)
    handle account_vault_after_remove_asset process self =
        Accounts.on_account_vault_after_remove_asset process self
    handle account_storage_before_set_item process self = (ok tt, self)
    handle account_storage_after_set_item process self =
        Accounts.on_account_storage_after_set_item process self
    handle account_storage_before_set_map_item process self = (ok tt, self)
    handle account_storage_after_set_map_item process self =
        Accounts.on_account_storage_after_set_map_item process self
    handle account_before_increment_nonce process self =
        Accounts.on_account_before_increment_nonce felt_add process self
    handle account_after_increment_nonce process self = (ok tt, self)
    handle account_push_procedure_index process self =
        Signatures.on_account_push_procedure_index process self
    handle note_before_created process self = (ok tt, self)
    handle note_after_created process self = Notes.on_note_after_created read_script process self
    handle note_before_add_asset process self = Notes.on_note_before_add_asset process self
    handle note_after_add_asset process self = (ok tt, self)

    -- What `on_event` does with an event that it has read.
    unfoldable pub dispatch :
        ProcessState → TransactionEvent → Method (TransactionHost A) ExecutionError (Unit {0})
    unfolding handle
    dispatch process event self =
        if not (process.ctx == 0)
        then (err (event_error (outside_root_context event)), self)
        else as_event_error (handle event process self)

    unfoldable pub on_event :
        ProcessState → ℕ → Method (TransactionHost A) ExecutionError (Unit {0})
    unfolding dispatch event_try_from
    on_event process event_id self =
        then_do (map_err (λ e. event_error (not_an_event e)) (event_try_from event_id), self)
          (λ event self'. dispatch process event self')

-- ===== src/Kernel/Events/Laws.antt =====
-- Events and traces are read back from their identifiers: miden-lib/src/transaction/events.rs.
use miden_base.Base.{ℕ, ◌≡◌, ◌↔◌, refl, not, arith, ◌==◌, ok, fail_if-eq-ok}
use miden_base.Base.Bits.{◌>>◌}
use miden_base.Kernel.Events.{
  TransactionEvent, account_vault_before_add_asset, account_vault_after_add_asset,
  account_vault_before_remove_asset, account_vault_after_remove_asset,
  account_storage_before_set_item, account_storage_after_set_item,
  account_storage_before_set_map_item, account_storage_after_set_map_item,
  account_before_increment_nonce, account_after_increment_nonce, account_push_procedure_index,
  note_before_created, note_after_created, note_before_add_asset, note_after_add_asset, event_id,
  event_try_from, match_event, TransactionTrace, prologue_start, prologue_end,
  notes_processing_start, notes_processing_end, note_execution_start, note_execution_end,
  tx_script_processing_start, tx_script_processing_end, epilogue_start, epilogue_end, trace_id,
  trace_try_from, match_trace,
}

event_try_from-event_id : (e : TransactionEvent) → event_try_from (event_id e) ≡ ok e
unfolding event_try_from event_id
event_try_from-event_id account_vault_before_add_asset = refl
event_try_from-event_id account_vault_after_add_asset = refl
event_try_from-event_id account_vault_before_remove_asset = refl
event_try_from-event_id account_vault_after_remove_asset = refl
event_try_from-event_id account_storage_before_set_item = refl
event_try_from-event_id account_storage_after_set_item = refl
event_try_from-event_id account_storage_before_set_map_item = refl
event_try_from-event_id account_storage_after_set_map_item = refl
event_try_from-event_id account_before_increment_nonce = refl
event_try_from-event_id account_after_increment_nonce = refl
event_try_from-event_id account_push_procedure_index = refl
event_try_from-event_id note_before_created = refl
event_try_from-event_id note_after_created = refl
event_try_from-event_id note_before_add_asset = refl
event_try_from-event_id note_after_add_asset = refl

event_id_of : (v : ℕ) (e : TransactionEvent) → match_event v ≡ ok e → v ≡ event_id e
unfolding match_event event_id
event_id_of v e h = ground arith

-- A number is read as an event exactly if it is the event's identifier, so that no two events share
-- one and every other number is an error.
pub event_try_from_lem :
    (v : ℕ) (e : TransactionEvent) → (event_try_from v ≡ ok e) ↔ (v ≡ event_id e)
unfolding event_try_from
event_try_from_lem v e = (
  λ h. event_id_of v e (fail_if-eq-ok (not (v >> 16 == 2)) _ (match_event v) h).1,
  λ is. rw is (event_try_from-event_id e),
)

pub trace_try_from-trace_id : (t : TransactionTrace) → trace_try_from (trace_id t) ≡ ok t
unfolding trace_try_from trace_id
trace_try_from-trace_id prologue_start = refl
trace_try_from-trace_id prologue_end = refl
trace_try_from-trace_id notes_processing_start = refl
trace_try_from-trace_id notes_processing_end = refl
trace_try_from-trace_id note_execution_start = refl
trace_try_from-trace_id note_execution_end = refl
trace_try_from-trace_id tx_script_processing_start = refl
trace_try_from-trace_id tx_script_processing_end = refl
trace_try_from-trace_id epilogue_start = refl
trace_try_from-trace_id epilogue_end = refl

trace_id_of : (v : ℕ) (t : TransactionTrace) → match_trace v ≡ ok t → v ≡ trace_id t
unfolding match_trace trace_id
trace_id_of v t h = ground arith

-- The same of traces.
trace_try_from_lem : (v : ℕ) (t : TransactionTrace) → (trace_try_from v ≡ ok t) ↔ (v ≡ trace_id t)
unfolding trace_try_from
trace_try_from_lem v t = (
  λ h. trace_id_of v t (fail_if-eq-ok (not (v >> 16 == 2)) _ (match_trace v) h).1,
  λ is. rw is (trace_try_from-trace_id t),
)

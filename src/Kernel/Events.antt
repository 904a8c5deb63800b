-- ===== src/Kernel/Events.antt =====
-- `TransactionEvent` and `TransactionTrace`: miden-lib/src/transaction/events.rs.
pub mod Laws
use miden_base.Base.{ℕ, not, ◌==◌, if◌then◌else◌, Result, ok, err, fail_if}
use miden_base.Base.Bits.{◌>>◌}

-- `EVENT_ID_PREFIX`
abbrev pub event_id_prefix : ℕ
event_id_prefix = 2

pub data TransactionEvent : Type 0 where
  account_vault_before_add_asset : TransactionEvent
  account_vault_after_add_asset : TransactionEvent
  account_vault_before_remove_asset : TransactionEvent
  account_vault_after_remove_asset : TransactionEvent
  account_storage_before_set_item : TransactionEvent
  account_storage_after_set_item : TransactionEvent
  account_storage_before_set_map_item : TransactionEvent
  account_storage_after_set_map_item : TransactionEvent
  account_before_increment_nonce : TransactionEvent
  account_after_increment_nonce : TransactionEvent
  account_push_procedure_index : TransactionEvent
  note_before_created : TransactionEvent
  note_after_created : TransactionEvent
  note_before_add_asset : TransactionEvent
  note_after_add_asset : TransactionEvent

-- The discriminant.
unfoldable pub event_id : TransactionEvent → ℕ
event_id account_vault_before_add_asset = 131072
event_id account_vault_after_add_asset = 131073
event_id account_vault_before_remove_asset = 131074
event_id account_vault_after_remove_asset = 131075
event_id account_storage_before_set_item = 131076
event_id account_storage_after_set_item = 131077
event_id account_storage_before_set_map_item = 131078
event_id account_storage_after_set_map_item = 131079
event_id account_before_increment_nonce = 131080
event_id account_after_increment_nonce = 131081
event_id account_push_procedure_index = 131082
event_id note_before_created = 131083
event_id note_after_created = 131084
event_id note_before_add_asset = 131085
event_id note_after_add_asset = 131086

pub data TransactionEventParsingError : Type 0 where
  not_transaction_event : ℕ → TransactionEventParsingError
  invalid_transaction_event : ℕ → TransactionEventParsingError

-- The match on the value.
unfoldable pub match_event : ℕ → Result TransactionEventParsingError TransactionEvent
match_event value =
    if value == 131072
    then ok account_vault_before_add_asset
    else if value == 131073
    then ok account_vault_after_add_asset
    else if value == 131074
    then ok account_vault_before_remove_asset
    else if value == 131075
    then ok account_vault_after_remove_asset
    else if value == 131076
    then ok account_storage_before_set_item
    else if value == 131077
    then ok account_storage_after_set_item
    else if value == 131078
    then ok account_storage_before_set_map_item
    else if value == 131079
    then ok account_storage_after_set_map_item
    else if value == 131080
    then ok account_before_increment_nonce
    else if value == 131081
    then ok account_after_increment_nonce
    else if value == 131082
    then ok account_push_procedure_index
    else if value == 131083
    then ok note_before_created
    else if value == 131084
    then ok note_after_created
    else if value == 131085
    then ok note_before_add_asset
    else if value == 131086
    then ok note_after_add_asset
    else err (invalid_transaction_event value)

-- `TryFrom<u32> for TransactionEvent`
unfoldable pub event_try_from : ℕ → Result TransactionEventParsingError TransactionEvent
unfolding match_event
event_try_from value =
    fail_if (not (value >> 16 == event_id_prefix)) (not_transaction_event value) (match_event value)

pub data TransactionTrace : Type 0 where
  prologue_start : TransactionTrace
  prologue_end : TransactionTrace
  notes_processing_start : TransactionTrace
  notes_processing_end : TransactionTrace
  note_execution_start : TransactionTrace
  note_execution_end : TransactionTrace
  tx_script_processing_start : TransactionTrace
  tx_script_processing_end : TransactionTrace
  epilogue_start : TransactionTrace
  epilogue_end : TransactionTrace

-- The discriminant.
unfoldable pub trace_id : TransactionTrace → ℕ
trace_id prologue_start = 131072
trace_id prologue_end = 131073
trace_id notes_processing_start = 131074
trace_id notes_processing_end = 131075
trace_id note_execution_start = 131076
trace_id note_execution_end = 131077
trace_id tx_script_processing_start = 131078
trace_id tx_script_processing_end = 131079
trace_id epilogue_start = 131080
trace_id epilogue_end = 131081

pub data TransactionTraceParsingError : Type 0 where
  not_transaction_trace : ℕ → TransactionTraceParsingError
  invalid_transaction_trace : ℕ → TransactionTraceParsingError

-- The match on the value.
unfoldable pub match_trace : ℕ → Result TransactionTraceParsingError TransactionTrace
match_trace value =
    if value == 131072
    then ok prologue_start
    else if value == 131073
    then ok prologue_end
    else if value == 131074
    then ok notes_processing_start
    else if value == 131075
    then ok notes_processing_end
    else if value == 131076
    then ok note_execution_start
    else if value == 131077
    then ok note_execution_end
    else if value == 131078
    then ok tx_script_processing_start
    else if value == 131079
    then ok tx_script_processing_end
    else if value == 131080
    then ok epilogue_start
    else if value == 131081
    then ok epilogue_end
    else err (invalid_transaction_trace value)

-- `TryFrom<u32> for TransactionTrace`
unfoldable pub trace_try_from : ℕ → Result TransactionTraceParsingError TransactionTrace
unfolding match_trace
trace_try_from value =
    fail_if (not (value >> 16 == event_id_prefix)) (not_transaction_trace value) (match_trace value)

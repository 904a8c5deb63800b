-- ===== src/Host/Progress.antt =====
-- `TransactionProgress`: miden-tx/src/host/tx_progress.rs. The cycle counters that the host moves on
-- the kernel's trace events.
pub mod Laws
use miden_base.Base.{ℕ, ◌-◌, Option, none, some, List, [], ◌∷◌, ◌++◌, map, leb, if◌then◌else◌}
use miden_base.Base.Words.{Digest}

-- `RowIndex`
abbrev pub RowIndex : Type 0
RowIndex = ℕ

pub record CycleInterval : Type 0 where
  pub start : Option RowIndex
  pub end : Option RowIndex

-- `CycleInterval::new`
abbrev pub interval_new : RowIndex → CycleInterval
interval_new start = record { start = some start; end = none }

unfoldable pub set_start : RowIndex → CycleInterval → CycleInterval
set_start s self = record self { start = some s }

unfoldable pub set_end : RowIndex → CycleInterval → CycleInterval
set_end e self = record self { end = some e }

abbrev between : Option RowIndex → Option RowIndex → ℕ
between (some start) (some end) = if leb start end then end - start else 0
between (some start) none = 0
between none end = 0

-- `CycleInterval::len`
unfoldable pub interval_len : CycleInterval → ℕ
interval_len self = between self.start self.end

pub record TransactionProgress : Type 0 where
  pub prologue : CycleInterval
  pub notes_processing : CycleInterval
  pub note_execution : List (Digest × CycleInterval)
  pub tx_script_processing : CycleInterval
  pub epilogue : CycleInterval

unfoldable pub start_prologue : RowIndex → TransactionProgress → TransactionProgress
unfolding set_start
start_prologue cycle self = record self { prologue = set_start cycle self.prologue }

unfoldable pub end_prologue : RowIndex → TransactionProgress → TransactionProgress
unfolding set_end
end_prologue cycle self = record self { prologue = set_end cycle self.prologue }

unfoldable pub start_notes_processing : RowIndex → TransactionProgress → TransactionProgress
unfolding set_start
start_notes_processing cycle self = record self {
  notes_processing = set_start cycle self.notes_processing;
}

unfoldable pub end_notes_processing : RowIndex → TransactionProgress → TransactionProgress
unfolding set_end
end_notes_processing cycle self = record self {
  notes_processing = set_end cycle self.notes_processing;
}

unfoldable pub start_note_execution : RowIndex → Digest → TransactionProgress → TransactionProgress
start_note_execution cycle note_id self = record self {
  note_execution = self.note_execution ++ ((note_id, interval_new cycle) ∷ []);
}

-- `last_mut`, and `set_end` on what it finds.
unfoldable pub end_last : RowIndex → List (Digest × CycleInterval) → List (Digest × CycleInterval)
unfolding set_end
end_last cycle [] = []
end_last cycle ((id, interval) ∷ []) = (id, set_end cycle interval) ∷ []
end_last cycle (first ∷ second ∷ rest) = first ∷ end_last cycle (second ∷ rest)

unfoldable pub end_note_execution : RowIndex → TransactionProgress → TransactionProgress
unfolding end_last
end_note_execution cycle self = record self { note_execution = end_last cycle self.note_execution }

unfoldable pub start_tx_script_processing : RowIndex → TransactionProgress → TransactionProgress
unfolding set_start
start_tx_script_processing cycle self = record self {
  tx_script_processing = set_start cycle self.tx_script_processing;
}

unfoldable pub end_tx_script_processing : RowIndex → TransactionProgress → TransactionProgress
unfolding set_end
end_tx_script_processing cycle self = record self {
  tx_script_processing = set_end cycle self.tx_script_processing;
}

unfoldable pub start_epilogue : RowIndex → TransactionProgress → TransactionProgress
unfolding set_start
start_epilogue cycle self = record self { epilogue = set_start cycle self.epilogue }

unfoldable pub end_epilogue : RowIndex → TransactionProgress → TransactionProgress
unfolding set_end
end_epilogue cycle self = record self { epilogue = set_end cycle self.epilogue }

-- `TransactionMeasurements`
pub record TransactionMeasurements : Type 0 where
  pub prologue : ℕ
  pub notes_processing : ℕ
  pub note_execution : List (Digest × ℕ)
  pub tx_script_processing : ℕ
  pub epilogue : ℕ

unfoldable pub measure_notes : List (Digest × CycleInterval) → List (Digest × ℕ)
unfolding interval_len
measure_notes [] = []
measure_notes ((id, interval) ∷ notes) = (id, interval_len interval) ∷ measure_notes notes

-- `From<TransactionProgress> for TransactionMeasurements`
unfoldable pub measurements : TransactionProgress → TransactionMeasurements
unfolding interval_len measure_notes
measurements tx_progress = record {
  prologue = interval_len tx_progress.prologue;
  notes_processing = interval_len tx_progress.notes_processing;
  note_execution = measure_notes tx_progress.note_execution;
  tx_script_processing = interval_len tx_progress.tx_script_processing;
  epilogue = interval_len tx_progress.epilogue;
}

-- ===== src/Host/Events/Traces.antt =====
-- The measurements of a transaction from the kernel's traces: miden-tx/src/host/mod.rs.
use miden_base.Base.{ℕ, ◌≡◌, refl, ap, ◌∙◌, List, [], ◌∷◌, ◌++◌, some, ok, Method, then_do}
use miden_base.Base.Words.{Digest}
use miden_base.Kernel.Errors.{ExecutionError}
use miden_base.Kernel.Events.{trace_id, note_execution_start, note_execution_end}
use miden_base.Kernel.Events.Laws.{trace_try_from-trace_id}
use miden_base.Host.Process.{ProcessState}
use miden_base.Host.Progress.{start_note_execution, end_note_execution, measure_notes}
use miden_base.Host.Progress.Laws.{Execution, InOrder, execute, cycles, measure_notes-execute}
use miden_base.Host.State.{TransactionHost}
use miden_base.Host.Events.{on_trace, handle_trace, get_current_note_id}

-- The execution of a note: the states in which its traces are emitted, and the note.
pub record NoteRun : Type 0 where
  pub before : ProcessState
  pub after : ProcessState
  pub note_id : Digest
  pub current : get_current_note_id before ≡ ok (some note_id)

abbrev pub executions : List NoteRun → List Execution
executions [] = []
executions (x ∷ xs) =
    record { note_id = x.note_id; started = x.before.clk; ended = x.after.clk } ∷ executions xs

-- The two traces of each note, in order.
abbrev pub note_traces : List NoteRun → List (ProcessState × ℕ)
note_traces [] = []
note_traces (x ∷ xs) =
    (x.before, trace_id note_execution_start)
    ∷ (x.after, trace_id note_execution_end)
    ∷ note_traces xs

module _ {A : Type 0} where
  abbrev pub run_traces :
      List (ProcessState × ℕ) → Method (TransactionHost A) ExecutionError (Unit {0})
  run_traces [] self = (ok tt, self)
  run_traces ((process, id) ∷ traces) self =
      then_do (on_trace process id self) (λ _ self'. run_traces traces self')

  started :
      (x : NoteRun) (self : TransactionHost A)
      → on_trace x.before (trace_id note_execution_start) self ≡ (
        ok tt,
        record self { tx_progress = start_note_execution x.before.clk x.note_id self.tx_progress },
      )
  unfolding on_trace handle_trace
  started x self = rw (trace_try_from-trace_id note_execution_start, x.current) refl

  ended :
      (x : NoteRun) (self : TransactionHost A)
      → on_trace x.after (trace_id note_execution_end) self
        ≡ (ok tt, record self { tx_progress = end_note_execution x.after.clk self.tx_progress })
  unfolding on_trace handle_trace
  ended x self = rw (trace_try_from-trace_id note_execution_end) refl

  traced :
      (xs : List NoteRun) (self : TransactionHost A)
      → run_traces (note_traces xs) self
        ≡ (ok tt, record self { tx_progress = execute (executions xs) self.tx_progress })
  traced [] self = refl
  traced (x ∷ xs) self = rw (started x self, ended x _) (traced xs _)

  -- The traces of notes that are executed one after the other all succeed, and the measurements
  -- then have these notes, in this order, each with the cycles between its traces, after the notes
  -- measured before.
  pub run_traces-cycles :
      (xs : List NoteRun) (self : TransactionHost A)
      → InOrder (executions xs)
      → ((run_traces (note_traces xs) self).0 ≡ ok tt)
        × (measure_notes (run_traces (note_traces xs) self).1.tx_progress.note_execution
            ≡ measure_notes self.tx_progress.note_execution ++ cycles (executions xs))
  run_traces-cycles xs self h = (
    ap (λ p. p.0) (traced xs self),
    ap (λ p. measure_notes p.1.tx_progress.note_execution) (traced xs self)
        ∙ measure_notes-execute (executions xs) self.tx_progress h,
  )

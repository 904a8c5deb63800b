-- ===== src/Host/Progress/Laws.antt =====
-- What the measurements of a transaction are: miden-tx/src/host/tx_progress.rs.
use miden_base.Base.{ℕ, ◌-◌, ◌≤◌, ◌≡◌, refl, sym, ap, ◌∙◌, List, [], ◌∷◌, ◌++◌, arith}
use mathlib.Core.List.{append-nil}
use miden_base.Base.Words.{Digest}
use miden_base.Host.Progress.{
  RowIndex, CycleInterval, TransactionProgress, interval_new, interval_len, set_end, end_last,
  start_note_execution, end_note_execution, measure_notes,
}

-- A note with the cycles at which its execution starts and ends.
pub record Execution : Type 0 where
  pub note_id : Digest
  pub started : RowIndex
  pub ended : RowIndex

-- The trace events of notes that are executed one after the other.
abbrev pub execute : List Execution → TransactionProgress → TransactionProgress
execute [] self = self
execute (x ∷ xs) self =
    execute xs (end_note_execution x.ended (start_note_execution x.started x.note_id self))

abbrev pub InOrder : List Execution → Type 0
InOrder [] = Unit {0}
InOrder (x ∷ xs) = (x.started ≤ x.ended) × InOrder xs

abbrev pub cycles : List Execution → List (Digest × ℕ)
cycles [] = []
cycles (x ∷ xs) = (x.note_id, x.ended - x.started) ∷ cycles xs

end_last-append :
    (cycle : RowIndex) (id : Digest) (interval : CycleInterval)
    (notes : List (Digest × CycleInterval))
    → end_last cycle (notes ++ ((id, interval) ∷ [])) ≡ notes ++ ((id, set_end cycle interval) ∷ [])
unfolding end_last
end_last-append cycle id interval [] = refl
end_last-append cycle id interval (x ∷ []) = refl
end_last-append cycle id interval (x ∷ y ∷ notes) =
    ap (λ l. x ∷ l) (end_last-append cycle id interval (y ∷ notes))

measure_notes-append :
    (notes : List (Digest × CycleInterval)) (id : Digest) (interval : CycleInterval)
    → measure_notes (notes ++ ((id, interval) ∷ []))
      ≡ measure_notes notes ++ ((id, interval_len interval) ∷ [])
unfolding measure_notes
measure_notes-append [] id interval = refl
measure_notes-append (x ∷ notes) id interval =
    ap (λ l. (x.0, interval_len x.1) ∷ l) (measure_notes-append notes id interval)

append_step {ℓ} :
    {A : Type ℓ} (xs : List A) (y : A) (zs : List A) → (xs ++ (y ∷ [])) ++ zs ≡ xs ++ (y ∷ zs)
append_step [] y zs = refl
append_step (x ∷ xs) y zs = ap (λ l. x ∷ l) (append_step xs y zs)

one_execution :
    (x : Execution) (self : TransactionProgress)
    → x.started ≤ x.ended
    → measure_notes
        (end_note_execution x.ended (start_note_execution x.started x.note_id self)).note_execution
      ≡ measure_notes self.note_execution ++ ((x.note_id, x.ended - x.started) ∷ [])
unfolding start_note_execution end_note_execution set_end interval_len
one_execution x self h =
    let interval = set_end x.ended (interval_new x.started) in
    let len : interval_len interval ≡ x.ended - x.started = ground arith in
    ap measure_notes
      (end_last-append x.ended x.note_id (interval_new x.started) self.note_execution)
    ∙ (measure_notes-append self.note_execution x.note_id interval
        ∙ ap (λ n. measure_notes self.note_execution ++ ((x.note_id, n) ∷ [])) len)

-- Notes that are executed one after the other are measured in that order, each by the cycles
-- between its start and its end, after the notes measured before.
pub measure_notes-execute :
    (xs : List Execution) (self : TransactionProgress)
    → InOrder xs
    → measure_notes (execute xs self).note_execution
      ≡ measure_notes self.note_execution ++ cycles xs
measure_notes-execute [] self h = sym (append-nil (measure_notes self.note_execution))
measure_notes-execute (x ∷ xs) self (h, hs) =
    measure_notes-execute xs
      (end_note_execution x.ended (start_note_execution x.started x.note_id self)) hs
    ∙ (ap (λ l. l ++ cycles xs) (one_execution x self h)
        ∙ append_step (measure_notes self.note_execution) (x.note_id, x.ended - x.started)
            (cycles xs))

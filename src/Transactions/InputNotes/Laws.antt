-- ===== src/Transactions/InputNotes/Laws.antt =====
-- What `InputNotes::new` accepts: objects/src/transaction/inputs.rs.
use miden_base.Base.{
  ◌≤◌, ◌≡◌, ◌↔◌, inl, inr, List, arith, ltb, Bool-cases, Option-cases, ok, length, [],
}
use miden_base.Base.Words.{Felt, Digest}
use miden_base.Base.Unique.{Unique, first_repeat, first_repeat-none}
use miden_base.Transactions.InputNotes.{
  ToInputNoteCommitments, InputNotes, build_input_note_commitment, new,
}

module _ {ℓ} {T : Type ℓ} ⦃C : ToInputNoteCommitments T⦄ (hash_elements : List Felt → Digest) where
  -- `new` succeeds exactly on at most 1024 notes with nullifiers that differ from each other, and
  -- then keeps the notes in their order, with their commitment.
  pub input_notes_new_accepts :
      (notes : List T) (r : InputNotes T)
      → (new hash_elements notes ≡ ok r) ↔ (
          (length notes ≤ 1024)
          × Unique C.nullifier notes
          × (r.notes ≡ notes)
          × (r.commitment ≡ build_input_note_commitment hash_elements notes))
  unfolding new
  input_notes_new_accepts notes r = (forward, backward)
    where
      forward :
          new hash_elements notes ≡ ok r
          → (length notes ≤ 1024)
            × Unique C.nullifier notes
            × (r.notes ≡ notes)
            × (r.commitment ≡ build_input_note_commitment hash_elements notes)
      forward h = elim (Bool-cases (ltb 1024 (length notes))) [
        | inl long ↦ absurd (ground arith)
        | inr short ↦ elim (Option-cases (first_repeat C.nullifier [] notes)) [
          | inr (d, repeated) ↦ absurd (ground arith)
          | inl passed ↦ (
            ground arith,
            (first_repeat-none C.nullifier notes).0 passed,
            ground arith,
            ground arith,
          )
        ]
      ]

      backward :
          (length notes ≤ 1024)
            × Unique C.nullifier notes
            × (r.notes ≡ notes)
            × (r.commitment ≡ build_input_note_commitment hash_elements notes)
          → new hash_elements notes ≡ ok r
      backward (short, unique, kept, committed) =
          let passed = (first_repeat-none C.nullifier notes).1 unique in ground arith

-- ===== src/Transactions/Proven/Laws.antt =====
-- What makes a proven transaction valid: objects/src/transaction/proven_tx.rs.
use miden_base.Base.{
  ℕ, ◌≤◌, ◌≡◌, ◌↔◌, refl, ap, ◌∙◌, List, [], ◌∷◌, map, arith, ok, map_err, map_err-eq-ok, >>=-eq-ok,
  length,
}
use miden_base.Base.Words.{Field}
use miden_base.Base.Hashing.{Hasher}
use miden_base.Base.Trees.{Smt}
use miden_base.Base.Unique.{Unique}
use miden_base.Errors.{input_notes_error, output_notes_error}
use miden_base.Accounts.Details.{AccountUpdateDetails}
use miden_base.Transactions.Inputs.{InputNote, authenticated, unauthenticated}
use miden_base.Transactions.Inputs
use miden_base.Transactions.InputNotes as InputNotesOps
use miden_base.Transactions.InputNotes.Laws.{input_notes_new_accepts}
use miden_base.Transactions.OutputNotes as Outputs
use miden_base.Transactions.OutputNotes.Laws.{output_notes_new_accepts}
use miden_base.Transactions.Proven.{
  InputNoteCommitment, TxAccountUpdate, ProvenTransaction, ProvenTransactionBuilder,
  commitment_from, commitment_hash, input_commitments, assemble, build,
}
use miden_base.Transactions.Proven.Updates.{UpdateFits, validate_lem}

inputs-eq :
    (x y : InputNotesOps.InputNotes InputNoteCommitment)
    → x.notes ≡ y.notes
    → x.commitment ≡ y.commitment
    → x ≡ y
inputs-eq x y h k = ground (arith, h, k)

outputs-eq : (x y : Outputs.OutputNotes) → x.notes ≡ y.notes → x.commitment ≡ y.commitment → x ≡ y
outputs-eq x y h k = ground (arith, h, k)

module _ ⦃F : Field⦄ ⦃H : Hasher⦄ where
  commitment_elements-commitment_from :
      {MerklePath : Type 0} (notes : List (InputNote MerklePath))
      → InputNotesOps.commitment_elements ⦃C = input_commitments⦄ (map commitment_from notes)
        ≡ InputNotesOps.commitment_elements ⦃C = Inputs.input_commitments⦄ notes
  unfolding InputNotesOps.commitment_elements commitment_from commitment_hash Inputs.input_nullifier
      Inputs.input_hash input_commitments
  commitment_elements-commitment_from [] = refl
  commitment_elements-commitment_from (authenticated note proof ∷ notes) =
      cc (commitment_elements-commitment_from notes)
  commitment_elements-commitment_from (unauthenticated note ∷ notes) =
      cc (commitment_elements-commitment_from notes)

  -- The commitment to the input notes of a proven transaction, which holds only nullifiers and
  -- headers, is the commitment to the notes themselves in the inputs of the transaction.
  pub build_input_note_commitment-commitment_from :
      {MerklePath : Type 0} (notes : List (InputNote MerklePath))
      → InputNotesOps.build_input_note_commitment ⦃C = input_commitments⦄ H.hash_elements
          (map commitment_from notes)
        ≡ InputNotesOps.build_input_note_commitment ⦃C = Inputs.input_commitments⦄ H.hash_elements
            notes
  unfolding InputNotesOps.build_input_note_commitment
  build_input_note_commitment-commitment_from [] = refl
  build_input_note_commitment-commitment_from (note ∷ notes) =
      ap H.hash_elements (commitment_elements-commitment_from (note ∷ notes))

  module _ ⦃S : Smt⦄ (get_size_hint : AccountUpdateDetails S.Tree → ℕ) where
    -- The notes of a builder with their commitments.
    abbrev pub inputs_of :
        {Proof : Type 0}
        → ProvenTransactionBuilder S.Tree Proof
        → InputNotesOps.InputNotes InputNoteCommitment
    inputs_of self = record {
      notes = self.input_notes;
      commitment =
          InputNotesOps.build_input_note_commitment ⦃C = input_commitments⦄ H.hash_elements
            self.input_notes;
    }

    abbrev pub outputs_of :
        {Proof : Type 0} → ProvenTransactionBuilder S.Tree Proof → Outputs.OutputNotes
    outputs_of self = record {
      notes = self.output_notes;
      commitment = Outputs.build_output_notes_commitment self.output_notes;
    }

    -- The account update that a builder describes.
    abbrev pub update_of :
        {Proof : Type 0} → ProvenTransactionBuilder S.Tree Proof → TxAccountUpdate S.Tree
    update_of self = record {
      account_id = self.account_id;
      init_state_hash = self.initial_account_hash;
      final_state_hash = self.final_account_hash;
      details = self.account_update_details;
    }

    -- `build` succeeds exactly on at most 1024 input notes with different nullifiers, at most 1024
    -- output notes with different identifiers, and an account update that fits: no details for a
    -- private account; for a public one details of at most 32768 bytes, a delta if the account had a
    -- state before, and else the account with this identifier and the final hash. The transaction has
    -- the notes in their order and the identifier that its commitments and account hashes give.
    pub build_accepts :
        {Proof : Type 0} (self : ProvenTransactionBuilder S.Tree Proof)
        (r : ProvenTransaction S.Tree Proof)
        → (build get_size_hint self ≡ ok r) ↔ (
            (length self.input_notes ≤ 1024)
            × Unique (λ (n : InputNoteCommitment). n.nullifier) self.input_notes
            × (length self.output_notes ≤ 1024)
            × Unique Outputs.id self.output_notes
            × UpdateFits get_size_hint (update_of self)
            × (r ≡ assemble get_size_hint self (inputs_of self) (outputs_of self)))
    unfolding build input_commitments
    build_accepts self r = (
      λ h.
          let made = InputNotesOps.new ⦃C = input_commitments⦄ H.hash_elements self.input_notes in
          let (inputs, e, h1) = >>=-eq-ok (map_err input_notes_error made) _ h in
          let (outputs, f, h2) =
            >>=-eq-ok (map_err output_notes_error (Outputs.new self.output_notes)) _ h1 in
          let (short_in, unique_in, in_notes, in_commitment) =
            (input_notes_new_accepts ⦃C = input_commitments⦄ H.hash_elements self.input_notes
                inputs).0
              (map_err-eq-ok input_notes_error made e) in
          let (short_out, unique_out, out_notes, out_commitment) =
            (output_notes_new_accepts self.output_notes outputs).0
              (map_err-eq-ok output_notes_error (Outputs.new self.output_notes) f) in
          let (fits, is) = (validate_lem get_size_hint _ r).0 h2 in
          (
            short_in,
            unique_in,
            short_out,
            unique_out,
            fits,
            is
                ∙ (ap (λ x. assemble get_size_hint self x outputs)
                      (inputs-eq inputs (inputs_of self) in_notes in_commitment)
                    ∙ ap (λ x. assemble get_size_hint self (inputs_of self) x)
                        (outputs-eq outputs (outputs_of self) out_notes out_commitment)),
          ),
      λ (short_in, unique_in, short_out, unique_out, fits, is).
          let in_made =
            (input_notes_new_accepts ⦃C = input_commitments⦄ H.hash_elements self.input_notes
                (inputs_of self)).1
              (short_in, unique_in, refl, refl) in
          let out_made =
            (output_notes_new_accepts self.output_notes (outputs_of self)).1
              (short_out, unique_out, refl, refl) in
          rw (in_made, out_made)
            ((validate_lem get_size_hint
                (assemble get_size_hint self (inputs_of self) (outputs_of self)) r).1
              (fits, is)),
    )

-- ===== src/Transactions/OutputNotes/Laws.antt =====
-- What shrinking and the checks of output notes do: objects/src/transaction/outputs.rs.
use miden_base.Base.{
  ◌≤◌, ◌≡◌, ◌↔◌, refl, ap, inl, inr, true, false, none, List, [], ◌∷◌, map, arith, ltb, Bool-cases,
  Option-cases, ok, length,
}
use miden_base.Base.Words.{Field}
use miden_base.Base.Hashing.{Hasher}
use miden_base.Base.Unique.{Unique, first_repeat, first_repeat-none}
use miden_base.Notes.Note.{Note, is_private, partial_id, partial_header}
use miden_base.Transactions.OutputNotes.{
  OutputNote, OutputNotes, full, partial, header, assets, recipient_digest, metadata, id, shrink,
  to_header, output_elements, build_output_notes_commitment, new,
}

module _ ⦃H : Hasher⦄ where
  -- Shrinking a note keeps its identifier, its metadata and its header; of a private note it
  -- leaves nothing else; a public or encrypted note in full is left as it is.
  pub shrink_erases :
      (note : OutputNote)
      → (id (shrink note) ≡ id note)
        × (metadata (shrink note) ≡ metadata note)
        × (to_header (shrink note) ≡ to_header note)
        × (is_private (metadata note) ≡ true
            → (assets (shrink note) ≡ none) × (recipient_digest (shrink note) ≡ none))
        × ((n : Note) → note ≡ full n → is_private (metadata note) ≡ false → shrink note ≡ note)
  unfolding shrink id metadata to_header assets recipient_digest partial_header partial_id
  shrink_erases (full n) = elim (Bool-cases (is_private n.header.note_metadata)) [
    | inl p ↦ rw p (refl, refl, refl, λ _. (refl, refl), λ m e q. absurd (cc))
    | inr p ↦ rw p (refl, refl, refl, λ q. absurd (cc), λ m e q. refl)
  ]
  shrink_erases (partial n) = (refl, refl, refl, λ _. (refl, refl), λ m e q. absurd (cc))
  shrink_erases (header n) = (refl, refl, refl, λ _. (refl, refl), λ m e q. absurd (cc))

  module _ ⦃F : Field⦄ where
    output_elements-shrink :
        (notes : List OutputNote) → output_elements (map shrink notes) ≡ output_elements notes
    unfolding output_elements
    output_elements-shrink [] = refl
    output_elements-shrink (note ∷ notes) =
        let (same_id, same_metadata, _, _, _) = shrink_erases note in
        cc (same_id, same_metadata, output_elements-shrink notes)

    -- The commitment to output notes is the same after all of them were shrunk, so that it can be
    -- checked without the private details.
    pub build_output_notes_commitment-shrink :
        (notes : List OutputNote)
        → build_output_notes_commitment (map shrink notes) ≡ build_output_notes_commitment notes
    unfolding build_output_notes_commitment
    build_output_notes_commitment-shrink [] = refl
    build_output_notes_commitment-shrink (note ∷ notes) =
        ap H.hash_elements (output_elements-shrink (note ∷ notes))

    -- `new` succeeds exactly on at most 1024 notes with identifiers that differ from each other, and
    -- then keeps the notes in their order, with their commitment.
    pub output_notes_new_accepts :
        (notes : List OutputNote) (r : OutputNotes)
        → (new notes ≡ ok r) ↔ (
            (length notes ≤ 1024)
            × Unique id notes
            × (r.notes ≡ notes)
            × (r.commitment ≡ build_output_notes_commitment notes))
    unfolding new
    output_notes_new_accepts notes r = (forward, backward)
      where
        forward :
            new notes ≡ ok r
            → (length notes ≤ 1024)
              × Unique id notes
              × (r.notes ≡ notes)
              × (r.commitment ≡ build_output_notes_commitment notes)
        forward h = elim (Bool-cases (ltb 1024 (length notes))) [
          | inl long ↦ absurd (ground arith)
          | inr short ↦ elim (Option-cases (first_repeat id [] notes)) [
            | inr (d, repeated) ↦ absurd (ground arith)
            | inl passed ↦
                (ground arith, (first_repeat-none id notes).0 passed, ground arith, ground arith)
          ]
        ]

        backward :
            (length notes ≤ 1024)
              × Unique id notes
              × (r.notes ≡ notes)
              × (r.commitment ≡ build_output_notes_commitment notes)
            → new notes ≡ ok r
        backward (short, unique, kept, committed) =
            let passed = (first_repeat-none id notes).1 unique in ground arith

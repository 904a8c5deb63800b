-- ===== src/Transactions/Inputs/Included.antt =====
-- Which input notes are in their blocks: objects/src/transaction/inputs.rs.
use miden_base.Base.{
  ℕ, zero, suc, ◌≡◌, ◌≢◌, ◌↔◌, ◌⊎◌, refl, sym, ap, subst, inl, inr, Bool, true, false, not, Option,
  none, some, List, [], ◌∷◌, arith, ◌==◌, Bool-cases, Result, ok, ok_or, >>=-eq-ok, reject_if-eq-ok,
  get_elem?,
}
use miden_base.Base.Words.{Field}
use miden_base.Base.Hashing.{Hasher}
use miden_base.Errors.{TransactionInputError}
use miden_base.Notes.Note.{NoteLocation, NoteInclusionProof, header_hash}
use miden_base.Notes.Note
use miden_base.Blocks.Header.{BlockHeader}
use miden_base.Blocks.Chain.{PartialMmr, ChainMmr, get_block}
use miden_base.Transactions.Inputs.{
  MerklePaths, InputNote, authenticated, unauthenticated, validate_is_in_block, block_of,
  check_note, check_notes,
}

pub not-false : {b : Bool} → not b ≡ false → b ≡ true
not-false h = ground arith

pub ok-injective {ℓ} :
    {A : Type ℓ} {a b : A} → Path (Result TransactionInputError A) (ok a) (ok b) → a ≡ b
ok-injective h = cc

module _ ⦃F : Field⦄ ⦃H : Hasher⦄ where
  module _ ⦃P : MerklePaths⦄ where
    validate_is_in_block_accepts :
        (note : Note.Note) (proof : NoteInclusionProof P.MerklePath) (block : BlockHeader)
        → (validate_is_in_block note proof block ≡ ok tt) ↔ (
            P.verify proof.note_path proof.location.node_index_in_block
              (header_hash note.header)
              block.note_root
            ≡ true)
    unfolding validate_is_in_block
    validate_is_in_block_accepts note proof block =
        (λ h. not-false (reject_if-eq-ok _ _ h), λ h. rw h refl)

    module _ ⦃M : PartialMmr⦄ where
      -- The header of the block in which a note was created: the reference block, or one of the chain.
      abbrev pub IsBlockOf : BlockHeader → ChainMmr M.Mmr → NoteLocation → BlockHeader → Type 0
      IsBlockOf header chain location block =
          ((location.block_num ≡ header.block_num) × (block ≡ header))
          ⊎ ((location.block_num ≢ header.block_num)
              × (get_block chain location.block_num ≡ some block))

      -- The path of the proof leads to the root of the note tree of that block.
      abbrev pub IsIncluded :
          BlockHeader → ChainMmr M.Mmr → Note.Note → NoteInclusionProof P.MerklePath → Type 0
      IsIncluded header chain note proof =
          (block : BlockHeader) × IsBlockOf header chain proof.location block
          × (P.verify proof.note_path proof.location.node_index_in_block (header_hash note.header)
                block.note_root
              ≡ true)

      block_of_lem :
          (header : BlockHeader) (chain : ChainMmr M.Mmr) (note : Note.Note)
          (location : NoteLocation) (block : BlockHeader)
          → (block_of header chain note location ≡ ok block) ↔ IsBlockOf header chain location block
      unfolding block_of
      block_of_lem header chain note location block =
          elim (Bool-cases (location.block_num == header.block_num)) [
            | inl same ↦
                let number : location.block_num ≡ header.block_num = ground arith in
                (
                  λ h. inl (number, sym (ok-injective (rw same at h))),
                  λ which. elim which [
                    | inl (_, is) ↦ rw (same, is) refl
                    | inr (differ, _) ↦ absurd (differ number)
                  ],
                )
            | inr other ↦
                let differ : location.block_num ≢ header.block_num =
                  λ e. absurd (ground (arith, other, e)) in
                (
                  λ h. inr (differ, found (get_block chain location.block_num) _ (rw other at h)),
                  λ which. elim which [
                    | inl (number, _) ↦ absurd (differ number)
                    | inr (_, there) ↦ rw (other, there) refl
                  ],
                )
          ]
        where
          found :
              (o : Option BlockHeader) (e : TransactionInputError)
              → ok_or o e ≡ ok block
              → o ≡ some block
          found none e h = absurd (cc)
          found (some b) e h = cc

      check_note_accepts :
          (header : BlockHeader) (chain : ChainMmr M.Mmr) (note : Note.Note)
          (proof : NoteInclusionProof P.MerklePath)
          → (check_note header chain (authenticated note proof) ≡ ok tt)
            ↔ IsIncluded header chain note proof
      unfolding check_note
      check_note_accepts header chain note proof = (
        λ h.
            let (block, e, v) = >>=-eq-ok (block_of header chain note proof.location) _ h in
            (
              block,
              (block_of_lem header chain note proof.location block).0 e,
              (validate_is_in_block_accepts note proof block).0 v,
            ),
        λ (block, which, v).
            rw ((block_of_lem header chain note proof.location block).1 which)
              ((validate_is_in_block_accepts note proof block).1 v),
      )

      -- Every authenticated note of the list is included.
      abbrev pub AllIncluded : BlockHeader → ChainMmr M.Mmr → List (InputNote P.MerklePath) → Type 0
      AllIncluded header chain notes =
          (i : ℕ) (note : Note.Note) (proof : NoteInclusionProof P.MerklePath)
          → get_elem? notes i ≡ some (authenticated note proof)
          → IsIncluded header chain note proof

      pub check_notes_accepts :
          (header : BlockHeader) (chain : ChainMmr M.Mmr) (notes : List (InputNote P.MerklePath))
          → (check_notes header chain notes ≡ ok tt) ↔ AllIncluded header chain notes
      unfolding check_notes
      check_notes_accepts header chain [] = (λ h i note proof e. absurd (cc (e)), λ h. refl)
      check_notes_accepts header chain (x ∷ notes) = (
        λ h.
            let (_, first, rest) = >>=-eq-ok (check_note header chain x) _ h in
            cons_included x (first_included x first)
              ((check_notes_accepts header chain notes).0 rest),
        λ included.
            rw (first_checked x (λ note proof e. included 0 note proof (ap (λ y. some y) e)))
              ((check_notes_accepts header chain notes).1 (λ i. included (suc i))),
      )
        where
          first_included :
              (y : InputNote P.MerklePath)
              → check_note header chain y ≡ ok tt
              → (note : Note.Note) (proof : NoteInclusionProof P.MerklePath)
              → y ≡ authenticated note proof
              → IsIncluded header chain note proof
          first_included y h note proof e =
              (check_note_accepts header chain note proof).0
                (subst (λ z. check_note header chain z ≡ ok tt) e h)

          cons_included :
              (y : InputNote P.MerklePath)
              → ((note : Note.Note) (proof : NoteInclusionProof P.MerklePath)
                  → y ≡ authenticated note proof
                  → IsIncluded header chain note proof)
              → AllIncluded header chain notes
              → AllIncluded header chain (y ∷ notes)
          cons_included y first rest zero note proof e = first note proof (cc)
          cons_included y first rest (suc i) note proof e = rest i note proof e

          first_checked :
              (y : InputNote P.MerklePath)
              → ((note : Note.Note) (proof : NoteInclusionProof P.MerklePath)
                  → y ≡ authenticated note proof
                  → IsIncluded header chain note proof)
              → check_note header chain y ≡ ok tt
          first_checked (authenticated note proof) h =
              (check_note_accepts header chain note proof).1 (h note proof refl)
          first_checked (unauthenticated note) h = refl

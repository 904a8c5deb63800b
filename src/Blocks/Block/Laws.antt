-- ===== src/Blocks/Block/Laws.antt =====
-- What `Block::validate` accepts: objects/src/block/mod.rs.
use miden_base.Base.{
  ℕ, ◌+◌, ◌*◌, ◌≤◌, ◌≡◌, ◌↔◌, refl, ap, inl, inr, false, none, List, [], ◌∷◌, ◌++◌, arith, ltb,
  Option-cases, All, ok, >>=-eq-ok, fail_if-eq-ok, length, length-append,
}
use miden_base.Base.Words.{Digest}
use miden_base.Base.Hashing.{Hasher}
use miden_base.Base.Unique.{Unique, first_repeat, push_all, first_repeat-none, first_repeat-append}
use miden_base.Transactions.OutputNotes as Outputs
use miden_base.Transactions.OutputNotes.{OutputNote}
use miden_base.Blocks.Block.{Block, check_batches, validate}

not_above : {n max : ℕ} → ltb max n ≡ false → n ≤ max
not_above h = ground arith

-- The notes of all batches in order.
abbrev pub concat : List (List OutputNote) → List OutputNote
concat [] = []
concat (batch ∷ batches) = batch ++ concat batches

abbrev pub SmallBatches : List (List OutputNote) → Type 0
SmallBatches batches = All (λ (batch : List OutputNote). length batch ≤ 1024) batches

length-concat :
    (batches : List (List OutputNote))
    → SmallBatches batches
    → length (concat batches) ≤ 1024 * length batches
length-concat [] h = omega arith
length-concat (batch ∷ batches) (h, hs) =
    omega (arith, length-concat batches hs, length-append batch (concat batches))

module _ ⦃H : Hasher⦄ where
  -- One round: the batch is small enough and brings no identifier that was seen.
  batch_step :
      (seen : List Digest) (count : ℕ) (batch : List OutputNote) (batches : List (List OutputNote))
      (n : ℕ)
      → check_batches seen count (batch ∷ batches) ≡ ok n
      → (length batch ≤ 1024)
        × (first_repeat Outputs.id seen batch ≡ none)
        × (check_batches (push_all Outputs.id seen batch) (count + length batch) batches ≡ ok n)
  unfolding check_batches
  batch_step seen count batch batches n h =
      elim (Option-cases (first_repeat Outputs.id seen batch)) [
        | inr (d, repeated) ↦ absurd (ground arith)
        | inl fresh ↦ (ground arith, fresh, ground arith)
      ]

  check_batches_sound :
      (seen : List Digest) (count : ℕ) (batches : List (List OutputNote)) (n : ℕ)
      → check_batches seen count batches ≡ ok n
      → SmallBatches batches
        × (first_repeat Outputs.id seen (concat batches) ≡ none)
        × (n ≡ count + length (concat batches))
  unfolding first_repeat check_batches
  check_batches_sound seen count [] n h = (tt, refl, ground arith)
  check_batches_sound seen count (batch ∷ batches) n h =
      let (small, fresh, rest) = batch_step seen count batch batches n h in
      let (smalls, others, total) =
        check_batches_sound (push_all Outputs.id seen batch) (count + length batch) batches n
          rest in
      (
        (small, smalls),
        ground (arith, first_repeat-append Outputs.id seen batch (concat batches)),
        omega (arith, length-append batch (concat batches)),
      )

  check_batches_complete :
      (seen : List Digest) (count : ℕ) (batches : List (List OutputNote))
      → SmallBatches batches
      → first_repeat Outputs.id seen (concat batches) ≡ none
      → check_batches seen count batches ≡ ok (count + length (concat batches))
  unfolding check_batches
  check_batches_complete seen count [] h u =
      ap (λ k. ok k) {x = count} {y = count + 0} (omega arith)
  check_batches_complete seen count (batch ∷ batches) (small, smalls) u =
      elim (Option-cases (first_repeat Outputs.id seen batch)) [
        | inr (d, repeated) ↦
            absurd
              (ground (arith, repeated, first_repeat-append Outputs.id seen batch (concat batches)))
        | inl fresh ↦
            let others : first_repeat Outputs.id (push_all Outputs.id seen batch) (concat batches)
                ≡ none =
              ground (arith, first_repeat-append Outputs.id seen batch (concat batches)) in
            let rest =
              check_batches_complete (push_all Outputs.id seen batch) (count + length batch) batches
                smalls others in
            ground (arith, rest, length-append batch (concat batches))
      ]

  -- A block passes validation exactly if it has at most 65536 account updates, 64 batches of at
  -- most 1024 notes and 65536 nullifiers, and no two notes with one identifier, also across batches.
  -- So the check on the number of notes of the whole block never fails.
  pub validate_accepts :
      {Tree : Type 0} (block : Block Tree)
      → (validate block ≡ ok tt) ↔ (
          (length block.updated_accounts ≤ 65536)
          × (length block.output_note_batches ≤ 64)
          × (length block.nullifiers ≤ 65536)
          × SmallBatches block.output_note_batches
          × Unique Outputs.id (concat block.output_note_batches))
  unfolding validate
  validate_accepts block = (forward, backward)
    where
      forward :
          validate block ≡ ok tt
          → (length block.updated_accounts ≤ 65536)
            × (length block.output_note_batches ≤ 64)
            × (length block.nullifiers ≤ 65536)
            × SmallBatches block.output_note_batches
            × Unique Outputs.id (concat block.output_note_batches)
      forward h =
          let (accounts, h1) = fail_if-eq-ok (ltb 65536 (length block.updated_accounts)) _ _ h in
          let (batches, h2) = fail_if-eq-ok (ltb 64 (length block.output_note_batches)) _ _ h1 in
          let (nullifiers, chain) = fail_if-eq-ok (ltb 65536 (length block.nullifiers)) _ _ h2 in
          let (n, passed, _) = >>=-eq-ok (check_batches [] 0 block.output_note_batches) _ chain in
          let (small, unique, _) = check_batches_sound [] 0 block.output_note_batches n passed in
          (
            not_above accounts,
            not_above batches,
            not_above nullifiers,
            small,
            (first_repeat-none Outputs.id (concat block.output_note_batches)).0 unique,
          )

      backward :
          (length block.updated_accounts ≤ 65536)
            × (length block.output_note_batches ≤ 64)
            × (length block.nullifiers ≤ 65536)
            × SmallBatches block.output_note_batches
            × Unique Outputs.id (concat block.output_note_batches)
          → validate block ≡ ok tt
      backward (accounts, batches, nullifiers, small, unique) =
          let passed =
            check_batches_complete [] 0 block.output_note_batches small
              ((first_repeat-none Outputs.id (concat block.output_note_batches)).1 unique) in
          let bound : 0 + length (concat block.output_note_batches) ≤ 65536 =
            omega (arith, length-concat block.output_note_batches small) in
          ground (arith, passed)

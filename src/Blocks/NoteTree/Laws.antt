-- ===== src/Blocks/NoteTree/Laws.antt =====
-- Where the notes of a block stand in its tree: objects/src/block/note_tree.rs.
use miden_base.Base.{
  ℕ, ◌+◌, ◌*◌, ◌^◌, ◌≤◌, ◌<◌, ◌≡◌, ◌⊎◌, inl, inr, refl, arith, ok, err, leb, Bool-cases,
}
use miden_base.Errors.{too_many_notes_in_batch, too_many_transaction_batches}
use miden_base.Blocks.NoteTree.{BlockNoteIndex, index_new, leaf_index, leaf_index_value}

-- The index of note n of batch b, for n below 1024 and b below 64, has the leaf 1024 * b + n, which is
-- below 2^16, and no panic occurs; a larger n is an error, and for a smaller n a larger b is one.
pub leaf_index_value-index_new :
    (b n : ℕ)
    → ((b < 64)
        × (n < 1024)
        × ((i : BlockNoteIndex) × (index_new b n ≡ ok i)
            × ((leaf : ℕ) × (leaf_index_value i ≡ ok leaf)
                × (leaf < 2 ^ 16)
                × (leaf ≡ b * 1024 + n))))
      ⊎ ((1024 ≤ n) × (index_new b n ≡ err (too_many_notes_in_batch n)))
      ⊎ ((n < 1024) × (64 ≤ b) × (index_new b n ≡ err (too_many_transaction_batches b)))
unfolding index_new leaf_index_value leaf_index
leaf_index_value-index_new b n = elim (Bool-cases (leb 1024 n)) [
  | inl long ↦ inr (inl (ground arith, ground arith))
  | inr short ↦ elim (Bool-cases (leb 64 b)) [
    | inl many ↦ inr (inr (ground arith, ground arith, ground arith))
    | inr few ↦
        let nb : n < 1024 = ground arith in
        let bb : b < 64 = ground arith in
        inl (
          bb,
          nb,
          (
            record { batch_idx = b; note_idx_in_batch = n },
            ground arith,
            (b * 1024 + n, ground arith, omega arith, refl),
          ),
        )
  ]
]

-- ===== src/Blocks/NoteTree.antt =====
-- `BlockNoteTree` and `BlockNoteIndex`: objects/src/block/note_tree.rs.
pub mod Laws
use miden_base.Base.{
  ℕ, ◌+◌, ◌*◌, ◌^◌, ◌<◌, ◌≡◌, ◌≢◌, Option, none, some, List, [], ◌∷◌, leb, ltb, All, get_elem?,
  Result, ok, err, panic, fail_if, ◌>>=◌, if◌then◌else◌,
}
use miden_base.Base.Words.{Field, Digest}
use miden_base.Base.Hashing.{Hasher}
use miden_base.Errors.{BlockError, too_many_notes_in_batch, too_many_transaction_batches}
use miden_base.Notes.Metadata.{NoteMetadata}
use miden_base.Notes.Note.{NoteId, compute_note_hash}

-- `SimpleSmt<16>` of the crate `miden-crypto`, by what the code relies on: leaves with indices that
-- are below 2^16 and differ from each other make a tree, which holds each of them at its index.
pub record SimpleSmt : Type 1 where
  pub Tree : Type 0
  pub with_leaves : List (ℕ × Digest) → Option Tree
  pub leaf : Tree → ℕ → Digest
  pub with_leaves_succeeds :
      (leaves : List (ℕ × Digest))
      → All (λ (l : ℕ × Digest). l.0 < 2 ^ 16) leaves
      → ((i j : ℕ) (a b : ℕ × Digest)
          → i < j
          → get_elem? leaves i ≡ some a
          → get_elem? leaves j ≡ some b
          → a.0 ≢ b.0)
      → (t : Tree) × (with_leaves leaves ≡ some t)
  pub leaf-with_leaves :
      (leaves : List (ℕ × Digest)) (t : Tree)
      → with_leaves leaves ≡ some t
      → (i : ℕ) (a : ℕ × Digest) → get_elem? leaves i ≡ some a
      → leaf t a.0 ≡ a.1

abbrev pub max_output_notes_per_batch : ℕ
max_output_notes_per_batch = 1024

abbrev pub max_batches_per_block : ℕ
max_batches_per_block = 64

pub record BlockNoteIndex : Type 0 where
  pub batch_idx : ℕ
  pub note_idx_in_batch : ℕ

-- `BlockNoteIndex::new`
unfoldable pub index_new : ℕ → ℕ → Result BlockError BlockNoteIndex
index_new batch_idx note_idx_in_batch =
    fail_if (leb max_output_notes_per_batch note_idx_in_batch)
      (too_many_notes_in_batch note_idx_in_batch)
      (fail_if (leb max_batches_per_block batch_idx) (too_many_transaction_batches batch_idx)
        (ok (record { batch_idx = batch_idx; note_idx_in_batch = note_idx_in_batch })))

-- `leaf_index`, whose panic is that of `LeafIndex::new` on an index out of the tree.
unfoldable pub leaf_index : BlockNoteIndex → Result BlockError ℕ
leaf_index self =
    let index = self.batch_idx * max_output_notes_per_batch + self.note_idx_in_batch in
    if ltb index (2 ^ 16) then ok index else panic

-- `leaf_index_value`, whose panic is that of the conversion to `u16`.
unfoldable pub leaf_index_value : BlockNoteIndex → Result BlockError ℕ
unfolding leaf_index
leaf_index_value self = do value ← leaf_index self; if ltb value (2 ^ 16) then ok value else panic

module _ ⦃F : Field⦄ ⦃H : Hasher⦄ where
  unfoldable pub note_leaves :
      List (BlockNoteIndex × NoteId × NoteMetadata) → Result BlockError (List (ℕ × Digest))
  unfolding leaf_index_value compute_note_hash
  note_leaves [] = ok []
  note_leaves ((index, note_id, metadata) ∷ entries) = do
    value ← leaf_index_value index
    leaves ← note_leaves entries
    ok ((value, compute_note_hash note_id metadata) ∷ leaves)

  -- `BlockNoteTree::with_entries`; no tree stands for the error of `with_leaves`.
  unfoldable pub with_entries :
      ⦃S : SimpleSmt⦄
      → List (BlockNoteIndex × NoteId × NoteMetadata)
      → Result BlockError (Option S.Tree)
  unfolding note_leaves
  with_entries ⦃S⦄ entries = do leaves ← note_leaves entries; ok (S.with_leaves leaves)

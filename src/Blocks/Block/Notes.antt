-- ===== src/Blocks/Block/Notes.antt =====
-- The note tree of a valid block: objects/src/block/mod.rs and note_tree.rs.
use miden_base.Base.{
  ℕ, suc, ◌+◌, ◌*◌, ◌^◌, ◌≤◌, ◌<◌, ◌≡◌, refl, ap, subst, ◌∙◌, some, List, [], ◌∷◌, ◌++◌, map, arith,
  ok, length, get_elem?,
}
use mathlib.Core.List.{map-append}
use miden_base.Base.Words.{Field, Digest}
use miden_base.Base.Hashing.{Hasher}
use miden_base.Notes.Metadata.{NoteMetadata}
use miden_base.Notes.Note.{NoteId, compute_note_hash}
use miden_base.Transactions.OutputNotes as Outputs
use miden_base.Transactions.OutputNotes.{OutputNote}
use miden_base.Blocks.NoteTree.{
  BlockNoteIndex, SimpleSmt, index_new, leaf_index, leaf_index_value, note_leaves, with_entries,
}
use miden_base.Blocks.Block.{Block, number_notes, number_batches, notes, validate, build_note_tree}
use miden_base.Blocks.Block.Laws.{SmallBatches, validate_accepts}
use miden_base.Blocks.Block.Leaves.{
  Within-distinct, Within-All, batch_leaves, block_leaves, block_leaves-Within,
  block_leaves-get_elem?,
}

module _ ⦃F : Field⦄ ⦃H : Hasher⦄ where
  -- What `build_note_tree` makes of a numbered note.
  abbrev entry : BlockNoteIndex × OutputNote → BlockNoteIndex × NoteId × NoteMetadata
  entry n = (n.0, Outputs.id n.1, Outputs.metadata n.1)

  -- One more leaf, for an index in range.
  note_leaves-cons :
      (b n : ℕ) (id : NoteId) (metadata : NoteMetadata)
      (entries : List (BlockNoteIndex × NoteId × NoteMetadata)) (leaves : List (ℕ × Digest))
      → b < 64
      → n < 1024
      → note_leaves entries ≡ ok leaves
      → note_leaves ((record { batch_idx = b; note_idx_in_batch = n }, id, metadata) ∷ entries)
        ≡ ok ((b * 1024 + n, compute_note_hash id metadata) ∷ leaves)
  unfolding note_leaves leaf_index leaf_index_value
  note_leaves-cons b n id metadata entries leaves hb hn h =
      let value : leaf_index_value (record { batch_idx = b; note_idx_in_batch = n })
          ≡ ok (b * 1024 + n) =
        ground arith in
      rw (value, h) refl

  number_notes_lem :
      (b n : ℕ) (batch : List OutputNote) (entries : List (BlockNoteIndex × NoteId × NoteMetadata))
      (leaves : List (ℕ × Digest))
      → b < 64
      → n + length batch ≤ 1024
      → note_leaves entries ≡ ok leaves
      → (ns : List (BlockNoteIndex × OutputNote)) × (number_notes b n batch ≡ ok ns)
        × (note_leaves (map entry ns ++ entries) ≡ ok (batch_leaves b n batch ++ leaves))
  unfolding number_notes index_new
  number_notes_lem b n [] entries leaves hb h k = ([], refl, k)
  number_notes_lem b n (note ∷ rest) entries leaves hb h k =
      let (ns, numbered, made) =
        number_notes_lem b (suc n) rest entries leaves hb (omega arith) k in
      let index : BlockNoteIndex = record { batch_idx = b; note_idx_in_batch = n } in
      let accepted : index_new b n ≡ ok index = ground arith in
      (
        (index, note) ∷ ns,
        rw (accepted, numbered) refl,
        note_leaves-cons b n (Outputs.id note) (Outputs.metadata note) (map entry ns ++ entries)
            (batch_leaves b (suc n) rest ++ leaves) hb (omega arith) made,
      )

  number_batches_lem :
      (b : ℕ) (batches : List (List OutputNote))
      → b + length batches ≤ 64
      → SmallBatches batches
      → (ns : List (BlockNoteIndex × OutputNote)) × (number_batches b batches ≡ ok ns)
        × (note_leaves (map entry ns) ≡ ok (block_leaves b batches))
  unfolding number_batches note_leaves
  number_batches_lem b [] h small = ([], refl, refl)
  number_batches_lem b (batch ∷ batches) h (small, smalls) =
      let (rest, numbered, made) = number_batches_lem (suc b) batches (omega arith) smalls in
      let (ns, numbered', made') =
        number_notes_lem b 0 batch (map entry rest) (block_leaves (suc b) batches) (omega arith)
          (omega arith) made in
      (ns ++ rest, rw (numbered', numbered) refl, ap note_leaves (map-append entry ns rest) ∙ made')

  -- A block that passed validation builds its note tree without a panic, and the tree holds the hash
  -- of the note at position j of batch i in the leaf 1024 * i + j.
  pub build_note_tree_lem :
      ⦃S : SimpleSmt⦄ {Tree : Type 0} (block : Block Tree)
      → validate block ≡ ok tt
      → (t : S.Tree) × (build_note_tree block ≡ ok t)
        × ((i j : ℕ) (batch : List OutputNote) (note : OutputNote)
            → get_elem? block.output_note_batches i ≡ some batch
            → get_elem? batch j ≡ some note
            → S.leaf t (i * 1024 + j) ≡ Outputs.hash note)
  unfolding build_note_tree notes with_entries Outputs.hash
  build_note_tree_lem ⦃S⦄ block valid =
      let (_, batches, _, small, _) = (validate_accepts block).0 valid in
      let (ns, numbered, made) =
        number_batches_lem 0 block.output_note_batches (omega arith) small in
      let leaves = block_leaves 0 block.output_note_batches in
      let ordered = block_leaves-Within 0 block.output_note_batches small in
      let high = (0 + length block.output_note_batches) * 1024 in
      let (t, built) =
        S.with_leaves_succeeds leaves
          (Within-All (0 * 1024) high (2 ^ 16) leaves (omega arith) ordered)
          (Within-distinct (0 * 1024) high leaves ordered) in
      (
        t,
        rw (numbered, made, built) refl,
        λ i j batch note e f.
            let (pos, there) =
              block_leaves-get_elem? 0 block.output_note_batches i j batch note e f in
            subst (λ k. S.leaf t k ≡ Outputs.hash note) {x = (0 + i) * 1024 + j} (omega arith)
              (S.leaf-with_leaves leaves t built pos _ there),
      )

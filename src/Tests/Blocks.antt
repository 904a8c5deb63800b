-- ===== src/Tests/Blocks.antt =====
-- The theorems on blocks at concrete blocks.
use miden_base.Base.{
  ℕ, ◌≡◌, ◌≤◌, ◌<◌, ◌⊎◌, ◌+◌, ◌*◌, ◌^◌, refl, true, some, List, [], ◌∷◌, ok, length, get_elem?, err,
}
use miden_base.Base.Unique.{Unique}
use miden_base.Base.Maps.{lookup, insert}
use miden_base.Errors.{too_many_notes_in_batch, too_many_transaction_batches}
use miden_base.Notes.Kinds.{private}
use miden_base.Notes.Hint.{always}
use miden_base.Notes.Metadata.{NoteMetadata}
use miden_base.Transactions.OutputNotes as Outputs
use miden_base.Transactions.OutputNotes.{OutputNote, header}
use miden_base.Blocks.Header.{BlockHeader}
use miden_base.Blocks.Header as Headers
use miden_base.Blocks.Chain as Chain
use miden_base.Blocks.Chain.{ChainMmr}
use miden_base.Blocks.Chain.Laws.{get_block-new}
use miden_base.Blocks.NoteTree as Trees
use miden_base.Blocks.NoteTree.Laws.{leaf_index_value-index_new}
use miden_base.Blocks.Block as Blocks
use miden_base.Blocks.Block.{Block}
use miden_base.Blocks.Block.Laws.{SmallBatches, concat, validate_accepts}
use miden_base.Blocks.Block.Notes.{build_note_tree_lem}
use miden_base.Tests.Values.{goldilocks, Entries, wallet}
use miden_base.Tests.Instances.{digest, weighing, listed_leaves, counted_range}

abbrev pub header_of : ℕ → BlockHeader
unfolding Headers.new
header_of n =
    Headers.new 1 (digest 0) n (digest n) (digest 11) (digest 12) (digest 13) (digest 14)
      (digest 15) (digest 16) 1000

abbrev pub private_metadata : NoteMetadata
private_metadata = record {
  sender = wallet;
  note_type = private;
  tag = 3 * 2 ^ 30;
  aux = 0;
  execution_hint = always;
}

abbrev pub note : ℕ → OutputNote
note n = header (record { note_id = digest n; note_metadata = private_metadata })

-- A batch without notes, and one of two.
abbrev block : Block Entries
block = record {
  header = header_of 7;
  updated_accounts = [];
  output_note_batches = [] ∷ (note 21 ∷ note 22 ∷ []) ∷ [];
  nullifiers = digest 31 ∷ [];
}

block-valid : Blocks.validate block ≡ ok tt
unfolding Blocks.validate Blocks.check_batches
block-valid = refl

validate_accepts_example :
    (length block.updated_accounts ≤ 65536)
    × (length block.output_note_batches ≤ 64)
    × (length block.nullifiers ≤ 65536)
    × SmallBatches block.output_note_batches
    × Unique Outputs.id (concat block.output_note_batches)
validate_accepts_example = (validate_accepts block).0 block-valid

build_note_tree_lem_example :
    (t : listed_leaves.Tree) × (Blocks.build_note_tree block ≡ ok t)
    × ((i j : ℕ) (batch : List OutputNote) (n : OutputNote)
        → get_elem? block.output_note_batches i ≡ some batch
        → get_elem? batch j ≡ some n
        → listed_leaves.leaf t (i * 1024 + j) ≡ Outputs.hash n)
build_note_tree_lem_example = build_note_tree_lem block block-valid

abbrev headers : List BlockHeader
headers = header_of 2 ∷ header_of 0 ∷ []

abbrev chain : ChainMmr ℕ
chain = record { mmr = 4; blocks = (0, header_of 0) ∷ (2, header_of 2) ∷ [] }

chain-new : Chain.new 4 headers ≡ ok chain
unfolding Chain.new Chain.add_headers Headers.new lookup insert
chain-new = refl

get_block-new_example :
    ((i : ℕ) (b : BlockHeader)
      → get_elem? headers i ≡ some b
      → Chain.get_block chain b.block_num ≡ some b)
    × ((n : ℕ) (b : BlockHeader)
        → Chain.get_block chain n ≡ some b
        → (b.block_num ≡ n) × (n < Chain.chain_length chain) × (true ≡ true))
get_block-new_example = get_block-new 4 headers chain chain-new

-- The last note of the last batch.
leaf_index_value-index_new_example :
    ((63 < 64)
      × (1023 < 1024)
      × ((i : Trees.BlockNoteIndex) × (Trees.index_new 63 1023 ≡ ok i)
          × ((leaf : ℕ) × (Trees.leaf_index_value i ≡ ok leaf)
              × (leaf < 2 ^ 16)
              × (leaf ≡ 63 * 1024 + 1023))))
    ⊎ ((1024 ≤ 1023) × (Trees.index_new 63 1023 ≡ err (too_many_notes_in_batch 1023)))
    ⊎ ((1023 < 1024)
        × (64 ≤ 63)
        × (Trees.index_new 63 1023 ≡ err (too_many_transaction_batches 63)))
leaf_index_value-index_new_example = leaf_index_value-index_new 63 1023

-- ===== src/Tests/Notes.antt =====
-- The theorems on notes at concrete notes.
use miden_base.Base.{◌/◌, ◌%◌, ◌≤◌, ◌^◌, ◌≡◌, refl, ◌↔◌, Bool, true, some, List, [], ◌∷◌, arith, ok}
use miden_base.Base.Words.{Digest, Felt, empty_word}
use miden_base.Assets.Data.{fungible}
use miden_base.Notes.Kinds.{public}
use miden_base.Notes.Tag as Tags
use miden_base.Notes.Hint as Hints
use miden_base.Notes.Hint.{on_block_slot}
use miden_base.Notes.Hint.Laws.{can_be_consumed_slot}
use miden_base.Notes.Metadata as Metadatas
use miden_base.Notes.Metadata.{NoteMetadata}
use miden_base.Notes.Metadata.Laws.{try_from_word-to_word_metadata}
use miden_base.Notes.Assets as Assets
use miden_base.Notes.Assets.{NoteAssets}
use miden_base.Notes.Assets.Laws.{AddsAsset, add_asset-AddsAsset}
use miden_base.Notes.Assets.Unique.{Unique, new-Unique}
use miden_base.Tests.Values.{goldilocks, coins, wallet, wallet-valid}

abbrev hint : Hints.NoteExecutionHint
hint = on_block_slot 10 7 1

can_be_consumed_slot_example :
    (b : Bool) × (Hints.can_be_consumed hint 1152 ≡ ok (some b))
    × ((b ≡ true) ↔ (1152 % 2 ^ 10 / 2 ^ 7 ≡ 1))
can_be_consumed_slot_example =
    can_be_consumed_slot 10 7 1 1152 (omega arith) (omega arith) (omega arith) (omega arith)
      (omega arith)

abbrev metadata : NoteMetadata
metadata = record {
  sender = wallet;
  note_type = public;
  tag = 2 ^ 31;
  aux = 5;
  execution_hint = hint;
}

tag_valid : Tags.validate (2 ^ 31) public ≡ ok (2 ^ 31)
unfolding Tags.validate
tag_valid = refl

try_from_word-to_word_metadata_example :
    Metadatas.try_from_word (Metadatas.to_word metadata) ≡ ok metadata
try_from_word-to_word_metadata_example =
    try_from_word-to_word_metadata metadata wallet-valid (omega arith) tag_valid
      (omega arith, omega arith, omega arith)

abbrev first_element : List Felt → Digest
first_element [] = empty_word
first_element (x ∷ xs) = record empty_word { e0 = x }

abbrev carried : NoteAssets
carried = record { assets = fungible (coins 5) ∷ []; hash = record empty_word { e0 = 5 } }

carried_ok : Assets.new first_element (fungible (coins 5) ∷ []) ≡ ok carried
unfolding Assets.new
carried_ok = refl

add_asset-AddsAsset_example :
    AddsAsset first_element
      (fungible (coins 7))
      carried
      (Assets.add_asset first_element (fungible (coins 7)) carried)
add_asset-AddsAsset_example =
    add_asset-AddsAsset first_element (fungible (coins 7)) carried (omega arith)

new-Unique_example :
    (carried.assets ≡ fungible (coins 5) ∷ [])
    × (1 ≤ Assets.max_num_assets)
    × Unique (fungible (coins 5) ∷ [])
    × (carried.hash ≡ Assets.compute_asset_commitment first_element (fungible (coins 5) ∷ []))
new-Unique_example = new-Unique first_element (fungible (coins 5) ∷ []) carried carried_ok

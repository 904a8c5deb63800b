-- ===== src/Notes/Assets.antt =====
-- `NoteAssets`: objects/src/notes/assets.rs. The hash is a parameter.
pub mod Laws
pub mod Unique
use miden_base.Base.{
  ℕ, suc, ◌+◌, ◌*◌, ◌%◌, Bool, true, false, ◌||◌, Option, none, some, List, [], ◌∷◌, ◌++◌, ltb,
  ◌==◌, if◌then◌else◌, Result, ok, err, panic, fail_if, map_err, Method, ◌>>=◌, length, any, resize,
}
use miden_base.Base.Words.{Field, Felt, Word, Digest, empty_word, word_elements}
use miden_base.Errors.{
  NoteError, duplicate_fungible_asset, note_duplicate_non_fungible_asset, invalid_asset_data,
  too_many_assets,
}
use miden_base.Assets.Data.{FungibleAsset, Asset, fungible, non_fungible}
use miden_base.Assets.Fungible as FungibleOps
use miden_base.Assets.Whole

-- `NoteAssets::MAX_NUM_ASSETS`
abbrev pub max_num_assets : ℕ
max_num_assets = 255

pub record NoteAssets : Type 0 where
  pub assets : List Asset
  pub hash : Digest

-- The error for an asset that is the same as an earlier one.
abbrev pub duplicate : Asset → NoteError
duplicate (fungible a) = duplicate_fungible_asset a.faucet_id
duplicate (non_fungible a) = note_duplicate_non_fungible_asset a

-- Is an asset of the list the same as this one?
abbrev pub any_same : Asset → List Asset → Bool
any_same asset assets = any (λ a. Whole.is_same a asset) assets

-- The loop of `new`, with the assets before the current one. The first asset has none before it.
unfoldable pub check_duplicates : List Asset → List Asset → Result NoteError (Unit {0})
check_duplicates before [] = ok tt
check_duplicates before (asset ∷ assets) =
    let rest = check_duplicates (before ++ (asset ∷ [])) assets in
    fail_if (any_same asset before) (duplicate asset) rest

-- The sum of two assets that are the same, in the list first.
unfoldable pub combine : Asset → Asset → Result NoteError Asset
unfolding Whole.unwrap_fungible FungibleOps.add
combine (fungible own) asset = do
  other ← map_err invalid_asset_data (Whole.unwrap_fungible asset)
  new ← map_err invalid_asset_data (FungibleOps.add own other)
  ok (fungible new)
combine (non_fungible own) asset = err (note_duplicate_non_fungible_asset own)

-- The list with the first asset that is the same replaced by the sum; nothing if there is none.
abbrev pub prepend :
    Asset → Option (Result NoteError (List Asset)) → Option (Result NoteError (List Asset))
prepend a none = none
prepend a (some r) = some (r >>= (λ assets. ok (a ∷ assets)))

unfoldable pub add_to_same : Asset → List Asset → Option (Result NoteError (List Asset))
unfolding combine
add_to_same asset [] = none
add_to_same asset (own ∷ assets) =
    let rest = add_to_same asset assets in
    if Whole.is_same own asset
    then some (combine own asset >>= (λ new. ok (new ∷ assets)))
    else prepend own rest

-- The padding of an odd number of assets.
abbrev pub odd_padding : ℕ → List Felt
odd_padding n = if n % 2 == 1 then word_elements empty_word else []

abbrev is_nil : List Asset → Bool
is_nil [] = true
is_nil (_ ∷ _) = false

module _ ⦃F : Field⦄ where
  unfoldable pub asset_elements : List Asset → List Felt
  unfolding Whole.to_word
  asset_elements [] = []
  asset_elements (asset ∷ assets) = word_elements (Whole.to_word asset) ++ asset_elements assets

  unfoldable pub to_padded_assets : NoteAssets → List Felt
  unfolding asset_elements
  to_padded_assets self =
      let count = length self.assets in
      let padded_len = if count % 2 == 0 then count * 4 else (count + 1) * 4 in
      resize (asset_elements self.assets) padded_len 0

module _ ⦃F : Field⦄ (hash_elements : List Felt → Digest) where
  unfoldable pub compute_asset_commitment : List Asset → Digest
  unfolding asset_elements
  compute_asset_commitment assets =
      if is_nil assets
      then empty_word
      else hash_elements (asset_elements assets ++ odd_padding (length assets))

  -- `NoteAssets::new`
  unfoldable pub new : List Asset → Result NoteError NoteAssets
  unfolding check_duplicates compute_asset_commitment
  new assets = fail_if (ltb max_num_assets (length assets)) (too_many_assets (length assets)) (do
    _ ← check_duplicates [] assets
    ok (record { assets = assets; hash = compute_asset_commitment assets }))

  -- A new asset is pushed before the number of assets is checked.
  abbrev push_asset : Asset → Method NoteAssets NoteError (Unit {0})
  unfolding compute_asset_commitment
  push_asset asset self =
      let assets = self.assets ++ (asset ∷ []) in
      if ltb max_num_assets (length assets)
      then (err (too_many_assets (length assets)), record self { assets = assets })
      else (ok tt, record { assets = assets; hash = compute_asset_commitment assets })

  abbrev finish :
      Option (Result NoteError (List Asset)) → Asset → Method NoteAssets NoteError (Unit {0})
  unfolding push_asset compute_asset_commitment
  finish none asset self = push_asset asset self
  finish (some (ok assets)) asset self =
      (ok tt, record { assets = assets; hash = compute_asset_commitment assets })
  finish (some (err e)) asset self = (err e, self)
  finish (some panic) asset self = (panic, self)

  unfoldable pub add_asset : Asset → Method NoteAssets NoteError (Unit {0})
  unfolding add_to_same finish
  add_asset asset self = finish (add_to_same asset self.assets) asset self

-- ===== src/Vault.antt =====
-- `AssetVault`: objects/src/assets/vault.rs. The sparse Merkle tree is an interface.
pub mod Entries
pub mod Fungible
pub mod NonFungible
pub mod Holdings
pub mod Updates
use miden_base.Base.{
  ℕ, Bool, true, false, not, List, map, ◌==◌, if◌then◌else◌, Option, none, some, Result, ok, err,
  panic, fail_if, map_err, ok_or, Method, then_do, ◌>>=◌,
}
use miden_base.Base.Words.{Field, Word, Digest, empty_word, word_eq}
use miden_base.Base.Trees.{Smt}
use miden_base.Errors.{
  AssetVaultError, add_fungible_asset_balance_error, duplicate_asset, duplicate_non_fungible_asset,
  fungible_asset_not_found, not_a_non_fungible_asset, vault_not_a_fungible_faucet_id,
  non_fungible_asset_not_found, subtract_fungible_asset_balance_error,
}
use miden_base.Accounts.Kinds.{fungible_faucet, type_eq}
use miden_base.Accounts.Id.{account_type}
use miden_base.Assets.Data.{
  AccountId, FungibleAsset, NonFungibleAsset, Asset, fungible, non_fungible,
}
use miden_base.Assets.Fungible as FungibleOps
use miden_base.Assets.NonFungible as NonFungibleOps
use miden_base.Assets.Whole

module _ ⦃S : Smt⦄ where
  open S use {Tree, get_value, insert, with_entries, root}

  -- `AssetVault` is its `asset_tree`.
  abbrev pub AssetVault : Type 0
  AssetVault = Tree

  -- `AssetVault::new`
  unfoldable pub new : ⦃F : Field⦄ → List Asset → Result AssetVaultError AssetVault
  new assets =
      ok_or (with_entries (map (λ asset. (Whole.vault_key asset, Whole.to_word asset)) assets))
        duplicate_asset

  unfoldable pub commitment : AssetVault → Digest
  commitment vault = root vault

  unfoldable pub has_non_fungible_asset : AssetVault → Asset → Result AssetVaultError Bool
  unfolding Whole.is_fungible Whole.vault_key
  has_non_fungible_asset vault asset =
      fail_if (Whole.is_fungible asset) (not_a_non_fungible_asset asset)
        (ok (not (word_eq (get_value vault (Whole.vault_key asset)) empty_word)))

  unfoldable pub get_balance : AssetVault → AccountId → Result AssetVaultError ℕ
  unfolding FungibleOps.new_unchecked
  get_balance vault faucet_id =
      fail_if (not (type_eq (account_type faucet_id) fungible_faucet))
        (vault_not_a_fungible_faucet_id faucet_id)
        (let asset = get_value vault (record empty_word { e3 = faucet_id }) in
          if word_eq asset empty_word then ok 0 else ok (FungibleOps.new_unchecked asset).amount)

  -- The write at the end of `add_fungible_asset`.
  abbrev store : ⦃F : Field⦄ → FungibleAsset → Method AssetVault AssetVaultError FungibleAsset
  store asset vault =
      (ok asset, (insert vault (FungibleOps.vault_key asset) (FungibleOps.to_word asset)).1)

  unfoldable pub add_fungible_asset :
      ⦃F : Field⦄ → FungibleAsset → Method AssetVault AssetVaultError FungibleAsset
  unfolding FungibleOps.vault_key FungibleOps.to_word FungibleOps.new_unchecked
  add_fungible_asset asset vault =
      let current = get_value vault (FungibleOps.vault_key asset) in
      if word_eq current empty_word
      then store asset vault
      else then_do
          (
            map_err add_fungible_asset_balance_error
                (FungibleOps.add (FungibleOps.new_unchecked current) asset),
            vault,
          )
          store

  unfoldable pub add_non_fungible_asset :
      NonFungibleAsset → Method AssetVault AssetVaultError NonFungibleAsset
  unfolding NonFungibleOps.vault_key
  add_non_fungible_asset asset vault =
      let (old, vault') = insert vault (NonFungibleOps.vault_key asset) asset.word in
      if not (word_eq old empty_word)
      then (err (duplicate_non_fungible_asset asset), vault')
      else (ok asset, vault')

  unfoldable pub add_asset : ⦃F : Field⦄ → Asset → Method AssetVault AssetVaultError Asset
  add_asset (fungible asset) vault =
      then_do (add_fungible_asset asset vault) (λ new t. (ok (fungible new), t))
  add_asset (non_fungible asset) vault =
      then_do (add_non_fungible_asset asset vault) (λ new t. (ok (non_fungible new), t))

  -- What is stored after a removal: nothing, if nothing is left.
  abbrev remainder : ⦃F : Field⦄ → FungibleAsset → Word
  remainder current = if current.amount == 0 then empty_word else FungibleOps.to_word current

  unfoldable pub remove_fungible_asset :
      ⦃F : Field⦄ → FungibleAsset → Method AssetVault AssetVaultError FungibleAsset
  unfolding FungibleOps.vault_key FungibleOps.to_word FungibleOps.new_unchecked FungibleOps.sub
  remove_fungible_asset asset vault =
      let value = get_value vault (FungibleOps.vault_key asset) in
      if word_eq value empty_word
      then (err (fungible_asset_not_found asset), vault)
      else let (outcome, current) =
          FungibleOps.sub (FungibleOps.new_unchecked value) asset.amount in
        then_do (map_err subtract_fungible_asset_balance_error outcome, vault)
          (λ _ t. (ok asset, (insert t (FungibleOps.vault_key asset) (remainder current)).1))

  unfoldable pub remove_non_fungible_asset :
      NonFungibleAsset → Method AssetVault AssetVaultError NonFungibleAsset
  unfolding NonFungibleOps.vault_key
  remove_non_fungible_asset asset vault =
      let (old, vault') = insert vault (NonFungibleOps.vault_key asset) empty_word in
      if word_eq old empty_word
      then (err (non_fungible_asset_not_found asset), vault')
      else (ok asset, vault')

  unfoldable pub remove_asset : ⦃F : Field⦄ → Asset → Method AssetVault AssetVaultError Asset
  remove_asset (fungible asset) vault =
      then_do (remove_fungible_asset asset vault) (λ old t. (ok (fungible old), t))
  remove_asset (non_fungible asset) vault =
      then_do (remove_non_fungible_asset asset vault) (λ old t. (ok (non_fungible old), t))

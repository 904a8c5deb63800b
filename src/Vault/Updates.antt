-- ===== src/Vault/Updates.antt =====
-- `AssetVault::apply_delta`: objects/src/assets/vault.rs.
pub mod Laws
pub mod Owned
pub mod Before
use miden_base.Base.{
  ℕ, ◌+◌, ◌-◌, ◌≤◌, ◌<◌, ◌≡◌, refl, sym, ap, subst, ◌∙◌, ◌≢◌, ◌⊎◌, inl, inr, Bool, true, false, not,
  Option, none, some, List, [], ◌∷◌, arith, ◌==◌, ==_iff, if◌then◌else◌, Bool-cases, Result, ok,
  err, panic, Method, then_do, then_do-eq-ok, All,
}
use miden_base.Base.Ints.{ℤ, pos, negsuc, ◌+ℤ◌, unsigned_abs, +ℤ_assoc, add_zero_ℤ}
use miden_base.Base.Words.{Word, Digest, Field, empty_word, word_eq}
use miden_base.Base.Trees.{Smt}
use miden_base.Errors.{AssetError, AssetVaultError}
use miden_base.Accounts.Id.{account_id_from_felt}
use miden_base.Assets.Data.{AccountId, FungibleAsset, NonFungibleAsset}
use miden_base.Assets.Fungible as FungibleOps
use miden_base.Assets.NonFungible as NonFungibleOps
use miden_base.Delta.Fungible.{FungibleAssetDelta}
use miden_base.Delta.NonFungible.{
  NonFungibleDeltaAction, add_action, remove_action, NonFungibleAssetDelta,
}
use miden_base.Delta.Vault.{AccountVaultDelta}
use miden_base.Vault.{
  AssetVault, add_fungible_asset, remove_fungible_asset, add_non_fungible_asset,
  remove_non_fungible_asset,
}

-- `delta >= 0`
abbrev pub is_non_negative : ℤ → Bool
is_non_negative (pos n) = true
is_non_negative (negsuc n) = false

module _ ⦃F : Field⦄ ⦃S : Smt⦄ where
  -- The two loops of `apply_delta`; the panic is that of `expect`.
  abbrev pub change_by :
      ℤ → Result AssetError FungibleAsset → Method AssetVault AssetVaultError FungibleAsset
  change_by delta (ok asset) self =
      if is_non_negative delta
      then add_fungible_asset asset self
      else remove_fungible_asset asset self
  change_by delta (err e) self = (panic, self)
  change_by delta panic self = (panic, self)

  unfoldable pub apply_fungible : FungibleAssetDelta → Method AssetVault AssetVaultError (Unit {0})
  apply_fungible [] self = (ok tt, self)
  apply_fungible ((faucet_id, delta) ∷ deltas) self =
      then_do (change_by delta (FungibleOps.new faucet_id (unsigned_abs delta)) self)
        (λ _ self'. apply_fungible deltas self')

  abbrev pub act_on :
      NonFungibleAsset → NonFungibleDeltaAction → Method AssetVault AssetVaultError NonFungibleAsset
  act_on asset add_action self = add_non_fungible_asset asset self
  act_on asset remove_action self = remove_non_fungible_asset asset self

  unfoldable pub apply_non_fungible :
      NonFungibleAssetDelta → Method AssetVault AssetVaultError (Unit {0})
  apply_non_fungible [] self = (ok tt, self)
  apply_non_fungible ((asset, action) ∷ deltas) self =
      then_do (act_on asset action self) (λ _ self'. apply_non_fungible deltas self')

  unfoldable pub apply_delta : AccountVaultDelta → Method AssetVault AssetVaultError (Unit {0})
  apply_delta delta self =
      then_do (apply_fungible delta.fungible self)
        (λ _ self'. apply_non_fungible delta.non_fungible self')

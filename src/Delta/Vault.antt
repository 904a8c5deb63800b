-- ===== src/Delta/Vault.antt =====
-- `AccountVaultDelta`: objects/src/accounts/delta/vault.rs.
use miden_base.Base.{Bool, ◌&&◌, Result, Method, then_do}
use miden_base.Base.Maps.{Key}
use miden_base.Errors.{AccountDeltaError}
use miden_base.Assets.Data.{NonFungibleAsset, Asset, fungible, non_fungible}
use miden_base.Delta.Fungible as FungibleDelta
use miden_base.Delta.NonFungible as NonFungibleDelta

pub record AccountVaultDelta : Type 0 where
  pub fungible : FungibleDelta.FungibleAssetDelta
  pub non_fungible : NonFungibleDelta.NonFungibleAssetDelta

unfoldable pub is_empty : AccountVaultDelta → Bool
unfolding FungibleDelta.is_empty NonFungibleDelta.is_empty
is_empty self = FungibleDelta.is_empty self.fungible && NonFungibleDelta.is_empty self.non_fungible

-- A call of a method on one of the two parts.
abbrev on_fungible :
    Result AccountDeltaError (Unit {0}) × FungibleDelta.FungibleAssetDelta
    → AccountVaultDelta
    → Result AccountDeltaError (Unit {0}) × AccountVaultDelta
on_fungible (r, m) self = (r, record self { fungible = m })

abbrev on_non_fungible :
    Result AccountDeltaError (Unit {0}) × NonFungibleDelta.NonFungibleAssetDelta
    → AccountVaultDelta
    → Result AccountDeltaError (Unit {0}) × AccountVaultDelta
on_non_fungible (r, m) self = (r, record self { non_fungible = m })

module _ ⦃K : Key NonFungibleAsset⦄ where
  unfoldable pub add_asset : Asset → Method AccountVaultDelta AccountDeltaError (Unit {0})
  unfolding FungibleDelta.add NonFungibleDelta.add
  add_asset (fungible asset) self = on_fungible (FungibleDelta.add asset self.fungible) self
  add_asset (non_fungible asset) self =
      on_non_fungible (NonFungibleDelta.add asset self.non_fungible) self

  unfoldable pub remove_asset : Asset → Method AccountVaultDelta AccountDeltaError (Unit {0})
  unfolding FungibleDelta.subtract NonFungibleDelta.subtract
  remove_asset (fungible asset) self = on_fungible (FungibleDelta.subtract asset self.fungible) self
  remove_asset (non_fungible asset) self =
      on_non_fungible (NonFungibleDelta.subtract asset self.non_fungible) self

  -- An error in the fungible part leaves the other one merged.
  unfoldable pub merge : AccountVaultDelta → Method AccountVaultDelta AccountDeltaError (Unit {0})
  unfolding FungibleDelta.merge NonFungibleDelta.merge
  merge other self =
      then_do (on_non_fungible (NonFungibleDelta.merge other.non_fungible self.non_fungible) self)
        (λ _ self'. on_fungible (FungibleDelta.merge other.fungible self'.fungible) self')

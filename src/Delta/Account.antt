-- ===== src/Delta/Account.antt =====
-- `AccountDelta`: objects/src/accounts/delta/mod.rs.
pub mod Laws
pub mod Parts
use miden_base.Base.{
  Bool, true, false, not, ◌&&◌, ◌||◌, Option, none, some, leb, ◌==◌, if◌then◌else◌, Result, ok, err,
  panic, fail_if, Method, then_do, ◌>>=◌,
}
use miden_base.Base.Words.{Felt, Digest}
use miden_base.Base.Maps.{Key}
use miden_base.Base.Maps.Sorted.{or_none}
use miden_base.Errors.{AccountDeltaError, inconsistent_nonce_update}
use miden_base.Assets.Data.{NonFungibleAsset}
use miden_base.Delta.Storage as StorageDelta
use miden_base.Delta.Vault as VaultDelta

pub record AccountDelta : Type 0 where
  pub storage : StorageDelta.AccountStorageDelta
  pub vault : VaultDelta.AccountVaultDelta
  pub nonce : Option Felt

-- `validate_nonce`
abbrev check_nonce : Option Felt → Result AccountDeltaError (Unit {0})
check_nonce none = err inconsistent_nonce_update
check_nonce (some nonce) = fail_if (nonce == 0) inconsistent_nonce_update (ok tt)

unfoldable pub validate_nonce :
    Option Felt
    → StorageDelta.AccountStorageDelta
    → VaultDelta.AccountVaultDelta
    → Result AccountDeltaError (Unit {0})
unfolding StorageDelta.is_empty VaultDelta.is_empty
validate_nonce nonce storage vault =
    if not (StorageDelta.is_empty storage) || not (VaultDelta.is_empty vault)
    then check_nonce nonce
    else ok tt

-- `AccountDelta::new`
unfoldable pub new :
    StorageDelta.AccountStorageDelta
    → VaultDelta.AccountVaultDelta
    → Option Felt
    → Result AccountDeltaError AccountDelta
new storage vault nonce = do
  _ ← validate_nonce nonce storage vault
  ok (record { storage = storage; vault = vault; nonce = nonce })

unfoldable pub is_empty : AccountDelta → Bool
unfolding StorageDelta.is_empty VaultDelta.is_empty
is_empty self = StorageDelta.is_empty self.storage && VaultDelta.is_empty self.vault

-- The match at the start of `merge`: the new nonce, or nothing if it is refused.
unfoldable pub merge_nonce : Option Felt → Option Felt → Option (Option Felt)
merge_nonce (some old) (some new) = if leb new old then none else some (some new)
merge_nonce none new = some new
merge_nonce (some old) none = some (some old)

abbrev pub on_storage :
    Result AccountDeltaError (Unit {0}) × StorageDelta.AccountStorageDelta
    → AccountDelta
    → Result AccountDeltaError (Unit {0}) × AccountDelta
on_storage (r, s) self = (r, record self { storage = s })

abbrev pub on_vault :
    Result AccountDeltaError (Unit {0}) × VaultDelta.AccountVaultDelta
    → AccountDelta
    → Result AccountDeltaError (Unit {0}) × AccountDelta
on_vault (r, v) self = (r, record self { vault = v })

module _ ⦃D : Key Digest⦄ ⦃N : Key NonFungibleAsset⦄ where
  -- The rest of `merge`, after the match on the nonces. An error in the storage or the vault leaves
  -- the nonce updated.
  unfoldable pub merge_with :
      Option (Option Felt) → AccountDelta → Method AccountDelta AccountDeltaError (Unit {0})
  unfolding StorageDelta.merge VaultDelta.merge
  merge_with none other self = (err inconsistent_nonce_update, self)
  merge_with (some nonce) other self =
      then_do
        (on_storage (StorageDelta.merge other.storage self.storage) (record self { nonce = nonce }))
        (λ _ self'. on_vault (VaultDelta.merge other.vault self'.vault) self')

  unfoldable pub merge : AccountDelta → Method AccountDelta AccountDeltaError (Unit {0})
  merge other self = merge_with (merge_nonce self.nonce other.nonce) other self

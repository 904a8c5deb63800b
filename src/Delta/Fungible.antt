-- ===== src/Delta/Fungible.antt =====
-- `FungibleAssetDelta`, a map from faucets to `i64`: objects/src/accounts/delta/vault.rs.
pub mod Laws
use miden_base.Base.{
  ℕ, ◌^◌, Bool, true, false, not, Option, none, some, List, [], ◌∷◌, ltb, if◌then◌else◌, Result, ok,
  err, panic, fail_if, Method, then_do, ◌>>=◌,
}
use miden_base.Base.Ints.{ℤ, pos, neg, is_zero, checked_add_i64}
use miden_base.Base.Maps.{Map, nat_key, lookup, insert, remove}
use miden_base.Errors.{
  AccountDeltaError, fungible_asset_delta_overflow, delta_not_a_fungible_faucet_id,
}
use miden_base.Accounts.Kinds.{fungible_faucet, type_eq}
use miden_base.Accounts.Id.{account_type}
use miden_base.Assets.Data.{AccountId, FungibleAsset}

abbrev pub FungibleAssetDelta : Type 0
FungibleAssetDelta = Map AccountId ℤ

unfoldable pub validate : FungibleAssetDelta → Result AccountDeltaError (Unit {0})
validate [] = ok tt
validate ((faucet_id, _) ∷ delta) =
    let rest = validate delta in
    fail_if (not (type_eq (account_type faucet_id) fungible_faucet))
      (delta_not_a_fungible_faucet_id faucet_id) rest

-- `FungibleAssetDelta::new`
unfoldable pub new : Map AccountId ℤ → Result AccountDeltaError FungibleAssetDelta
new map = do _ ← validate map; ok map

unfoldable pub add_delta : AccountId → ℤ → Method FungibleAssetDelta AccountDeltaError (Unit {0})
add_delta faucet_id delta self = elim (lookup faucet_id self) [
  | none ↦ (ok tt, insert faucet_id delta self)
  | some old ↦ elim (checked_add_i64 old delta) [
    | none ↦ (err (fungible_asset_delta_overflow faucet_id old delta), self)
    | some total ↦
        if is_zero total
        then (ok tt, remove faucet_id self)
        else (ok tt, insert faucet_id total self)
  ]
]

-- `add` and `remove` panic on an amount that is no `i64`.
unfoldable pub add : FungibleAsset → Method FungibleAssetDelta AccountDeltaError (Unit {0})
add asset self =
    if ltb asset.amount (2 ^ 63)
    then add_delta asset.faucet_id (pos asset.amount) self
    else (panic, self)

unfoldable pub subtract : FungibleAsset → Method FungibleAssetDelta AccountDeltaError (Unit {0})
subtract asset self =
    if ltb asset.amount (2 ^ 63)
    then add_delta asset.faucet_id (neg asset.amount) self
    else (panic, self)

unfoldable pub is_empty : FungibleAssetDelta → Bool
is_empty [] = true
is_empty (_ ∷ _) = false

-- The loop stops at the first error and keeps what was merged before it.
unfoldable pub merge : FungibleAssetDelta → Method FungibleAssetDelta AccountDeltaError (Unit {0})
merge [] self = (ok tt, self)
merge ((faucet_id, amount) ∷ other) self =
    then_do (add_delta faucet_id amount self) (λ _ self'. merge other self')

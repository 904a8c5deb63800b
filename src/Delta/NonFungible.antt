-- ===== src/Delta/NonFungible.antt =====
-- `NonFungibleAssetDelta`: objects/src/accounts/delta/vault.rs. The order of the keys, that of
-- digests, is an instance argument.
pub mod Laws
use miden_base.Base.{
  ℕ, Bool, true, false, Option, none, some, List, [], ◌∷◌, map, if◌then◌else◌, Result, ok, err,
  panic, Method, then_do,
}
use miden_base.Base.Maps.{Map, Key, lookup, insert, remove}
use miden_base.Errors.{AccountDeltaError, duplicate_non_fungible_vault_update}
use miden_base.Assets.Data.{NonFungibleAsset}

pub data NonFungibleDeltaAction : Type 0 where
  add_action remove_action : NonFungibleDeltaAction

abbrev pub action_eq : NonFungibleDeltaAction → NonFungibleDeltaAction → Bool
action_eq add_action add_action = true
action_eq remove_action remove_action = true
action_eq _ _ = false

abbrev pub NonFungibleAssetDelta : Type 0
NonFungibleAssetDelta = Map NonFungibleAsset NonFungibleDeltaAction

unfoldable pub is_empty : NonFungibleAssetDelta → Bool
is_empty [] = true
is_empty (_ ∷ _) = false

-- `filter_by_action`
unfoldable pub filter_by_action :
    NonFungibleDeltaAction → NonFungibleAssetDelta → List NonFungibleAsset
filter_by_action action [] = []
filter_by_action action ((asset, current) ∷ delta) =
    let rest = filter_by_action action delta in
    if action_eq current action then asset ∷ rest else rest

module _ ⦃K : Key NonFungibleAsset⦄ where
  unfoldable pub apply_action :
      NonFungibleAsset
      → NonFungibleDeltaAction
      → Method NonFungibleAssetDelta AccountDeltaError (Unit {0})
  apply_action asset action self = elim (lookup asset self) [
    | none ↦ (ok tt, insert asset action self)
    | some previous ↦
        if action_eq previous action
        then (err (duplicate_non_fungible_vault_update asset), self)
        else (ok tt, remove asset self)
  ]

  -- `NonFungibleAssetDelta::add` and `remove`.
  unfoldable pub add : NonFungibleAsset → Method NonFungibleAssetDelta AccountDeltaError (Unit {0})
  unfolding apply_action
  add asset = apply_action asset add_action

  unfoldable pub subtract :
      NonFungibleAsset → Method NonFungibleAssetDelta AccountDeltaError (Unit {0})
  unfolding apply_action
  subtract asset = apply_action asset remove_action

  -- The loop stops at the first error and keeps what was merged before it.
  unfoldable pub merge :
      NonFungibleAssetDelta → Method NonFungibleAssetDelta AccountDeltaError (Unit {0})
  merge [] self = (ok tt, self)
  merge ((asset, action) ∷ other) self =
      then_do (apply_action asset action self) (λ _ self'. merge other self')

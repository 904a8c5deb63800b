-- ===== src/Tests/Vaults.antt =====
-- The vault's theorems at concrete vaults.
use miden_base.Base.{◌≡◌, refl, inl, inr, [], ◌∷◌, arith, ok}
use miden_base.Base.Ints.{pos, negsuc, ◌+ℤ◌}
use miden_base.Base.Maps.{lookup, nat_key}
use miden_base.Assets.Data.{AccountId, NonFungibleAsset, fungible}
use miden_base.Assets.Fungible as FungibleOps
use miden_base.Assets.NonFungible as NonFungibleOps
use miden_base.Assets.Whole
use miden_base.Delta.Fungible.Laws.{change}
use miden_base.Delta.NonFungible.{add_action}
use miden_base.Delta.Vault.{AccountVaultDelta}
use miden_base.Vault as Vaults
use miden_base.Vault.{add_asset, remove_asset}
use miden_base.Vault.Entries.{IsVault, balance, fungible_key, fungible_word, insert-IsVault}
use miden_base.Vault.NonFungible.{owns}
use miden_base.Vault.Holdings.{Added, Removed}
use miden_base.Vault.Holdings.Refines.{add_asset-Added, remove_asset-Removed}
use miden_base.Vault.Updates.{apply_delta}
use miden_base.Vault.Updates.Owned.{apply_delta-holdings, owned_after}
use miden_base.Tests.Values.{
  goldilocks, Entries, entries_smt, asset_key, coin_faucet, coins, painting, coins-IsValid,
  painting-IsValid, coin_faucet-valid,
}

nothing_stored : IsVault []
nothing_stored = record { entry = λ k. inl refl }

-- A vault with 70 coins.
abbrev pub savings : Entries
savings = (fungible_key coin_faucet, fungible_word coin_faucet 70) ∷ []

pub savings-IsVault : IsVault savings
unfolding Whole.vault_key Whole.to_word
savings-IsVault =
    insert-IsVault [] (fungible_key coin_faucet) (fungible_word coin_faucet 70) nothing_stored
      (inr (fungible (coins 70), coins-IsValid 70 (omega arith), refl, refl))

add_asset-Added_example :
    Added (fungible (coins 30)) savings (add_asset (fungible (coins 30)) savings)
add_asset-Added_example =
    add_asset-Added savings (fungible (coins 30)) savings-IsVault (coins-IsValid 30 (omega arith))

remove_asset-Removed_example :
    Removed (fungible (coins 30)) savings (remove_asset (fungible (coins 30)) savings)
remove_asset-Removed_example =
    remove_asset-Removed savings (fungible (coins 30)) savings-IsVault
      (coins-IsValid 30 (omega arith))

-- The 70 coins have become 50, and a painting has come.
abbrev purchase : AccountVaultDelta
purchase = record {
  fungible = (coin_faucet, negsuc 19) ∷ [];
  non_fungible = (painting, add_action) ∷ [];
}

abbrev bought : Entries
bought = (apply_delta purchase savings).1

bought_ok : apply_delta purchase savings ≡ (ok tt, bought)
unfolding apply_delta miden_base.Vault.Updates.apply_fungible FungibleOps.new
    miden_base.Accounts.Kinds.account_type_from_u64 Vaults.remove_fungible_asset
    miden_base.Vault.Updates.apply_non_fungible Vaults.add_non_fungible_asset
bought_ok = refl

apply_delta-holdings_example :
    IsVault bought
    × ((j : AccountId)
        → pos (balance bought j) ≡ pos (balance savings j) +ℤ change purchase.fungible j)
    × ((n : NonFungibleAsset)
        → NonFungibleOps.Laws.IsValid n
        → owns bought n ≡ owned_after (lookup n purchase.non_fungible) (owns savings n))
apply_delta-holdings_example =
    apply_delta-holdings purchase savings bought savings-IsVault (coin_faucet-valid, tt) (tt, tt)
      (painting-IsValid, tt) (tt, tt) bought_ok

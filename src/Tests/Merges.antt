-- ===== src/Tests/Merges.antt =====
-- The theorem on merged deltas at an account that takes a deposit and then a withdrawal.
use miden_base.Base.{ℕ, ◌≡◌, refl, [], ◌∷◌, ok}
use miden_base.Base.Ints.{checked_add_i64}
use miden_base.Base.Maps.{lookup, insert, remove, extend}
use miden_base.Base.Words.{Word, empty_word}
use miden_base.Accounts.Kinds.{account_type_from_u64}
use miden_base.Accounts.Storage as AccountStorage
use miden_base.Accounts.Account.{Account, apply_delta}
use miden_base.Accounts.Account.WellFormed.{IsWellFormed}
use miden_base.Accounts.Account.Merged.{Agree, merge-Agree}
use miden_base.Assets.Fungible as FungibleOps
use miden_base.Vault as Vaults
use miden_base.Vault.Updates as Updates
use miden_base.Delta.Account as Deltas
use miden_base.Delta.Storage as StorageDelta
use miden_base.Delta.Fungible as FungibleDelta
use miden_base.Delta.NonFungible as NonFungibleDelta
use miden_base.Tests.Values.{
  goldilocks, Entries, entries_smt, digest_key, asset_key, wallet, coin_faucet-valid,
  painting-IsValid,
}
use miden_base.Tests.Vaults.{savings, savings-IsVault}
use miden_base.Tests.Deltas.{deposit, withdrawal, both, both_ok}

abbrev word_of : ℕ → Word
word_of n = record empty_word { e0 = n }

abbrev account : Account Entries
account = record {
  id = wallet;
  vault = savings;
  storage =
      AccountStorage.value (word_of 9)
      ∷ AccountStorage.value (word_of 1)
      ∷ AccountStorage.map ((word_of 2, word_of 3) ∷ [])
      ∷ [];
  code = record { commitment = empty_word; procedures = [] };
  nonce = 2;
}

abbrev after_deposit : Account Entries
after_deposit = (apply_delta deposit account).1

abbrev after_withdrawal : Account Entries
after_withdrawal = (apply_delta withdrawal after_deposit).1

abbrev after_both : Account Entries
after_both = (apply_delta both account).1

deposit_ok : apply_delta deposit account ≡ (ok tt, after_deposit)
unfolding apply_delta Updates.apply_fungible FungibleOps.new account_type_from_u64
    Vaults.add_fungible_asset FungibleOps.add Updates.apply_non_fungible
    Vaults.add_non_fungible_asset AccountStorage.apply_maps AccountStorage.apply_map
    AccountStorage.apply_values AccountStorage.set_item
deposit_ok = refl

withdrawal_ok : apply_delta withdrawal after_deposit ≡ (ok tt, after_withdrawal)
unfolding apply_delta Updates.apply_fungible FungibleOps.new account_type_from_u64
    Vaults.remove_fungible_asset Vaults.add_fungible_asset FungibleOps.add
    Updates.apply_non_fungible Vaults.add_non_fungible_asset Vaults.remove_non_fungible_asset
    AccountStorage.apply_maps AccountStorage.apply_map AccountStorage.apply_values
    AccountStorage.set_item
withdrawal_ok = refl

both_applied : apply_delta both account ≡ (ok tt, after_both)
unfolding apply_delta Updates.apply_fungible FungibleOps.new account_type_from_u64
    Vaults.remove_fungible_asset Vaults.add_fungible_asset FungibleOps.add
    Updates.apply_non_fungible Vaults.add_non_fungible_asset Vaults.remove_non_fungible_asset
    AccountStorage.apply_maps AccountStorage.apply_map AccountStorage.apply_values
    AccountStorage.set_item Deltas.merge Deltas.merge_with Deltas.merge_nonce StorageDelta.validate
    StorageDelta.check_slots StorageDelta.merge_maps lookup insert remove extend
    NonFungibleDelta.apply_action FungibleDelta.add_delta checked_add_i64
both_applied = refl

deposit-IsWellFormed : IsWellFormed deposit
deposit-IsWellFormed = record {
  faucets = (coin_faucet-valid, tt);
  fungible = (tt, tt);
  assets = (painting-IsValid, tt);
  non_fungible = (tt, tt);
  values = (tt, tt);
  maps = ((tt, tt), ((tt, tt), tt));
}

withdrawal-IsWellFormed : IsWellFormed withdrawal
withdrawal-IsWellFormed = record {
  faucets = (coin_faucet-valid, tt);
  fungible = (tt, tt);
  assets = (painting-IsValid, tt);
  non_fungible = (tt, tt);
  values = (tt, tt);
  maps = ((tt, tt), ((refl, (tt, tt)), tt));
}

merge-Agree_example : Agree after_withdrawal after_both
merge-Agree_example =
    merge-Agree deposit withdrawal both account after_deposit after_withdrawal after_both
      savings-IsVault deposit-IsWellFormed withdrawal-IsWellFormed ((tt, tt), (refl, tt)) deposit_ok
      withdrawal_ok both_ok both_applied

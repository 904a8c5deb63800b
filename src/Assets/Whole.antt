-- ===== src/Assets/Whole.antt =====
-- `Asset`: objects/src/assets/mod.rs.
pub mod Laws
use miden_base.Base.{
  ℕ, bit_and, Bool, true, false, ◌==◌, if◌then◌else◌, Result, ok, err, panic, ◌>>=◌,
}
use miden_base.Base.Words.{Field, Word, word_eq}
use miden_base.Errors.{AssetError}
use miden_base.Accounts.Kinds.{account_isfaucet_mask}
use miden_base.Assets.Data.{
  AccountId, FungibleAsset, NonFungibleAsset, Asset, fungible, non_fungible,
}
use miden_base.Assets.Fungible
use miden_base.Assets.NonFungible

-- The test that tells the two kinds of words apart.
unfoldable pub is_not_a_non_fungible_asset : Word → Bool
is_not_a_non_fungible_asset asset = bit_and asset.e3 account_isfaucet_mask == account_isfaucet_mask

unfoldable pub new_unchecked : Word → Asset
unfolding is_not_a_non_fungible_asset Fungible.new_unchecked NonFungible.new_unchecked
new_unchecked value =
    if is_not_a_non_fungible_asset value
    then fungible (Fungible.new_unchecked value)
    else non_fungible (NonFungible.new_unchecked value)

unfoldable pub is_same : Asset → Asset → Bool
unfolding Fungible.is_from_same_faucet
is_same (fungible l) (fungible r) = Fungible.is_from_same_faucet l r
is_same (non_fungible l) (non_fungible r) = word_eq l.word r.word
is_same _ _ = false

unfoldable pub is_fungible : Asset → Bool
is_fungible (fungible _) = true
is_fungible (non_fungible _) = false

unfoldable pub faucet_id : Asset → AccountId
unfolding NonFungible.faucet_id
faucet_id (fungible a) = a.faucet_id
faucet_id (non_fungible a) = NonFungible.faucet_id a

unfoldable pub vault_key : Asset → Word
unfolding Fungible.vault_key NonFungible.vault_key
vault_key (fungible a) = Fungible.vault_key a
vault_key (non_fungible a) = NonFungible.vault_key a

-- `unwrap_fungible` and `unwrap_non_fungible` panic on the other kind.
unfoldable pub unwrap_fungible : Asset → Result AssetError FungibleAsset
unwrap_fungible (fungible a) = ok a
unwrap_fungible (non_fungible _) = panic

unfoldable pub unwrap_non_fungible : Asset → Result AssetError NonFungibleAsset
unwrap_non_fungible (fungible _) = panic
unwrap_non_fungible (non_fungible a) = ok a

-- `From<Asset> for Word`
unfoldable pub to_word : ⦃F : Field⦄ → Asset → Word
unfolding Fungible.to_word
to_word (fungible a) = Fungible.to_word a
to_word (non_fungible a) = a.word

-- `TryFrom<Word> for Asset`
unfoldable pub try_from_word : Word → Result AssetError Asset
unfolding is_not_a_non_fungible_asset Fungible.try_from_word NonFungible.try_from_word
try_from_word value =
    if is_not_a_non_fungible_asset value
    then (do a ← Fungible.try_from_word value; ok (fungible a))
    else (do a ← NonFungible.try_from_word value; ok (non_fungible a))

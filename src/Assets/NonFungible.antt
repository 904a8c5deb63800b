-- ===== src/Assets/NonFungible.antt =====
-- `NonFungibleAsset`: objects/src/assets/nonfungible.rs.
pub mod Laws
use miden_base.Base.{
  ℕ, bit_and, bit_xor, Bool, true, false, not, List, ◌==◌, Result, ok, err, panic, fail_if, map_err,
  ◌>>=◌,
}
use miden_base.Base.Words.{Felt, Field, Word, Digest}
use miden_base.Errors.{
  AssetError, invalid_account_id, not_a_fungible_faucet_id, not_a_non_fungible_faucet_id,
}
use miden_base.Accounts.Kinds.{non_fungible_faucet, type_eq, account_isfaucet_mask}
use miden_base.Accounts.Id.{account_type, account_id_from_felt}
use miden_base.Assets.Data.{AccountId, NonFungibleAsset}

-- The word with the faucet at index 1 and the bit of `ACCOUNT_ISFAUCET_MASK` at index 3 cleared.
unfoldable pub from_parts : ⦃F : Field⦄ → AccountId → Word → Result AssetError NonFungibleAsset
from_parts ⦃F⦄ faucet_id data_hash =
    fail_if (not (type_eq (account_type faucet_id) non_fungible_faucet))
      (not_a_non_fungible_faucet_id faucet_id)
      (ok (record {
        word = record data_hash {
          e1 = faucet_id;
          e3 = F.felt_new (bit_xor (bit_and data_hash.e3 account_isfaucet_mask) data_hash.e3);
        };
      }))

-- `NonFungibleAssetDetails`
pub record NonFungibleAssetDetails : Type 0 where
  pub faucet_id : AccountId
  pub asset_data : List ℕ

-- `NonFungibleAssetDetails::new`
unfoldable pub details_new : AccountId → List ℕ → Result AssetError NonFungibleAssetDetails
details_new faucet_id asset_data =
    fail_if (not (type_eq (account_type faucet_id) non_fungible_faucet))
      (not_a_non_fungible_faucet_id faucet_id)
      (ok (record { faucet_id = faucet_id; asset_data = asset_data }))

-- `NonFungibleAsset::new`; `Hasher::hash` on bytes is the parameter.
unfoldable pub new :
    ⦃F : Field⦄ → (List ℕ → Digest) → NonFungibleAssetDetails → Result AssetError NonFungibleAsset
unfolding from_parts
new hash details = from_parts details.faucet_id (hash details.asset_data)

unfoldable pub new_unchecked : Word → NonFungibleAsset
new_unchecked value = record { word = value }

unfoldable pub vault_key : NonFungibleAsset → Word
vault_key asset = asset.word

unfoldable pub faucet_id : NonFungibleAsset → AccountId
faucet_id asset = asset.word.e1

unfoldable pub validate : NonFungibleAsset → Result AssetError (Unit {0})
validate asset = do
  id ← map_err (λ _. invalid_account_id) (account_id_from_felt asset.word.e1)
  fail_if (not (type_eq (account_type id) non_fungible_faucet))
      (not_a_fungible_faucet_id id (account_type id)) (ok tt)

-- `TryFrom<Word> for NonFungibleAsset`
unfoldable pub try_from_word : Word → Result AssetError NonFungibleAsset
unfolding validate
try_from_word value = do
  let asset : NonFungibleAsset = record { word = value }
  _ ← validate asset
  ok asset

-- ===== src/Assets/Fungible.antt =====
-- `FungibleAsset`: objects/src/assets/fungible.rs.
pub mod Laws
use miden_base.Base.{
  ℕ, ◌+◌, ◌-◌, ◌^◌, Bool, true, false, ◌||◌, not, Option, none, some, ltb, leb, ◌==◌, if◌then◌else◌,
  Result, ok, err, panic, fail_if, map_err, ◌>>=◌,
}
use miden_base.Base.Words.{Felt, Field, Word, empty_word}
use miden_base.Errors.{
  AssetError, amount_too_big, asset_amount_not_sufficient, fungible_asset_invalid_word,
  inconsistent_faucet_ids, invalid_account_id, not_a_fungible_faucet_id,
}
use miden_base.Accounts.Kinds.{AccountType, fungible_faucet, type_eq}
use miden_base.Accounts.Id.{account_type, account_id_from_felt}
use miden_base.Assets.Data.{AccountId, FungibleAsset}

-- `FungibleAsset::MAX_AMOUNT`
abbrev pub max_amount : ℕ
max_amount = 2 ^ 63 - 1

unfoldable pub validate : FungibleAsset → Result AssetError FungibleAsset
validate asset =
    fail_if (not (type_eq (account_type asset.faucet_id) fungible_faucet))
      (not_a_fungible_faucet_id asset.faucet_id (account_type asset.faucet_id))
      (fail_if (ltb max_amount asset.amount) (amount_too_big asset.amount) (ok asset))

-- `FungibleAsset::new`
unfoldable pub new : AccountId → ℕ → Result AssetError FungibleAsset
unfolding validate
new faucet_id amount = validate (record { faucet_id = faucet_id; amount = amount })

unfoldable pub new_unchecked : Word → FungibleAsset
new_unchecked value = record { faucet_id = value.e3; amount = value.e0 }

unfoldable pub is_from_same_faucet : FungibleAsset → FungibleAsset → Bool
is_from_same_faucet a b = a.faucet_id == b.faucet_id

unfoldable pub vault_key : FungibleAsset → Word
vault_key asset = record empty_word { e3 = asset.faucet_id }

-- `u64::checked_add` and `u64::checked_sub`.
abbrev checked_add : ℕ → ℕ → Option ℕ
checked_add a b = if ltb (a + b) (2 ^ 64) then some (a + b) else none

abbrev checked_sub : ℕ → ℕ → Option ℕ
checked_sub a b = if leb b a then some (a - b) else none

-- The panic is that of `expect("overflow!")`.
unfoldable pub add : FungibleAsset → FungibleAsset → Result AssetError FungibleAsset
add a b =
    fail_if (not (a.faucet_id == b.faucet_id)) (inconsistent_faucet_ids a.faucet_id b.faucet_id)
      (elim (checked_add a.amount b.amount) [
        | none ↦ panic
        | some amount ↦
            fail_if (ltb max_amount amount) (amount_too_big amount)
              (ok (record { faucet_id = a.faucet_id; amount = amount }))
      ])

-- A method on `&mut self`: the asset afterwards stands beside the outcome, which is an asset of
-- the amount that was asked for.
unfoldable pub sub : FungibleAsset → ℕ → Result AssetError FungibleAsset × FungibleAsset
sub a amount = elim (checked_sub a.amount amount) [
  | none ↦ (err (asset_amount_not_sufficient a.amount amount), a)
  | some rest ↦
      (ok (record { faucet_id = a.faucet_id; amount = amount }), record a { amount = rest })
]

-- `From<FungibleAsset> for Word`
unfoldable pub to_word : ⦃F : Field⦄ → FungibleAsset → Word
to_word ⦃F⦄ asset = record empty_word { e0 = F.felt_new asset.amount; e3 = asset.faucet_id }

-- `TryFrom<Word> for FungibleAsset`
unfoldable pub try_from_word : Word → Result AssetError FungibleAsset
unfolding new
try_from_word value =
    fail_if (not (value.e1 == 0) || not (value.e2 == 0)) (fungible_asset_invalid_word value) (do
      faucet_id ← map_err (λ _. invalid_account_id) (account_id_from_felt value.e3)
      new faucet_id value.e0)

-- ===== src/Accounts/Id.antt =====
-- Account identifiers: objects/src/accounts/account_id.rs.
pub mod Laws
use miden_base.Base.{
  ℕ, zero, suc, ◌+◌, ◌*◌, ◌/◌, ◌%◌, ◌^◌, bit_and, bit_xor, Bool, true, false, ◌||◌, Option, none,
  some, List, [], ◌∷◌, ◌++◌, ltb, ◌==◌, if◌then◌else◌, length, replicate, Result, ok, err, panic,
  fail_if, ok_or, ◌>>=◌,
}
use miden_base.Base.Bits.{◌<<◌, ◌>>◌}
use miden_base.Base.Words.{Felt, Word, Digest, word_elements}
use miden_base.Errors.{
  AccountError, account_id_too_few_ones, invalid_account_storage_mode,
  account_id_invalid_field_element, seed_digest_too_few_trailing_zeros,
}
use miden_base.Accounts.Kinds.{
  AccountType, account_type_from_u64, type_code, type_is_faucet, type_is_regular_account,
  AccountStorageMode, public, private, mode_code, mode_eq, account_storage_mask,
  account_storage_mask_shift, account_type_mask_shift,
}
use miden_base.Assets.Data.{AccountId}

-- The values outside the crate's `testing` feature.
abbrev pub regular_account_seed_digest_min_trailing_zeros : ℕ
regular_account_seed_digest_min_trailing_zeros = 23

abbrev pub faucet_seed_digest_min_trailing_zeros : ℕ
faucet_seed_digest_min_trailing_zeros = 31

abbrev pub min_account_ones : ℕ
min_account_ones = 5

-- The number of ones among the lowest `n` bits.
unfoldable pub ones : ℕ → ℕ → ℕ
ones zero v = 0
ones (suc n) v = v % 2 + ones n (v / 2)

-- `u64::count_ones`
abbrev pub count_ones : ℕ → ℕ
count_ones v = ones 64 v

-- The zeros below the lowest one, among the lowest `n` bits.
unfoldable pub zeros : ℕ → ℕ → ℕ
zeros zero v = 0
zeros (suc n) v = let rest = suc (zeros n (v / 2)) in if v % 2 == 0 then rest else 0

-- `u64::trailing_zeros`
abbrev pub trailing_zeros : ℕ → ℕ
trailing_zeros v = zeros 64 v

-- `AccountId::account_type`, `is_faucet` and `is_regular_account`.
abbrev pub account_type : AccountId → AccountType
account_type id = account_type_from_u64 id

unfoldable pub is_faucet : AccountId → Bool
is_faucet id = type_is_faucet (account_type id)

unfoldable pub is_regular_account : AccountId → Bool
is_regular_account id = type_is_regular_account (account_type_from_u64 id)

abbrev storage_bits : ℕ → ℕ
storage_bits v = bit_and v account_storage_mask >> account_storage_mask_shift

-- The code panics on any other bits.
unfoldable pub storage_mode : AccountId → Result AccountError AccountStorageMode
storage_mode id =
    if storage_bits id == 0 then ok public else if storage_bits id == 2 then ok private else panic

unfoldable pub is_public : AccountId → Result AccountError Bool
unfolding storage_mode
is_public id = do mode ← storage_mode id; ok (mode_eq mode public)

unfoldable pub account_id_from_felt : Felt → Result AccountError AccountId
account_id_from_felt value =
    let count = count_ones value in
    fail_if (ltb count min_account_ones) (account_id_too_few_ones min_account_ones count) (
      if (storage_bits value == 0) || (storage_bits value == 2)
      then ok value
      else err invalid_account_storage_mode)

-- Little-endian bytes of a `u64`, as `to_le_bytes` gives them.
unfoldable pub le_bytes : ℕ → ℕ → List ℕ
le_bytes zero v = []
le_bytes (suc n) v = v % 256 ∷ le_bytes n (v / 256)

-- `From<AccountId> for [u8; 8]`.
unfoldable pub id_to_bytes : AccountId → List ℕ
unfolding le_bytes
id_to_bytes id = le_bytes 8 id

-- `Felt::try_from(bytes)` is the parameter.
module _ (felt_try_from : List ℕ → Option Felt) where
  unfoldable pub parse_felt : List ℕ → Result AccountError Felt
  parse_felt bytes = ok_or (felt_try_from bytes) account_id_invalid_field_element

  -- `TryFrom<[u8; 8]>` and `TryFrom<u64>`.
  unfoldable pub id_try_from_bytes : List ℕ → Result AccountError AccountId
  id_try_from_bytes value = do element ← parse_felt value; account_id_from_felt element

  unfoldable pub id_try_from_u64 : ℕ → Result AccountError AccountId
  id_try_from_u64 value = do element ← parse_felt (le_bytes 8 value); account_id_from_felt element

unfoldable pub digest_pow : Digest → ℕ
digest_pow digest = trailing_zeros digest.e3

unfoldable pub validate_seed_digest : Digest → Result AccountError (Unit {0})
validate_seed_digest digest =
    let required_zeros =
      if is_regular_account digest.e0
      then regular_account_seed_digest_min_trailing_zeros
      else faucet_seed_digest_min_trailing_zeros in
    let trailing = digest_pow digest in
    fail_if (ltb trailing required_zeros)
      (seed_digest_too_few_trailing_zeros required_zeros trailing) (ok tt)

-- `Hasher::hash_elements` is the parameter.
module _ (hash_elements : List Felt → Digest) where
  unfoldable pub compute_digest : Word → Digest → Digest → Digest
  compute_digest seed code_commitment storage_commitment = hash_elements (
      word_elements seed
      ++ (word_elements code_commitment ++ (word_elements storage_commitment ++ replicate 4 0)))

  -- `AccountId::new`
  unfoldable pub id_new : Word → Digest → Digest → Result AccountError AccountId
  id_new seed code_commitment storage_commitment =
      let seed_digest = compute_digest seed code_commitment storage_commitment in
      do _ ← validate_seed_digest seed_digest; account_id_from_felt seed_digest.e0

-- `testing::account_id`
unfoldable pub account_id : AccountType → AccountStorageMode → ℕ → ℕ
account_id account_type storage_mode rest =
    bit_xor
      (bit_xor (bit_xor 0 (mode_code storage_mode << account_storage_mask_shift))
        (type_code account_type << account_type_mask_shift))
      rest

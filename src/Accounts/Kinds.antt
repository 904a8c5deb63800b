-- ===== src/Accounts/Kinds.antt =====
-- Account types and storage modes: objects/src/accounts/account_id.rs.
use miden_base.Base.{ℕ, ◌/◌, ◌%◌, ◌^◌, bit_and, ◌≡◌, Bool, true, false, arith, ◌==◌, if◌then◌else◌}
use miden_base.Base.Bits.{◌<<◌, ◌>>◌, field_of_two}

abbrev pub account_storage_mask_shift : ℕ
account_storage_mask_shift = 62

abbrev pub account_storage_mask : ℕ
account_storage_mask = 3 << account_storage_mask_shift

abbrev pub account_type_mask_shift : ℕ
account_type_mask_shift = 60

abbrev pub account_type_mask : ℕ
account_type_mask = 3 << account_type_mask_shift

abbrev pub account_isfaucet_mask : ℕ
account_isfaucet_mask = 2 << account_type_mask_shift

pub data AccountType : Type 0 where
  fungible_faucet non_fungible_faucet : AccountType
  regular_account_immutable_code regular_account_updatable_code : AccountType

-- The discriminants: `account_type as u64`.
abbrev pub type_code : AccountType → ℕ
type_code fungible_faucet = 2
type_code non_fungible_faucet = 3
type_code regular_account_immutable_code = 0
type_code regular_account_updatable_code = 1

abbrev pub type_eq : AccountType → AccountType → Bool
type_eq a b = type_code a == type_code b

-- `AccountType::is_faucet` and `is_regular_account`.
abbrev pub type_is_faucet : AccountType → Bool
type_is_faucet fungible_faucet = true
type_is_faucet non_fungible_faucet = true
type_is_faucet _ = false

abbrev pub type_is_regular_account : AccountType → Bool
type_is_regular_account regular_account_immutable_code = true
type_is_regular_account regular_account_updatable_code = true
type_is_regular_account _ = false

-- The arms in the order of the source. The two bits are below 4, so its last arm, `unreachable!`,
-- stands for no value; here the test for 3 is the last.
unfoldable pub account_type_from_u64 : ℕ → AccountType
account_type_from_u64 value =
    let bits = bit_and value account_type_mask >> account_type_mask_shift in
    if bits == 1
    then regular_account_updatable_code
    else if bits == 0
    then regular_account_immutable_code
    else if bits == 2
    then fungible_faucet
    else non_fungible_faucet

-- `PUBLIC` and `PRIVATE`.
pub data AccountStorageMode : Type 0 where
  public private : AccountStorageMode

abbrev pub mode_code : AccountStorageMode → ℕ
mode_code public = 0
mode_code private = 2

abbrev pub mode_eq : AccountStorageMode → AccountStorageMode → Bool
mode_eq a b = mode_code a == mode_code b

-- The account type is bits 60 and 61 of the number, whatever the other bits are.
pub type_code-account_type_from_u64 : (v : ℕ) → type_code (account_type_from_u64 v) ≡ v / 2 ^ 60 % 4
unfolding account_type_from_u64
type_code-account_type_from_u64 v = ground (arith, field_of_two 60 v)

pub type_code-injective : (a b : AccountType) → type_code a ≡ type_code b → a ≡ b
type_code-injective a b h = ground arith

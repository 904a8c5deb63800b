-- ===== src/Accounts/Id/Laws.antt =====
-- What holds of account identifiers: objects/src/accounts/account_id.rs.
use native.Mathlib.Nat.{pow-suc}
use miden_base.Base.{
  ℕ, zero, suc, ◌+◌, ◌*◌, ◌/◌, ◌%◌, ◌^◌, ◌≤◌, ◌<◌, bit_xor, ◌≡◌, ap, ◌∙◌, sym, subst, ◌↔◌, ◌⊎◌, inl,
  inr, true, false, Option, some, List, [], ◌∷◌, arith, ◌==◌, Bool-cases, ok, >>=-eq-ok,
}
use miden_base.Base.Bits.{◌<<◌, field_of_two, bit_xor_high, bit_xor-zero, zero-bit_xor, mod_suc}
use miden_base.Base.Words.{Felt, Word, Digest}
use miden_base.Assets.Data.{AccountId}
use miden_base.Accounts.Kinds.{
  AccountType, account_type_from_u64, type_code, type_code-injective,
  type_code-account_type_from_u64, AccountStorageMode, public, private, mode_code,
}
use miden_base.Accounts.Id.{
  account_type, is_faucet, is_regular_account, count_ones, zeros, storage_mode,
  account_id_from_felt, le_bytes, id_to_bytes, parse_felt, id_try_from_bytes, id_try_from_u64,
  digest_pow, validate_seed_digest, compute_digest, id_new, account_id,
}

-- The bits that a stored mode may have.
abbrev pub HasMode : ℕ → Type 0
HasMode v = (v / 2 ^ 62 % 4 ≡ 0) ⊎ (v / 2 ^ 62 % 4 ≡ 2)

-- Validation accepts a field element exactly when it has at least five ones and valid storage
-- bits, and then returns it unchanged.
pub account_id_from_felt_accepts :
    (v id : ℕ) → (account_id_from_felt v ≡ ok id) ↔ ((id ≡ v) × (5 ≤ count_ones v) × HasMode v)
unfolding account_id_from_felt
account_id_from_felt_accepts v id =
    (λ h. ground (arith, field_of_two 62 v), λ h. ground (arith, field_of_two 62 v))

-- A validated identifier has a storage mode, the one in bits 62 and 63: the code does not panic.
pub storage_mode_total :
    (v id : ℕ)
    → account_id_from_felt v ≡ ok id
    → (m : AccountStorageMode) × (storage_mode id ≡ ok m) × (mode_code m ≡ id / 2 ^ 62 % 4)
unfolding storage_mode
storage_mode_total v id h = go ((account_id_from_felt_accepts v id).0 h)
  where
    go :
        (id ≡ v) × (5 ≤ count_ones v) × HasMode v
        → (m : AccountStorageMode) × (storage_mode id ≡ ok m) × (mode_code m ≡ id / 2 ^ 62 % 4)
    go (e, _, inl zero_bits) = (public, ground (arith, field_of_two 62 id), ground arith)
    go (e, _, inr two_bits) = (private, ground (arith, field_of_two 62 id), ground arith)

-- An account is a faucet exactly when it is no regular account, and exactly when bit 61 is set.
pub is_faucet_iff :
    (id : AccountId)
    → ((is_faucet id ≡ true) ↔ (is_regular_account id ≡ false))
      × ((is_faucet id ≡ true) ↔ (id / 2 ^ 61 % 2 ≡ 1))
unfolding is_faucet is_regular_account account_type_from_u64
is_faucet_iff id = (
  (λ h. ground arith, λ h. ground arith),
  (λ h. ground (arith, field_of_two 60 id), λ h. ground (arith, field_of_two 60 id)),
)

-- The identifier built from its parts, as a sum.
account_id_fields :
    (t : AccountType) (m : AccountStorageMode) (rest : ℕ)
    → rest < 2 ^ 60
    → account_id t m rest ≡ (mode_code m * 4 + type_code t) * 2 ^ 60 + rest
unfolding account_id
account_id_fields t m rest h =
    rw (zero-bit_xor (mode_code m << 62)) (ap (λ (x : ℕ). bit_xor x rest) upper ∙ lower)
  where
    upper : bit_xor (mode_code m << 62) (type_code t << 60) ≡ (mode_code m * 4 + type_code t) << 60
    upper =
        ground
          (arith, bit_xor_high 62 (mode_code m) (type_code t << 60), bit_xor-zero (mode_code m))

    lower :
        bit_xor ((mode_code m * 4 + type_code t) << 60) rest
        ≡ (mode_code m * 4 + type_code t) * 2 ^ 60 + rest
    lower = ground (
      arith,
      bit_xor_high 60 (mode_code m * 4 + type_code t) rest,
      bit_xor-zero (mode_code m * 4 + type_code t),
    )

-- An identifier that is put together from a type and a mode has that type and that mode, if the
-- rest stays below bit 60.
account_id_parts :
    (t : AccountType) (m : AccountStorageMode) (rest : ℕ)
    → rest < 2 ^ 60
    → (account_type (account_id t m rest) ≡ t) × (storage_mode (account_id t m rest) ≡ ok m)
unfolding storage_mode
account_id_parts t m rest h = rw (account_id_fields t m rest h) (
  type_code-injective _ t (
      ground
        (arith, type_code-account_type_from_u64 ((mode_code m * 4 + type_code t) * 2 ^ 60 + rest))),
  ground (arith, field_of_two 62 ((mode_code m * 4 + type_code t) * 2 ^ 60 + rest)),
)

-- The number that little-endian bytes stand for.
abbrev pub le_value : List ℕ → ℕ
le_value [] = 0
le_value (b ∷ bs) = b + 256 * le_value bs

le_value-le_bytes : (n v : ℕ) → v < 256 ^ n → le_value (le_bytes n v) ≡ v
unfolding le_bytes
le_value-le_bytes zero v h = omega arith
le_value-le_bytes (suc n) v h =
    omega (arith, pow-suc n 256, le_value-le_bytes n (v / 256) (omega (arith, pow-suc n 256)))

-- Where `Felt::try_from` reads little-endian bytes below the modulus, an identifier that passed
-- validation comes back from its bytes, and from its number.
id_try_from_bytes-id_to_bytes :
    (felt_try_from : List ℕ → Option Felt) (modulus : ℕ)
    → ((bytes : List ℕ) → le_value bytes < modulus → felt_try_from bytes ≡ some (le_value bytes))
    → modulus ≤ 2 ^ 64
    → (v id : ℕ) → v < modulus
    → account_id_from_felt v ≡ ok id
    → (id_try_from_bytes felt_try_from (id_to_bytes id) ≡ ok id)
      × (id_try_from_u64 felt_try_from id ≡ ok id)
unfolding id_try_from_bytes id_try_from_u64 id_to_bytes parse_felt
id_try_from_bytes-id_to_bytes felt_try_from modulus reads small v id bound h =
    (rw parsed valid, rw parsed valid)
  where
    same : (id ≡ v) × (5 ≤ count_ones v) × HasMode v
    same = (account_id_from_felt_accepts v id).0 h

    valid : account_id_from_felt id ≡ ok id
    valid = subst (λ x. account_id_from_felt x ≡ ok id) (sym same.0) h

    value : le_value (le_bytes 8 id) ≡ id
    value = le_value-le_bytes 8 id (omega (arith, same.0))

    parsed : felt_try_from (le_bytes 8 id) ≡ some id
    parsed = reads (le_bytes 8 id) (omega (arith, value, same.0)) ∙ ap some value

zeros_divide : (n v : ℕ) (k : ℕ) → k ≤ zeros n v → v % 2 ^ k ≡ 0
unfolding zeros
zeros_divide n v zero h = omega arith
zeros_divide zero v (suc k) h = absurd (omega arith)
zeros_divide (suc n) v (suc k) h = elim (Bool-cases (v % 2 == 0)) [
  | inl even ↦ let halved = zeros_divide n (v / 2) k (ground arith) in ground (arith, mod_suc v k)
  | inr odd ↦ absurd (ground arith)
]

validate_seed_digest_work :
    (digest : Digest) {u : Unit {0}}
    → validate_seed_digest digest ≡ ok u
    → (23 ≤ digest_pow digest) × (is_faucet digest.e0 ≡ true → 31 ≤ digest_pow digest)
unfolding validate_seed_digest
validate_seed_digest_work digest h =
    let regular = (is_faucet_iff digest.e0).0.0 in
    (ground arith, λ faucet. ground (arith, regular faucet))

digest_pow_divides : (digest : Digest) (k : ℕ) → k ≤ digest_pow digest → digest.e3 % 2 ^ k ≡ 0
unfolding digest_pow
digest_pow_divides digest k h = zeros_divide 64 digest.e3 k h

-- If `AccountId::new` gives an ID, the last element of the seed's digest is a multiple of 2^23,
-- and of 2^31 for a faucet, and the ID is the first element of the digest, with at least five ones
-- and valid storage bits.
pub id_new_proves_work :
    (hash : List Felt → Digest) (seed code storage : Word) (id : AccountId)
    → id_new hash seed code storage ≡ ok id
    → let digest = compute_digest hash seed code storage in
      (id ≡ digest.e0)
      × (5 ≤ count_ones id)
      × HasMode id
      × (digest.e3 % 2 ^ 23 ≡ 0)
      × (is_faucet id ≡ true → digest.e3 % 2 ^ 31 ≡ 0)
unfolding id_new
id_new_proves_work hash seed code storage id h =
    let digest = compute_digest hash seed code storage in
    let (_, checked, accepted) = >>=-eq-ok (validate_seed_digest digest) _ h in
    let valid = (account_id_from_felt_accepts digest.e0 id).0 accepted in
    let work = validate_seed_digest_work digest checked in
    (
      valid.0,
      subst (λ x. 5 ≤ count_ones x) (sym valid.0) valid.1,
      subst HasMode (sym valid.0) valid.2,
      digest_pow_divides digest 23 work.0,
      λ faucet.
          digest_pow_divides digest 31 (work.1 (subst (λ x. is_faucet x ≡ true) valid.0 faucet)),
    )

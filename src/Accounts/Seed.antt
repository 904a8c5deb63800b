-- ===== src/Accounts/Seed.antt =====
-- The search for the seed of an account: objects/src/accounts/seed.rs, without the feature
-- `concurrent`. The logging is left out. The loop runs on fuel: no result stands for a search that
-- goes on.
pub mod Laws
use miden_base.Base.{
  ℕ, zero, suc, ◌+◌, ◌*◌, Bool, true, false, Option, none, some, List, [], ◌∷◌, take, drop,
  if◌then◌else◌, Result, ok, err, panic, ◌>>=◌,
}
use miden_base.Base.Words.{Field, Word, Digest}
use miden_base.Base.Hashing.{Hasher}
use miden_base.Errors.{AccountError}
use miden_base.Accounts.Kinds.{AccountType, AccountStorageMode, type_eq, mode_eq}
use miden_base.Accounts.Id.{
  account_type, storage_mode, account_id_from_felt, validate_seed_digest, compute_digest,
}
use miden_base.Assets.Data.{AccountId}

-- `u64::from_le_bytes`
abbrev pub from_le_bytes : List ℕ → ℕ
from_le_bytes [] = 0
from_le_bytes (b ∷ bs) = b + 256 * from_le_bytes bs

-- The first seed, of the four chunks of the 32 bytes.
unfoldable pub first_seed : ⦃F : Field⦄ → List ℕ → Word
first_seed ⦃F⦄ init_seed = record {
  e0 = F.felt_new (from_le_bytes (take 8 init_seed));
  e1 = F.felt_new (from_le_bytes (take 8 (drop 8 init_seed)));
  e2 = F.felt_new (from_le_bytes (take 8 (drop 16 init_seed)));
  e3 = F.felt_new (from_le_bytes (take 8 (drop 24 init_seed)));
}

-- `if r.is_ok()` and `if let Ok(a) = r`, whose other case is no.
abbrev pub if_ok :
    {A : Type 0} → Result AccountError A → (A → Result AccountError Bool) → Result AccountError Bool
if_ok (ok a) f = f a
if_ok (err _) f = ok false
if_ok panic f = panic

-- The comparison of the type and then of the mode.
abbrev pub has_kind : AccountType → AccountStorageMode → AccountId → Result AccountError Bool
has_kind type mode account_id =
    if type_eq (account_type account_id) type
    then (do found ← storage_mode account_id; ok (mode_eq found mode))
    else ok false

-- The test of the loop.
unfoldable pub is_suitable : AccountType → AccountStorageMode → Digest → Result AccountError Bool
unfolding validate_seed_digest account_id_from_felt storage_mode
is_suitable type mode digest =
    if_ok (validate_seed_digest digest)
      (λ _. if_ok (account_id_from_felt digest.e0) (λ account_id. has_kind type mode account_id))

-- One turn: the seed is returned, or the loop goes on.
abbrev pub turn :
    Result AccountError Bool
    → Word
    → Option (Result AccountError Word)
    → Option (Result AccountError Word)
turn (ok true) seed rest = some (ok seed)
turn (ok false) seed rest = rest
turn (err e) seed rest = some (err e)
turn panic seed rest = some panic

abbrev pub digest_of : ⦃H : Hasher⦄ → Digest → Digest → Word → Digest
unfolding compute_digest
digest_of ⦃H⦄ code_commitment storage_commitment seed =
    compute_digest H.hash_elements seed code_commitment storage_commitment

module _ ⦃H : Hasher⦄ (type : AccountType) (mode : AccountStorageMode)
    (code_commitment storage_commitment : Digest) where
  -- The loop of `get_account_seed_single`.
  unfoldable pub search : ℕ → Word → Option (Result AccountError Word)
  unfolding is_suitable
  search zero seed = none
  search (suc fuel) seed =
      let rest = search fuel (digest_of code_commitment storage_commitment seed) in
      turn (is_suitable type mode (digest_of code_commitment storage_commitment seed)) seed rest

  -- `get_account_seed_single`
  unfoldable pub get_account_seed : ⦃F : Field⦄ → ℕ → List ℕ → Option (Result AccountError Word)
  unfolding search first_seed
  get_account_seed fuel init_seed = search fuel (first_seed init_seed)

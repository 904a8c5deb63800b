-- ===== src/Tests/Builders.antt =====
-- The theorems on the search for a seed and on the account builder at a concrete component.
use miden_base.Base.{ℕ, ◌^◌, ◌<◌, ◌≡◌, refl, some, List, [], ◌∷◌, Result, ok, replicate}
use miden_base.Base.Words.{Word, empty_word}
use miden_base.Errors.{AccountError}
use miden_base.Accounts.Kinds.{account_type_from_u64, regular_account_immutable_code, public}
use miden_base.Accounts.Storage as AccountStorage
use miden_base.Accounts.Account.{Account}
use miden_base.Accounts.Component.{AccountComponent}
use miden_base.Accounts.Id.{id_new, compute_digest, digest_pow, zeros, ones, is_regular_account}
use miden_base.Accounts.Code.{add_components, add_modules, add_procedures, add_procedure}
use miden_base.Accounts.Seed.{get_account_seed, first_seed}
use miden_base.Accounts.Seed.Laws.{seed_at, IsSuitable, get_account_seed_lem}
use miden_base.Accounts.Builder.{AccountBuilder, build, with_id}
use miden_base.Accounts.Builder.Laws.{IsNewAccount, build-IsNewAccount}
use miden_base.Tests.Values.{goldilocks, Entries, entries_smt}
use miden_base.Tests.Instances.{digest, weighing}

abbrev component : AccountComponent Entries
component = record {
  library = (digest 7 ∷ digest 8 ∷ []) ∷ [];
  storage_slots = AccountStorage.value (digest 3) ∷ [];
  supported_types = regular_account_immutable_code ∷ [];
}

abbrev builder : AccountBuilder Entries
builder = record {
  nonce = 0;
  components = component ∷ [];
  account_type = regular_account_immutable_code;
  storage_mode = public;
  init_seed = some (replicate 32 0);
}

abbrev account : Account Entries
account = record {
  id = 3706309467;
  vault = [];
  storage = AccountStorage.value (digest 3) ∷ [];
  code = record {
    commitment = digest 44693782;
    procedures =
        (record { mast_root = digest 7; storage_offset = 0; storage_size = 1 })
        ∷ (record { mast_root = digest 8; storage_offset = 0; storage_size = 1 })
        ∷ [];
  };
  nonce = 0;
}

builder-built : build 1 builder ≡ some (ok (account, empty_word))
unfolding build with_id id_new compute_digest digest_pow zeros ones is_regular_account
    account_type_from_u64 add_components add_modules add_procedures add_procedure
    AccountStorage.slots_as_elements AccountStorage.slot_elements
builder-built = refl

build-IsNewAccount_example : IsNewAccount builder account empty_word
build-IsNewAccount_example = build-IsNewAccount 1 builder account empty_word refl builder-built

-- 32 bytes of which the first seed gives a digest with too few ones.
abbrev init_seed : List ℕ
init_seed = 191 ∷ 40 ∷ 111 ∷ 253 ∷ 255 ∷ 255 ∷ 255 ∷ 7 ∷ replicate 24 0

abbrev second_seed : Word
second_seed = digest (2 ^ 59)

seed-found :
    get_account_seed regular_account_immutable_code public empty_word empty_word 2 init_seed
    ≡ some (ok second_seed)
unfolding get_account_seed first_seed compute_digest digest_pow zeros ones is_regular_account
    account_type_from_u64
seed-found = refl

get_account_seed_lem_example :
    (k : ℕ) × (k < 2)
    × ◌≡◌ {A = Result AccountError Word} (ok second_seed) (
        ok (
          seed_at regular_account_immutable_code public empty_word empty_word k
            (first_seed init_seed)))
    × IsSuitable regular_account_immutable_code public empty_word empty_word (
        seed_at regular_account_immutable_code public empty_word empty_word k
          (first_seed init_seed))
    × ((j : ℕ)
        → j < k
        → ¬ IsSuitable regular_account_immutable_code public empty_word empty_word (
            seed_at regular_account_immutable_code public empty_word empty_word j
              (first_seed init_seed)))
get_account_seed_lem_example =
    (get_account_seed_lem regular_account_immutable_code public empty_word empty_word 2 init_seed
        (ok second_seed)).0
      seed-found

-- ===== src/Accounts/Builder.antt =====
-- `AccountBuilder`: objects/src/accounts/builder/mod.rs, without the feature `testing`. A build
-- without a result is one whose search for a seed goes on.
pub mod Laws
use miden_base.Base.{
  ℕ, Option, none, some, List, [], ◌∷◌, ◌++◌, Result, ok, err, panic, ok_or, map_err, expect_ok,
  ◌>>=◌,
}
use miden_base.Base.Words.{Felt, Field, Word, Digest}
use miden_base.Base.Hashing.{Hasher}
use miden_base.Base.Trees.{Smt}
use miden_base.Errors.{AccountError, init_seed_not_set, build_error}
use miden_base.Assets.Data.{AccountId}
use miden_base.Accounts.Kinds.{
  AccountType, AccountStorageMode, regular_account_updatable_code, private,
}
use miden_base.Accounts.Id.{id_new}
use miden_base.Accounts.Storage as AccountStorage
use miden_base.Accounts.Code.{AccountCode}
use miden_base.Accounts.Account.{Account}
use miden_base.Accounts.Component.{AccountComponent, initialize_from_components}
use miden_base.Accounts.Seed.{get_account_seed}

pub record AccountBuilder (Tree : Type 0) : Type 0 where
  pub nonce : Felt
  pub components : List (AccountComponent Tree)
  pub account_type : AccountType
  pub storage_mode : AccountStorageMode
  pub init_seed : Option (List ℕ)

module _ {Tree : Type 0} where
  -- `AccountBuilder::new`
  unfoldable pub builder_new : AccountBuilder Tree
  builder_new = record {
    nonce = 0;
    components = [];
    account_type = regular_account_updatable_code;
    storage_mode = private;
    init_seed = none;
  }

  -- The setters.
  unfoldable pub set_init_seed : List ℕ → AccountBuilder Tree → AccountBuilder Tree
  set_init_seed init_seed self = record self { init_seed = some init_seed }

  unfoldable pub set_account_type : AccountType → AccountBuilder Tree → AccountBuilder Tree
  set_account_type account_type self = record self { account_type = account_type }

  unfoldable pub set_storage_mode : AccountStorageMode → AccountBuilder Tree → AccountBuilder Tree
  set_storage_mode storage_mode self = record self { storage_mode = storage_mode }

  unfoldable pub with_component : AccountComponent Tree → AccountBuilder Tree → AccountBuilder Tree
  with_component account_component self = record self {
    components = self.components ++ (account_component ∷ []);
  }

module _ ⦃F : Field⦄ ⦃H : Hasher⦄ where
  -- The seed that was found, and the identifier of it. The panic is that of `expect`.
  unfoldable pub with_id :
      Digest → Digest → Result AccountError Word → Result AccountError (AccountId × Word)
  unfolding id_new
  with_id code_commitment storage_commitment found = do
    seed ← map_err build_error found
    account_id ← expect_ok (id_new H.hash_elements seed code_commitment storage_commitment)
    ok (account_id, seed)

  abbrev pub with_found :
      Digest
      → Digest
      → Option (Result AccountError Word)
      → Option (Result AccountError (AccountId × Word))
  with_found code_commitment storage_commitment none = none
  with_found code_commitment storage_commitment (some found) =
      some (with_id code_commitment storage_commitment found)

  module _ ⦃S : Smt⦄ where
    unfoldable pub build_inner :
        AccountBuilder S.Tree
        → Result AccountError (List ℕ × S.Tree × AccountCode × AccountStorage.AccountStorage)
    unfolding initialize_from_components
    build_inner self = do
      init_seed ← ok_or self.init_seed init_seed_not_set
      (code, storage) ←
          map_err build_error
            (initialize_from_components H.hash_elements self.account_type self.components)
      ok (init_seed, S.new, code, storage)

    unfoldable pub grind_account_id :
        ℕ
        → AccountBuilder S.Tree
        → List ℕ
        → Digest
        → Digest
        → Option (Result AccountError (AccountId × Word))
    unfolding get_account_seed
    grind_account_id fuel self init_seed code_commitment storage_commitment =
        with_found code_commitment storage_commitment (
          get_account_seed self.account_type self.storage_mode code_commitment storage_commitment
            fuel init_seed)

    -- `Account::from_parts`, of the identifier that was found.
    abbrev pub from_parts :
        Felt
        → S.Tree
        → AccountCode
        → AccountStorage.AccountStorage
        → Option (Result AccountError (AccountId × Word))
        → Option (Result AccountError (Account S.Tree × Word))
    from_parts nonce vault code storage none = none
    from_parts nonce vault code storage (some found) = some (do
      (account_id, seed) ← found
      ok (
        record { id = account_id; vault = vault; storage = storage; code = code; nonce = nonce },
        seed,
      ))

    -- `build` after `build_inner`.
    abbrev pub build_with :
        ℕ
        → AccountBuilder S.Tree
        → Result AccountError (List ℕ × S.Tree × AccountCode × AccountStorage.AccountStorage)
        → Option (Result AccountError (Account S.Tree × Word))
    unfolding grind_account_id AccountStorage.commitment
    build_with fuel self (err e) = some (err e)
    build_with fuel self panic = some panic
    build_with fuel self (ok (init_seed, vault, code, storage)) =
        from_parts self.nonce vault code storage (
          grind_account_id fuel self init_seed code.commitment
            (AccountStorage.commitment H.hash_elements storage))

    -- `AccountBuilder::build`
    unfoldable pub build :
        ℕ → AccountBuilder S.Tree → Option (Result AccountError (Account S.Tree × Word))
    unfolding build_inner build_with
    build fuel self = build_with fuel self (build_inner self)

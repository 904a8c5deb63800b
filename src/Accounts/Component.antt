-- ===== src/Accounts/Component.antt =====
-- `AccountComponent`, objects/src/accounts/component/mod.rs, and how an account is made of
-- components, objects/src/accounts/mod.rs. The library of a component stands here as the digests of
-- its procedures, by module.
use miden_base.Base.{
  ℕ, ◌^◌, Bool, List, [], ◌∷◌, ltb, if◌then◌else◌, Result, ok, err, panic, ◌>>=◌, length, map,
}
use miden_base.Base.Words.{Felt, Digest}
use miden_base.Base.Trees.{Smt}
use miden_base.Errors.{AccountError, storage_too_many_slots}
use miden_base.Accounts.Kinds.{
  AccountType, fungible_faucet, non_fungible_faucet, regular_account_immutable_code,
  regular_account_updatable_code,
}
use miden_base.Accounts.Storage as AccountStorage
use miden_base.Accounts.Code as AccountCode
use miden_base.Accounts.Account.{contains_type, validate_components_from}

-- The supported types, a set, are a list in which a type may stand twice.
pub record AccountComponent (Tree : Type 0) : Type 0 where
  pub library : List (List Digest)
  pub storage_slots : List (AccountStorage.StorageSlot Tree)
  pub supported_types : List AccountType

module _ {Tree : Type 0} where
  -- `AccountComponent::new`
  unfoldable pub component_new :
      List (List Digest)
      → List (AccountStorage.StorageSlot Tree)
      → Result AccountError (AccountComponent Tree)
  component_new code storage_slots =
      if ltb (length storage_slots) (2 ^ 8)
      then ok (record { library = code; storage_slots = storage_slots; supported_types = [] })
      else err (storage_too_many_slots (length storage_slots))

  unfoldable pub storage_size : AccountComponent Tree → Result AccountError ℕ
  storage_size self =
      if ltb (length self.storage_slots) (2 ^ 8) then ok (length self.storage_slots) else panic

  unfoldable pub supports_type : AccountType → AccountComponent Tree → Bool
  supports_type account_type self = contains_type account_type self.supported_types

  unfoldable pub with_supported_type : AccountType → AccountComponent Tree → AccountComponent Tree
  with_supported_type supported_type self = record self {
    supported_types = supported_type ∷ self.supported_types;
  }

  unfoldable pub with_supported_types :
      List AccountType → AccountComponent Tree → AccountComponent Tree
  with_supported_types supported_types self = record self { supported_types = supported_types }

  unfoldable pub with_supports_all_types : AccountComponent Tree → AccountComponent Tree
  with_supports_all_types self = record self {
    supported_types =
        fungible_faucet ∷ non_fungible_faucet ∷ regular_account_immutable_code
        ∷ regular_account_updatable_code ∷ self.supported_types;
  }

  -- What the code of an account is made of. A panic of `storage_size`, which no component of
  -- `component_new` has, comes before the errors of the loop over the components.
  unfoldable pub code_parts :
      List (AccountComponent Tree) → Result AccountError (List AccountCode.Component)
  unfolding storage_size
  code_parts [] = ok []
  code_parts (component ∷ components) = do
    size ← storage_size component
    parts ← code_parts components
    ok ((record { storage_size = size; modules = component.library }) ∷ parts)

-- `Account::initialize_from_components`; the hash is a parameter.
unfoldable pub initialize_from_components :
    ⦃S : Smt⦄
    → (List Felt → Digest)
    → AccountType
    → List (AccountComponent S.Tree)
    → Result AccountError (AccountCode.AccountCode × AccountStorage.AccountStorage)
unfolding code_parts validate_components_from AccountCode.from_components
    AccountStorage.from_components
initialize_from_components hash_elements account_type components = do
  _ ← validate_components_from 0 (map (λ c. c.supported_types) components) account_type
  parts ← code_parts components
  code ← AccountCode.from_components hash_elements parts account_type
  storage ← AccountStorage.from_components (map (λ c. c.storage_slots) components) account_type
  ok (code, storage)

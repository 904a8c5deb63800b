-- ===== src/Accounts/Account.antt =====
-- `Account`: objects/src/accounts/mod.rs.
pub mod Laws
pub mod Applied
pub mod Merged
pub mod WellFormed
use miden_base.Base.{
  ℕ, suc, Bool, true, false, Option, none, some, List, [], ◌∷◌, ◌++◌, leb, ◌==◌, if◌then◌else◌,
  Result, ok, err, panic, fail_if, map_err, Method, then_do, ◌>>=◌,
}
use miden_base.Base.Words.{Felt, Field, Word, Digest, empty_word, word_elements}
use miden_base.Base.Trees.{Smt}
use miden_base.Errors.{
  AccountError, asset_vault_update_error, nonce_not_monotonically_increasing,
  unsupported_component_for_account_type,
}
use miden_base.Accounts.Kinds.{AccountType, type_eq}
use miden_base.Accounts.Id.{id_new}
use miden_base.Accounts.Storage as AccountStorage
use miden_base.Accounts.Code.{AccountCode}
use miden_base.Assets.Data.{AccountId}
use miden_base.Vault as Vaults
use miden_base.Delta.Account.{AccountDelta}

pub record Account (Tree : Type 0) : Type 0 where
  pub id : AccountId
  pub vault : Tree
  pub storage : List (AccountStorage.StorageSlot Tree)
  pub code : AccountCode
  pub nonce : Felt

-- `validate_components_support_account_type`, from the types that each component supports.
abbrev pub contains_type : AccountType → List AccountType → Bool
contains_type account_type [] = false
contains_type account_type (other ∷ types) =
    if type_eq account_type other then true else contains_type account_type types

unfoldable pub validate_components_from :
    ℕ → List (List AccountType) → AccountType → Result AccountError (Unit {0})
validate_components_from index [] account_type = ok tt
validate_components_from index (supported ∷ components) account_type =
    let rest = validate_components_from (suc index) components account_type in
    if contains_type account_type supported
    then rest
    else err (unsupported_component_for_account_type account_type index)

-- `hash_account`; the hash is a parameter.
unfoldable pub hash_account :
    (List Felt → Digest) → AccountId → Felt → Digest → Digest → Digest → Digest
hash_account hash_elements id nonce vault_root storage_commitment code_commitment = hash_elements (
    (id ∷ 0 ∷ 0 ∷ nonce ∷ [])
    ++ (word_elements vault_root
        ++ (word_elements storage_commitment ++ word_elements code_commitment)))

module _ ⦃F : Field⦄ ⦃S : Smt⦄ where
  -- `Account::new`
  unfoldable pub new :
      (List Felt → Digest)
      → Word
      → AccountCode
      → AccountStorage.AccountStorage
      → Result AccountError (Account S.Tree)
  unfolding id_new AccountStorage.commitment
  new hash_elements seed code storage = do
    id ← id_new hash_elements seed code.commitment (AccountStorage.commitment hash_elements storage)
    ok (record { id = id; vault = S.new; storage = storage; code = code; nonce = 0 })

  unfoldable pub hash : (List Felt → Digest) → Account S.Tree → Digest
  unfolding hash_account Vaults.commitment AccountStorage.commitment
  hash hash_elements self =
      hash_account hash_elements self.id self.nonce (Vaults.commitment self.vault)
        (AccountStorage.commitment hash_elements self.storage) self.code.commitment

  unfoldable pub is_new : Account S.Tree → Bool
  is_new self = self.nonce == 0

  unfoldable pub init_hash : (List Felt → Digest) → Account S.Tree → Digest
  unfolding hash is_new
  init_hash hash_elements self = if is_new self then empty_word else hash hash_elements self

  unfoldable pub set_nonce : Felt → Method (Account S.Tree) AccountError (Unit {0})
  set_nonce nonce self =
      if leb nonce self.nonce
      then (err (nonce_not_monotonically_increasing self.nonce nonce), self)
      else (ok tt, record self { nonce = nonce })

  -- The calls of `apply_delta` on the vault, the storage and the nonce.
  abbrev pub update_vault : AccountDelta → Method (Account S.Tree) AccountError (Unit {0})
  unfolding Vaults.Updates.apply_delta
  update_vault delta self =
      let (r, vault) = Vaults.Updates.apply_delta delta.vault self.vault in
      (map_err asset_vault_update_error r, record self { vault = vault })

  abbrev pub update_storage : AccountDelta → Method (Account S.Tree) AccountError (Unit {0})
  unfolding AccountStorage.apply_delta
  update_storage delta self =
      let (r, storage) = AccountStorage.apply_delta delta.storage self.storage in
      (r, record self { storage = storage })

  abbrev pub update_nonce : Option Felt → Method (Account S.Tree) AccountError (Unit {0})
  unfolding set_nonce
  update_nonce none self = (ok tt, self)
  update_nonce (some nonce) self = set_nonce nonce self

  -- An error leaves what was updated before it.
  unfoldable pub apply_delta : AccountDelta → Method (Account S.Tree) AccountError (Unit {0})
  unfolding update_vault update_storage update_nonce
  apply_delta delta self = then_do (update_vault delta self) (λ _ self'.
      then_do (update_storage delta self') (λ _ self''. update_nonce delta.nonce self''))

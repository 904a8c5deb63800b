-- ===== src/Vault/Holdings.antt =====
-- The vault against its specification: for each faucet a balance, and a set of non-fungible assets.
pub mod Refines
use miden_base.Base.{
  ℕ, ◌+◌, ◌-◌, ◌≤◌, ◌<◌, ◌≡◌, refl, sym, ap, subst, ◌∙◌, ◌≢◌, ◌⊎◌, inl, inr, Bool, true, false, not,
  arith, ◌==◌, ==_iff, if◌then◌else◌, Bool-cases, Result, ok, err, panic, then_do,
}
use miden_base.Base.Words.{Word, Digest, Field, empty_word, word_eq, word_eq_iff}
use miden_base.Base.Trees.{Smt}
use miden_base.Errors.{AssetVaultError}
use miden_base.Assets.Data.{
  AccountId, FungibleAsset, NonFungibleAsset, Asset, fungible, non_fungible,
}
use miden_base.Assets.Fungible as FungibleOps
use miden_base.Assets.NonFungible as NonFungibleOps
use miden_base.Assets.Whole
use miden_base.Assets.Whole.Laws.{IsValid, valid_id_ne_zero}
use miden_base.Vault.Entries.{
  fungible_key, fungible_word, left_word, Entry, IsVault, insert-IsVault, stored, balance,
}
use miden_base.Vault.Fungible.{add_fungible_asset_lem, remove_fungible_asset_lem}
use miden_base.Vault.NonFungible.{owns, add_non_fungible_asset_lem, remove_non_fungible_asset_lem}
use miden_base.Vault.{add_fungible_asset, add_asset, remove_asset}

module _ ⦃F : Field⦄ ⦃S : Smt⦄ where
  open S use {Tree, get_value, insert, get_value-insert}

  -- The two vaults have the same holdings.
  pub record Same (t u : Tree) : Type 0 where
    pub balances : (id : AccountId) → balance u id ≡ balance t id
    pub owned : (n : NonFungibleAsset) → NonFungibleOps.Laws.IsValid n → owns u n ≡ owns t n

  -- Between the two vaults the balance of one faucet has become `amount`, and nothing else changed.
  pub record SetsBalance (t u : Tree) (faucet : AccountId) (amount : ℕ) : Type 0 where
    pub balances : (id : AccountId) → balance u id ≡ (if faucet == id then amount else balance t id)
    pub owned : (n : NonFungibleAsset) → NonFungibleOps.Laws.IsValid n → owns u n ≡ owns t n

  -- Between the two vaults one non-fungible asset came or went, and nothing else changed.
  pub record SetsOwned (t u : Tree) (a : NonFungibleAsset) (there : Bool) : Type 0 where
    pub balances : (id : AccountId) → balance u id ≡ balance t id
    pub owned :
        (n : NonFungibleAsset)
        → NonFungibleOps.Laws.IsValid n
        → owns u n ≡ (if word_eq a.word n.word then there else owns t n)

  pub Same-refl : (t : Tree) → Same t t
  Same-refl t = record { balances = λ id. refl; owned = λ n v. refl }

  pub set_fungible :
      (t : Tree) (id : AccountId) (w : Word)
      → SetsBalance t (insert t (fungible_key id) w).1 id w.e0
  set_fungible t id w = record {
    balances = λ j. ground (arith, get_value-insert t (fungible_key id) w (fungible_key j));
    owned = λ n v. ground (
      arith,
      get_value-insert t (fungible_key id) w n.word,
      valid_id_ne_zero n.word.e1 v.id_valid,
    );
  }

  pub set_non_fungible :
      (t : Tree) (a : NonFungibleAsset) (w : Word)
      → NonFungibleOps.Laws.IsValid a
      → SetsOwned t (insert t a.word w).1 a (not (word_eq w empty_word))
  set_non_fungible t a w v = record {
    balances = λ j. ground (
      arith,
      get_value-insert t a.word w (fungible_key j),
      valid_id_ne_zero a.word.e1 v.id_valid,
    );
    owned = λ n _. elim (Bool-cases (word_eq a.word n.word)) [
      | inl same ↦ rw (get_value-insert t a.word w n.word, same)
      | inr other ↦ rw (get_value-insert t a.word w n.word, other)
    ];
  }

  -- What `add_asset` promises.
  abbrev pub Added : Asset → Tree → Result AssetVaultError Asset × Tree → Type 0
  Added (fungible a) t (r, u) =
      IsVault u
      × (((balance t a.faucet_id + a.amount ≤ FungibleOps.max_amount)
            × ((b : Asset) × (r ≡ ok b))
            × SetsBalance t u a.faucet_id (balance t a.faucet_id + a.amount))
          ⊎ ((FungibleOps.max_amount < balance t a.faucet_id + a.amount)
              × ((e : AssetVaultError) × (r ≡ err e))
              × Same t u))
  Added (non_fungible a) t (r, u) =
      IsVault u
      × (((owns t a ≡ false) × (r ≡ ok (non_fungible a)) × SetsOwned t u a true)
          ⊎ ((owns t a ≡ true) × ((e : AssetVaultError) × (r ≡ err e)) × Same t u))

  -- What `remove_asset` promises.
  abbrev pub Removed : Asset → Tree → Result AssetVaultError Asset × Tree → Type 0
  Removed (fungible a) t (r, u) =
      IsVault u
      × (((a.amount ≤ balance t a.faucet_id)
            × (r ≡ ok (fungible a))
            × SetsBalance t u a.faucet_id (balance t a.faucet_id - a.amount))
          ⊎ (((e : AssetVaultError) × (r ≡ err e))
              × (u ≡ t)
              × ((balance t a.faucet_id < a.amount) ⊎ (balance t a.faucet_id ≡ 0))))
  Removed (non_fungible a) t (r, u) =
      IsVault u
      × (((owns t a ≡ true) × (r ≡ ok (non_fungible a)) × SetsOwned t u a false)
          ⊎ ((owns t a ≡ false) × ((e : AssetVaultError) × (r ≡ err e)) × Same t u))

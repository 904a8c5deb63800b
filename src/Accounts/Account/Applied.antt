-- ===== src/Accounts/Account/Applied.antt =====
-- An account after a delta, as it is read: objects/src/accounts/mod.rs.
use miden_base.Base.{ℕ, ◌≡◌, ◌<◌, ap, subst, Option, none, some, ok}
use miden_base.Base.Ints.{pos, ◌+ℤ◌}
use miden_base.Base.Words.{Felt, Digest, Field}
use miden_base.Base.Trees.{Smt}
use miden_base.Base.Maps.{Key, nat_key, lookup}
use miden_base.Base.Maps.Sorted.{or_none}
use miden_base.Assets.Data.{AccountId, NonFungibleAsset}
use miden_base.Assets.NonFungible as NonFungibleOps
use miden_base.Delta.Fungible.Laws.{change}
use miden_base.Delta.Storage.Laws.{map_item}
use miden_base.Delta.Account.{AccountDelta}
use miden_base.Vault.Entries.{IsVault, balance}
use miden_base.Vault.NonFungible.{owns}
use miden_base.Vault.Updates.Owned.{owned_after, apply_delta-holdings}
use miden_base.Accounts.Storage.Items.{
  overwrite, value_at, entry_at, values-apply_delta, entries-apply_delta,
}
use miden_base.Accounts.Account.{Account, apply_delta}
use miden_base.Accounts.Account.WellFormed.{IsWellFormed}
use miden_base.Accounts.Account.Laws.{Keeps, apply_delta-Keeps, apply_delta-ok}

module _ ⦃F : Field⦄ ⦃S : Smt⦄ ⦃K : Key NonFungibleAsset⦄ ⦃D : Key Digest⦄ where
  -- What a delta promises of the account before it and the account after it: the identifier and the
  -- code are the same; every balance has the recorded change; a valid asset is owned if it was
  -- added, or was owned and not removed; every value slot and every item of a map slot has its new
  -- word, if there is one; and the nonce is the new one, if there is one, and larger than the old.
  pub record Applied (delta : AccountDelta) (a b : Account S.Tree) : Type 0 where
    pub id : b.id ≡ a.id
    pub code : b.code ≡ a.code
    pub vault : IsVault b.vault
    pub balances :
        (j : AccountId)
        → pos (balance b.vault j) ≡ pos (balance a.vault j) +ℤ change delta.vault.fungible j
    pub owned :
        (n : NonFungibleAsset)
        → NonFungibleOps.Laws.IsValid n
        → owns b.vault n ≡ owned_after (lookup n delta.vault.non_fungible) (owns a.vault n)
    pub values :
        (j : ℕ)
        → value_at b.storage j ≡ overwrite (lookup j delta.storage.values) (value_at a.storage j)
    pub entries :
        (j : ℕ) (key : Digest)
        → entry_at b.storage j key
          ≡ overwrite (map_item delta.storage.maps j key) (entry_at a.storage j key)
    pub nonce : some b.nonce ≡ or_none delta.nonce (some a.nonce)
    pub grows : (n : Felt) → delta.nonce ≡ some n → a.nonce < n

  -- A well-formed delta that is applied without an error to an account with a vault of valid
  -- entries does what it promises, to all parts of the account.
  pub apply_delta-Applied :
      (delta : AccountDelta) (a b : Account S.Tree)
      → IsVault a.vault
      → IsWellFormed delta
      → apply_delta delta a ≡ (ok tt, b)
      → Applied delta a b
  apply_delta-Applied delta a b v w h =
      let (vault, storage, nonce, grows) = apply_delta-ok delta a b h in
      let (kept, balances, owned) =
        apply_delta-holdings delta.vault a.vault b.vault v w.faucets w.fungible w.assets
          w.non_fungible vault in
      let keeps = subst (λ p. Keeps a p.1) h (apply_delta-Keeps delta a) in
      record {
        id = keeps.id;
        code = keeps.code;
        vault = kept;
        balances = balances;
        owned = owned;
        values = values-apply_delta delta.storage a.storage b.storage w.values w.maps.0 storage;
        entries = entries-apply_delta delta.storage a.storage b.storage w.values w.maps storage;
        nonce = new_nonce delta.nonce nonce;
        grows = grows;
      }
    where
      new_nonce :
          (n : Option Felt)
          → b.nonce ≡ (elim n [ none ↦ a.nonce | some k ↦ k ])
          → some b.nonce ≡ or_none n (some a.nonce)
      new_nonce none e = ap some e
      new_nonce (some k) e = ap some e

-- ===== src/Delta/Account/Parts.antt =====
-- What a merge of account deltas leaves of each part: objects/src/accounts/delta/mod.rs.
use miden_base.Base.{◌≡◌, ap, subst, ok, then_do-eq-ok}
use miden_base.Base.Words.{Digest}
use miden_base.Base.Maps.{Key}
use miden_base.Base.Maps.Sorted.{or_none}
use miden_base.Assets.Data.{NonFungibleAsset}
use miden_base.Delta.Fungible as FungibleDelta
use miden_base.Delta.NonFungible as NonFungibleDelta
use miden_base.Delta.Storage as StorageDelta
use miden_base.Delta.Vault as VaultDelta
use miden_base.Delta.Account.{AccountDelta, on_storage, merge_with, merge}
use miden_base.Delta.Account.Laws.{merge_keeps_nonce, merge_nonce_lem}

pair : {A B : Type 0} {p : A × B} {x : A} {y : B} → p.0 ≡ x → p.1 ≡ y → p ≡ (x, y)
pair e f = cc

module _ ⦃D : Key Digest⦄ ⦃N : Key NonFungibleAsset⦄ where
  vault_parts :
      (other self m : VaultDelta.AccountVaultDelta)
      → VaultDelta.merge other self ≡ (ok tt, m)
      → (NonFungibleDelta.merge other.non_fungible self.non_fungible ≡ (ok tt, m.non_fungible))
        × (FungibleDelta.merge other.fungible self.fungible ≡ (ok tt, m.fungible))
  unfolding VaultDelta.merge
  vault_parts other self m h =
      let merged = NonFungibleDelta.merge other.non_fungible self.non_fungible in
      let (_, first, rest) =
        then_do-eq-ok (merged.0, record self { non_fungible = merged.1 }) _ h in
      (
        pair first (ap (λ p. p.1.non_fungible) rest),
        pair (ap (λ p. p.0) rest) (ap (λ p. p.1.fungible) rest),
      )

  -- A merge that succeeds has merged the storage, the fungible and the non-fungible assets, each
  -- without an error, and its nonce is the later one, if there is one.
  pub merge-parts :
      (other self m : AccountDelta)
      → merge other self ≡ (ok tt, m)
      → (StorageDelta.merge other.storage self.storage ≡ (ok tt, m.storage))
        × (NonFungibleDelta.merge other.vault.non_fungible self.vault.non_fungible
            ≡ (ok tt, m.vault.non_fungible))
        × (FungibleDelta.merge other.vault.fungible self.vault.fungible ≡ (ok tt, m.vault.fungible))
        × (m.nonce ≡ or_none other.nonce self.nonce)
  unfolding merge merge_with
  merge-parts other self m h =
      let kept = merge_keeps_nonce _ other self m h in
      let merged = StorageDelta.merge other.storage self.storage in
      let (_, first, rest) =
        then_do-eq-ok (on_storage merged (record self { nonce = m.nonce })) _
          (subst (λ o. merge_with o other self ≡ (ok tt, m)) kept h) in
      let (non_fungible, fungible) =
        vault_parts other.vault self.vault m.vault
          (pair (ap (λ p. p.0) rest) (ap (λ p. p.1.vault) rest)) in
      (
        pair first (ap (λ p. p.1.storage) rest),
        non_fungible,
        fungible,
        (merge_nonce_lem self.nonce other.nonce m.nonce kept).0,
      )

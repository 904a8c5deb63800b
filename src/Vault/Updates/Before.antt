-- ===== src/Vault/Updates/Before.antt =====
-- Which assets a vault has before `AssetVault::apply_delta` succeeds: objects/src/assets/vault.rs.
use miden_base.Base.{
  some_injective, ◌≡◌, refl, sym, ap, subst, ◌∙◌, inl, inr, Bool, true, false, some, [], ◌∷◌, arith,
  Bool-cases, Result, ok, then_do-eq-ok, All,
}
use miden_base.Base.Maps.{Key, nat_key, lookup}
use miden_base.Base.Maps.Sorted.{Sorted}
use miden_base.Base.Words.{Field}
use miden_base.Base.Trees.{Smt}
use miden_base.Errors.{AssetVaultError}
use miden_base.Assets.Data.{NonFungibleAsset, Asset, non_fungible}
use miden_base.Assets.NonFungible as NonFungibleOps
use miden_base.Delta.NonFungible.{
  NonFungibleDeltaAction, add_action, remove_action, NonFungibleAssetDelta,
}
use miden_base.Delta.Vault.{AccountVaultDelta}
use miden_base.Vault.Entries.{IsVault}
use miden_base.Vault.NonFungible.{owns}
use miden_base.Vault.Holdings.{Added, Removed}
use miden_base.Vault.Holdings.Refines.{add_asset-Added, remove_asset-Removed}
use miden_base.Vault.{add_non_fungible_asset, remove_non_fungible_asset, add_asset, remove_asset}
use miden_base.Vault.Updates.{apply_fungible, act_on, apply_non_fungible, apply_delta}
use miden_base.Vault.Updates.Laws.{wrap-ok, ValidIds, apply_fungible-shifts}
use miden_base.Vault.Updates.Owned.{act_on-owns, same_asset}

-- Is an asset owned where the action succeeds?
abbrev pub owned_before : NonFungibleDeltaAction → Bool
owned_before add_action = false
owned_before remove_action = true

module _ ⦃F : Field⦄ ⦃S : Smt⦄ where
  open S use {Tree}

  Added-before :
      (a : NonFungibleAsset) (t : Tree) (p : Result AssetVaultError Asset × Tree) (b : Asset)
      → Added (non_fungible a) t p
      → p.0 ≡ ok b
      → owns t a ≡ false
  Added-before a t p b (_, inl (absent, _, _)) h = absent
  Added-before a t p b (_, inr (_, (e, failed), _)) h = absurd (cc)

  Removed-before :
      (a : NonFungibleAsset) (t : Tree) (p : Result AssetVaultError Asset × Tree) (b : Asset)
      → Removed (non_fungible a) t p
      → p.0 ≡ ok b
      → owns t a ≡ true
  Removed-before a t p b (_, inl (there, _, _)) h = there
  Removed-before a t p b (_, inr (_, (e, failed), _)) h = absurd (cc)

  act_on-before :
      (a : NonFungibleAsset) (action : NonFungibleDeltaAction) (t : Tree) (b : NonFungibleAsset)
      → IsVault t
      → NonFungibleOps.Laws.IsValid a
      → (act_on a action t).0 ≡ ok b
      → owns t a ≡ owned_before action
  unfolding add_asset remove_asset
  act_on-before a add_action t b v va h =
      Added-before a t (add_asset (non_fungible a) t) (non_fungible b)
        (add_asset-Added t (non_fungible a) v va)
        (ap (λ p. p.0) (wrap-ok (add_non_fungible_asset a t) non_fungible b h))
  act_on-before a remove_action t b v va h =
      Removed-before a t (remove_asset (non_fungible a) t) (non_fungible b)
        (remove_asset-Removed t (non_fungible a) v va)
        (ap (λ p. p.0) (wrap-ok (remove_non_fungible_asset a t) non_fungible b h))

  module _ ⦃K : Key NonFungibleAsset⦄ where
    apply_non_fungible-before :
        (deltas : NonFungibleAssetDelta) (t u : Tree)
        → IsVault t
        → All
            (λ (e : NonFungibleAsset × NonFungibleDeltaAction). NonFungibleOps.Laws.IsValid e.0)
            deltas
        → apply_non_fungible deltas t ≡ (ok tt, u)
        → (n : NonFungibleAsset) (action : NonFungibleDeltaAction) → NonFungibleOps.Laws.IsValid n
        → lookup n deltas ≡ some action
        → owns t n ≡ owned_before action
    unfolding apply_non_fungible lookup
    apply_non_fungible-before [] t u v valid h n action vn there = absurd (cc)
    apply_non_fungible-before ((a, first_action) ∷ deltas) t u v valid h n action vn there =
        let (b, first, rest) = then_do-eq-ok (act_on a first_action t) _ h in
        let (kept, sets) = act_on-owns a first_action t b v valid.0 first in
        elim (Bool-cases (K.beq a n)) [
          | inl same ↦
              let is : some first_action ≡ some action = rw same at there in
              subst (λ k. owns t k ≡ owned_before action) ((K.beq_iff a n).0 same)
                (act_on-before a first_action t b v valid.0 first
                  ∙ ap owned_before (some_injective is))
          | inr other ↦
              sym (sets.owned n vn ∙ rw (sym (same_asset a n) ∙ other) refl)
              ∙ apply_non_fungible-before deltas _ u kept valid.1 rest n action vn
                  (rw other at there)
        ]

    -- Where a vault delta is applied without an error, a valid asset that it adds was not owned
    -- before, and one that it removes was.
    pub apply_delta-before :
        (delta : AccountVaultDelta) (t u : Tree)
        → IsVault t
        → ValidIds delta.fungible
        → Sorted delta.fungible
        → All
            (λ (e : NonFungibleAsset × NonFungibleDeltaAction). NonFungibleOps.Laws.IsValid e.0)
            delta.non_fungible
        → apply_delta delta t ≡ (ok tt, u)
        → (n : NonFungibleAsset) (action : NonFungibleDeltaAction) → NonFungibleOps.Laws.IsValid n
        → lookup n delta.non_fungible ≡ some action
        → owns t n ≡ owned_before action
    unfolding apply_delta
    apply_delta-before delta t u v ids s valid h n action vn there =
        let (_, first, rest) = then_do-eq-ok (apply_fungible delta.fungible t) _ h in
        let mid = (apply_fungible delta.fungible t).1 in
        let (kept, _, owned) = apply_fungible-shifts delta.fungible t mid v ids s (ground arith) in
        sym (owned n vn)
        ∙ apply_non_fungible-before delta.non_fungible mid u kept valid rest n action vn there

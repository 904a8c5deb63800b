-- ===== src/Vault/Updates/Owned.antt =====
-- What `AssetVault::apply_delta` does to the non-fungible assets, and as a whole:
-- objects/src/assets/vault.rs.
use miden_base.Base.{
  ◌≡◌, refl, sym, ap, subst, ◌∙◌, inl, inr, Bool, true, false, Option, none, some, [], ◌∷◌, arith,
  if◌then◌else◌, Bool-cases, Result, ok, then_do-eq-ok, All,
}
use miden_base.Base.Ints.{pos, ◌+ℤ◌}
use miden_base.Base.Maps.{Key, nat_key, lookup}
use miden_base.Base.Maps.Sorted.{Sorted, lookup-Above}
use miden_base.Base.Words.{Field, word_eq, word_eq_iff}
use miden_base.Base.Trees.{Smt}
use miden_base.Errors.{AssetVaultError}
use miden_base.Assets.Data.{AccountId, NonFungibleAsset, Asset, non_fungible}
use miden_base.Assets.NonFungible as NonFungibleOps
use miden_base.Delta.Fungible.Laws.{change}
use miden_base.Delta.NonFungible.{
  NonFungibleDeltaAction, add_action, remove_action, NonFungibleAssetDelta,
}
use miden_base.Delta.Vault.{AccountVaultDelta}
use miden_base.Vault.Entries.{IsVault, balance}
use miden_base.Vault.NonFungible.{owns}
use miden_base.Vault.Holdings.{SetsOwned, Added, Removed}
use miden_base.Vault.Holdings.Refines.{add_asset-Added, remove_asset-Removed}
use miden_base.Vault.{add_non_fungible_asset, remove_non_fungible_asset, add_asset, remove_asset}
use miden_base.Vault.Updates.{apply_fungible, act_on, apply_non_fungible, apply_delta}
use miden_base.Vault.Updates.Laws.{wrap-ok, ValidIds, apply_fungible-shifts}

-- Is an asset owned after an action?
abbrev pub owned_after : Option NonFungibleDeltaAction → Bool → Bool
owned_after none before = before
owned_after (some add_action) before = true
owned_after (some remove_action) before = false

owned_step :
    (same same' : Bool) (o : Option NonFungibleDeltaAction) (action : NonFungibleDeltaAction)
    (before now : Bool)
    → same ≡ same'
    → (same ≡ true → o ≡ none)
    → now ≡ (if same' then owned_after (some action) true else before)
    → owned_after o now ≡ owned_after (if same then some action else o) before
owned_step true same' o add_action before now e h k = rw (h refl) (ground arith)
owned_step true same' o remove_action before now e h k = rw (h refl) (ground arith)
owned_step false same' o action before now e h k = ap (owned_after o) (ground arith)

module _ ⦃F : Field⦄ ⦃S : Smt⦄ where
  open S use {Tree}

  Added-owns :
      (a : NonFungibleAsset) (t : Tree) (p : Result AssetVaultError Asset × Tree) (b : Asset)
      → Added (non_fungible a) t p
      → p.0 ≡ ok b
      → IsVault p.1 × SetsOwned t p.1 a true
  Added-owns a t p b (v, inl (_, _, sets)) h = (v, sets)
  Added-owns a t p b (v, inr (_, (e, failed), _)) h = absurd (cc)

  Removed-owns :
      (a : NonFungibleAsset) (t : Tree) (p : Result AssetVaultError Asset × Tree) (b : Asset)
      → Removed (non_fungible a) t p
      → p.0 ≡ ok b
      → IsVault p.1 × SetsOwned t p.1 a false
  Removed-owns a t p b (v, inl (_, _, sets)) h = (v, sets)
  Removed-owns a t p b (v, inr (_, (e, failed), _)) h = absurd (cc)

  pub act_on-owns :
      (a : NonFungibleAsset) (action : NonFungibleDeltaAction) (t : Tree) (b : NonFungibleAsset)
      → IsVault t
      → NonFungibleOps.Laws.IsValid a
      → (act_on a action t).0 ≡ ok b
      → IsVault (act_on a action t).1
        × SetsOwned t (act_on a action t).1 a (owned_after (some action) true)
  unfolding add_asset remove_asset
  act_on-owns a add_action t b v va h =
      Added-owns a t (ok (non_fungible b), (add_non_fungible_asset a t).1) (non_fungible b)
        (subst (Added (non_fungible a) t) (wrap-ok (add_non_fungible_asset a t) non_fungible b h)
          (add_asset-Added t (non_fungible a) v va))
        refl
  act_on-owns a remove_action t b v va h =
      Removed-owns a t (ok (non_fungible b), (remove_non_fungible_asset a t).1) (non_fungible b)
        (subst (Removed (non_fungible a) t)
          (wrap-ok (remove_non_fungible_asset a t) non_fungible b h)
          (remove_asset-Removed t (non_fungible a) v va))
        refl

  module _ ⦃K : Key NonFungibleAsset⦄ where
    pub same_asset : (a n : NonFungibleAsset) → K.beq a n ≡ word_eq a.word n.word
    same_asset a n = elim (Bool-cases (K.beq a n)) [
      | inl same ↦
          same
          ∙ sym (
              (word_eq_iff a.word n.word).1
                (ap (λ (x : NonFungibleAsset). x.word) ((K.beq_iff a n).0 same)))
      | inr other ↦ elim (Bool-cases (word_eq a.word n.word)) [
        | inl same ↦ absurd (ground (arith, K.beq_iff a n, (word_eq_iff a.word n.word).0 same))
        | inr differ ↦ other ∙ sym differ
      ]
    ]

    apply_non_fungible-owns :
        (deltas : NonFungibleAssetDelta) (t u : Tree)
        → IsVault t
        → All
            (λ (e : NonFungibleAsset × NonFungibleDeltaAction). NonFungibleOps.Laws.IsValid e.0)
            deltas
        → Sorted deltas
        → apply_non_fungible deltas t ≡ (ok tt, u)
        → IsVault u
          × ((j : AccountId) → balance u j ≡ balance t j)
          × ((n : NonFungibleAsset)
              → NonFungibleOps.Laws.IsValid n
              → owns u n ≡ owned_after (lookup n deltas) (owns t n))
    unfolding apply_non_fungible lookup
    apply_non_fungible-owns [] t u v valid s h =
        let e : t ≡ u = ap (λ p. p.1) h in
        subst
          (λ w.
            IsVault w
            × ((j : AccountId) → balance w j ≡ balance t j)
            × ((n : NonFungibleAsset) → NonFungibleOps.Laws.IsValid n → owns w n ≡ owns t n))
          e (v, λ j. refl, λ n _. refl)
    apply_non_fungible-owns ((a, action) ∷ deltas) t u v valid s h =
        let (b, first, rest) = then_do-eq-ok (act_on a action t) _ h in
        let (kept, sets) = act_on-owns a action t b v valid.0 first in
        let (kept', balances, owned) = apply_non_fungible-owns deltas _ u kept valid.1 s.1 rest in
        let absent = lookup-Above a deltas s.0 s.1 in
        (
          kept',
          λ j. balances j ∙ sets.balances j,
          λ n vn.
              owned n vn
              ∙ owned_step (K.beq a n) (word_eq a.word n.word) (lookup n deltas) action (owns t n) _
                  (same_asset a n)
                  (λ e. subst (λ k. lookup k deltas ≡ none) ((K.beq_iff a n).0 e) absent)
                  (sets.owned n vn),
        )

    -- A vault delta with keys in order, valid faucet IDs and valid assets that is applied without
    -- an error to a vault with valid entries leaves such a vault, in which every balance is
    -- shifted by its recorded change, and a valid asset is owned if it was added, or if it was
    -- owned before and was not removed.
    pub apply_delta-holdings :
        (delta : AccountVaultDelta) (t u : Tree)
        → IsVault t
        → ValidIds delta.fungible
        → Sorted delta.fungible
        → All
            (λ (e : NonFungibleAsset × NonFungibleDeltaAction). NonFungibleOps.Laws.IsValid e.0)
            delta.non_fungible
        → Sorted delta.non_fungible
        → apply_delta delta t ≡ (ok tt, u)
        → IsVault u
          × ((j : AccountId) → pos (balance u j) ≡ pos (balance t j) +ℤ change delta.fungible j)
          × ((n : NonFungibleAsset)
              → NonFungibleOps.Laws.IsValid n
              → owns u n ≡ owned_after (lookup n delta.non_fungible) (owns t n))
    unfolding apply_delta
    apply_delta-holdings delta t u v ids s valid s' h =
        let (_, first, rest) = then_do-eq-ok (apply_fungible delta.fungible t) _ h in
        let mid = (apply_fungible delta.fungible t).1 in
        let (kept, shifted, owned) =
          apply_fungible-shifts delta.fungible t mid v ids s (ground arith) in
        let (kept', balances, owned') =
          apply_non_fungible-owns delta.non_fungible mid u kept valid s' rest in
        (
          kept',
          λ j. ap pos (balances j) ∙ shifted j,
          λ n vn. owned' n vn ∙ ap (owned_after (lookup n delta.non_fungible)) (owned n vn),
        )

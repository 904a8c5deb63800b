-- ===== src/Vault/Holdings/Refines.antt =====
-- The vault's methods keep what the specification promises: objects/src/assets/vault.rs.
use miden_base.Base.{
  ℕ, ◌+◌, ◌-◌, ◌≤◌, ◌≡◌, refl, sym, ap, subst, ◌∙◌, inl, inr, true, not, arith, ◌==◌, if◌then◌else◌,
  Bool-cases,
}
use miden_base.Base.Words.{Word, Field, empty_word, word_eq, word_eq_iff}
use miden_base.Base.Trees.{Smt}
use miden_base.Assets.Data.{
  AccountId, FungibleAsset, NonFungibleAsset, Asset, fungible, non_fungible,
}
use miden_base.Assets.Fungible as FungibleOps
use miden_base.Assets.NonFungible as NonFungibleOps
use miden_base.Assets.Whole
use miden_base.Assets.Whole.Laws.{IsValid, to_word_fungible, valid_id_ne_zero}
use miden_base.Vault.Entries.{
  fungible_key, fungible_word, left_word, Entry, IsVault, insert-IsVault, balance,
  balance-le-max_amount,
}
use miden_base.Vault.Fungible.{add_fungible_asset_lem, remove_fungible_asset_lem}
use miden_base.Vault.NonFungible.{owns, add_non_fungible_asset_lem, remove_non_fungible_asset_lem}
use miden_base.Vault.Holdings.{
  Same, Same-refl, SetsBalance, set_fungible, SetsOwned, set_non_fungible, Added, Removed,
}
use miden_base.Vault.{add_asset, remove_asset}

module _ ⦃F : Field⦄ where
  fungible-Entry :
      (a : FungibleAsset)
      → FungibleOps.Laws.IsValid a
      → Entry (fungible_key a.faucet_id) (fungible_word a.faucet_id a.amount)
  unfolding Whole.vault_key
  fungible-Entry a v = inr (fungible a, v, refl, sym (to_word_fungible a v))

  left-Entry :
      (a : FungibleAsset)
      → FungibleOps.Laws.IsValid a
      → Entry (fungible_key a.faucet_id) (left_word a.faucet_id a.amount)
  left-Entry a v = elim (Bool-cases (a.amount == 0)) [
    | inl nothing ↦ rw nothing (inl refl)
    | inr some_left ↦ rw some_left (fungible-Entry a v)
  ]

  left_word_amount : (id : AccountId) (n : ℕ) → (left_word id n).e0 ≡ n
  left_word_amount id n = ground arith

  non_fungible-Entry : (a : NonFungibleAsset) → NonFungibleOps.Laws.IsValid a → Entry a.word a.word
  unfolding Whole.vault_key Whole.to_word
  non_fungible-Entry a v = inr (non_fungible a, v, refl, refl)

  with_amount :
      (a : FungibleAsset) (n : ℕ)
      → FungibleOps.Laws.IsValid a
      → n ≤ FungibleOps.max_amount
      → FungibleOps.Laws.IsValid (record a { amount = n })
  with_amount a n v h = record { id_valid = v.id_valid; of_faucet = v.of_faucet; bounded = h }

module _ ⦃F : Field⦄ ⦃S : Smt⦄ where
  open S use {Tree, get_value, insert}

  add_fungible-Added :
      (t : Tree) (a : FungibleAsset)
      → IsVault t
      → FungibleOps.Laws.IsValid a
      → Added (fungible a) t (add_asset (fungible a) t)
  unfolding add_asset
  add_fungible-Added t a v va = elim (add_fungible_asset_lem t a v va) [
    | inl (fits, e) ↦
        let sum = balance t a.faucet_id + a.amount in
        rw (e, add_asset)
          (
            insert-IsVault t _ _ v
                (fungible-Entry (record a { amount = sum }) (with_amount a sum va fits)),
            inl (fits, (_, refl), set_fungible t a.faucet_id (fungible_word a.faucet_id sum)),
          )
    | inr (over, e) ↦ rw (e, add_asset) (v, inr (over, (_, refl), Same-refl t))
  ]

  not_empty :
      (a : NonFungibleAsset)
      → NonFungibleOps.Laws.IsValid a
      → not (word_eq a.word empty_word) ≡ true
  not_empty a v = ground (arith, valid_id_ne_zero a.word.e1 v.id_valid)

  -- Writing an asset that is there already, or clearing one that is not, changes nothing.
  rewrite-Same :
      (t : Tree) (a : NonFungibleAsset) (w : Word)
      → NonFungibleOps.Laws.IsValid a
      → owns t a ≡ not (word_eq w empty_word)
      → Same t (insert t a.word w).1
  rewrite-Same t a w va before = record { balances = written.balances; owned = go }
    where
      written : SetsOwned t (insert t a.word w).1 a (not (word_eq w empty_word))
      written = set_non_fungible t a w va

      go :
          (n : NonFungibleAsset)
          → NonFungibleOps.Laws.IsValid n
          → owns (insert t a.word w).1 n ≡ owns t n
      go n vn = written.owned n vn ∙ step
        where
          step : (if word_eq a.word n.word then not (word_eq w empty_word) else owns t n) ≡ owns t n
          step = elim (Bool-cases (word_eq a.word n.word)) [
            | inl same ↦ rw same (
                sym before
                ∙ ap (λ (k : Word). not (word_eq (get_value t k) empty_word))
                    ((word_eq_iff a.word n.word).0 same))
            | inr other ↦ rw other
          ]

  add_non_fungible-Added :
      (t : Tree) (a : NonFungibleAsset)
      → IsVault t
      → NonFungibleOps.Laws.IsValid a
      → Added (non_fungible a) t (add_asset (non_fungible a) t)
  unfolding add_asset
  add_non_fungible-Added t a v va =
      let kept = insert-IsVault t a.word a.word v (non_fungible-Entry a va) in
      elim (Bool-cases (owns t a)) [
        | inl there ↦
            rw (add_non_fungible_asset_lem t a, there)
              (
                kept,
                inr (refl, (_, refl), rewrite-Same t a a.word va (there ∙ sym (not_empty a va))),
              )
        | inr absent ↦
            rw (add_non_fungible_asset_lem t a, absent)
              (
                kept,
                inl (
                  refl,
                  refl,
                  subst (SetsOwned t _ a) (not_empty a va) (set_non_fungible t a a.word va),
                ),
              )
      ]

  -- On a vault with valid entries, `add_asset` of a valid asset does what the specification says:
  -- the entries stay valid, the balance of the faucet grows by the amount, or the asset becomes
  -- owned, and nothing else changes; it fails exactly when the balance would pass 63 bits, or when
  -- the asset is owned already, and then the holdings are as they were.
  pub add_asset-Added : (t : Tree) (a : Asset) → IsVault t → IsValid a → Added a t (add_asset a t)
  add_asset-Added t (fungible a) v va = add_fungible-Added t a v va
  add_asset-Added t (non_fungible a) v va = add_non_fungible-Added t a v va

  remove_fungible-Removed :
      (t : Tree) (a : FungibleAsset)
      → IsVault t
      → FungibleOps.Laws.IsValid a
      → Removed (fungible a) t (remove_asset (fungible a) t)
  unfolding remove_asset
  remove_fungible-Removed t a v va = elim (remove_fungible_asset_lem t a v va) [
    | inl (nothing, e) ↦
        rw (e, remove_asset) (v, inr ((_, refl), refl, inr (ap (λ (w : Word). w.e0) nothing)))
    | inr (inl (short, e)) ↦ rw (e, remove_asset) (v, inr ((_, refl), refl, inl short))
    | inr (inr (covered, e)) ↦
        let left = balance t a.faucet_id - a.amount in
        let in_range : left ≤ FungibleOps.max_amount =
          omega (arith, balance-le-max_amount t a.faucet_id v) in
        let written = set_fungible t a.faucet_id (left_word a.faucet_id left) in
        rw (e, remove_asset)
          (
            insert-IsVault t _ _ v
                (left-Entry (record a { amount = left }) (with_amount a left va in_range)),
            inl (
              covered,
              refl,
              subst (SetsBalance t _ a.faucet_id) (left_word_amount a.faucet_id left) written,
            ),
          )
  ]

  remove_non_fungible-Removed :
      (t : Tree) (a : NonFungibleAsset)
      → IsVault t
      → NonFungibleOps.Laws.IsValid a
      → Removed (non_fungible a) t (remove_asset (non_fungible a) t)
  unfolding remove_asset
  remove_non_fungible-Removed t a v va =
      let kept = insert-IsVault t a.word empty_word v (inl refl) in
      elim (Bool-cases (owns t a)) [
        | inl there ↦
            rw (remove_non_fungible_asset_lem t a, there)
              (kept, inl (refl, refl, set_non_fungible t a empty_word va))
        | inr absent ↦
            rw (remove_non_fungible_asset_lem t a, absent)
              (kept, inr (refl, (_, refl), rewrite-Same t a empty_word va absent))
      ]

  -- On a vault with valid entries, `remove_asset` of a valid asset does what the specification
  -- says: the entries stay valid, and the balance of the faucet falls by the amount, or the asset
  -- is no longer owned, and nothing else changes; or it fails because the balance is short or
  -- zero, or because the asset is not owned, and then the holdings are as they were.
  pub remove_asset-Removed :
      (t : Tree) (a : Asset) → IsVault t → IsValid a → Removed a t (remove_asset a t)
  remove_asset-Removed t (fungible a) v va = remove_fungible-Removed t a v va
  remove_asset-Removed t (non_fungible a) v va = remove_non_fungible-Removed t a v va

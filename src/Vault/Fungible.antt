-- ===== src/Vault/Fungible.antt =====
-- What the vault's methods do with fungible assets.
use miden_base.Base.{ℕ, ◌+◌, ◌-◌, ◌≤◌, ◌<◌, ◌≡◌, ◌⊎◌, inl, inr, arith, ok, err}
use native.Mathlib.Decide.{dec_le}
use miden_base.Base.Words.{Field, empty_word}
use miden_base.Base.Trees.{Smt}
use miden_base.Errors.{
  add_fungible_asset_balance_error, fungible_asset_not_found, subtract_fungible_asset_balance_error,
  amount_too_big, asset_amount_not_sufficient,
}
use miden_base.Accounts.Kinds.{fungible_faucet}
use miden_base.Accounts.Id.{account_type}
use miden_base.Assets.Data.{AccountId, FungibleAsset}
use miden_base.Assets.Fungible as FungibleOps
use miden_base.Assets.Whole.Laws.{valid_id_ne_zero}
use miden_base.Vault.Entries.{fungible_key, fungible_word, left_word, IsVault, stored, balance}
use miden_base.Vault.{get_balance, add_fungible_asset, remove_fungible_asset}

module _ ⦃F : Field⦄ ⦃S : Smt⦄ where
  open S use {Tree, get_value, insert, get_value-insert}

  in_field : {n : ℕ} → n ≤ FungibleOps.max_amount → n < F.modulus
  in_field h = omega (arith, F.half)

  -- Of a fungible faucet `get_balance` gives the amount, and of any other account an error.
  get_balance_lem :
      (t : Tree) (id : AccountId)
      → account_type id ≡ fungible_faucet
      → get_balance t id ≡ ok (balance t id)
  unfolding get_balance
  get_balance_lem t id h = ground arith

  -- The outcome of an addition, by the amount in the vault.
  pub add_fungible_asset_lem :
      (t : Tree) (a : FungibleAsset)
      → IsVault t
      → FungibleOps.Laws.IsValid a
      → let sum = balance t a.faucet_id + a.amount in
        ((sum ≤ FungibleOps.max_amount)
          × (add_fungible_asset a t ≡ (
            ok (record { faucet_id = a.faucet_id; amount = sum }),
            (insert t (fungible_key a.faucet_id) (fungible_word a.faucet_id sum)).1,
          )))
        ⊎ ((FungibleOps.max_amount < sum)
            × (add_fungible_asset a t
                ≡ (err (add_fungible_asset_balance_error (amount_too_big sum)), t)))
  unfolding add_fungible_asset FungibleOps.add
  add_fungible_asset_lem t a v va = elim (stored t a.faucet_id v) [
    | inl nothing ↦ inl (
      ground (arith, va.bounded, nothing),
      ground (arith, F.felt_new_canonical a.amount (in_field va.bounded), nothing),
    )
    | inr (n, bounded, there) ↦ elim (dec_le (n + a.amount) FungibleOps.max_amount) [
      | yes fits ↦ inl (
        ground (arith, there),
        ground (arith, F.felt_new_canonical (n + a.amount) (in_field fits), there, va.bounded),
      )
      | no over ↦ inr (ground (arith, there), ground (arith, there, va.bounded))
    ]
  ]

  pub remove_fungible_asset_lem :
      (t : Tree) (a : FungibleAsset)
      → IsVault t
      → FungibleOps.Laws.IsValid a
      → ((get_value t (fungible_key a.faucet_id) ≡ empty_word)
          × (remove_fungible_asset a t ≡ (err (fungible_asset_not_found a), t)))
        ⊎ ((balance t a.faucet_id < a.amount)
            × (remove_fungible_asset a t ≡ (
              err (
                  subtract_fungible_asset_balance_error
                    (asset_amount_not_sufficient (balance t a.faucet_id) a.amount)),
              t,
            )))
        ⊎ ((a.amount ≤ balance t a.faucet_id)
            × (remove_fungible_asset a t ≡ (
              ok a,
              (insert t
                  (fungible_key a.faucet_id)
                  (left_word a.faucet_id (balance t a.faucet_id - a.amount))).1,
            )))
  unfolding remove_fungible_asset FungibleOps.sub
  remove_fungible_asset_lem t a v va = elim (stored t a.faucet_id v) [
    | inl nothing ↦ inl (nothing, ground (arith, nothing))
    | inr (n, bounded, there) ↦
        let present = valid_id_ne_zero a.faucet_id va.id_valid in
        elim (dec_le a.amount n) [
          | yes covered ↦
              let left = F.felt_new_canonical (n - a.amount) (in_field (omega arith)) in
              inr (inr (ground (arith, there), ground (arith, left, there, present)))
          | no short ↦ inr (inl (ground (arith, there), ground (arith, there, present)))
        ]
  ]

-- ===== src/Assets/Fungible/Laws.antt =====
-- What holds of fungible assets: objects/src/assets/fungible.rs.
use miden_base.Base.{ℕ, ◌+◌, ◌≤◌, ◌<◌, ◌≡◌, refl, sym, ◌≢◌, ◌↔◌, ◌⊎◌, inl, inr, arith, ok, err}
use native.Mathlib.Decide.{dec_le, ℕ_discrete}
use miden_base.Errors.{amount_too_big, asset_amount_not_sufficient, inconsistent_faucet_ids}
use miden_base.Accounts.Kinds.{fungible_faucet, type_code-injective}
use miden_base.Accounts.Id.{account_type, account_id_from_felt}
use miden_base.Assets.Data.{AccountId, FungibleAsset}
use miden_base.Assets.Fungible.{max_amount, new, add, sub}

-- What `new` guarantees.
pub record IsValid (a : FungibleAsset) : Type 0 where
  pub id_valid : account_id_from_felt a.faucet_id ≡ ok a.faucet_id
  pub of_faucet : account_type a.faucet_id ≡ fungible_faucet
  pub bounded : a.amount ≤ max_amount

-- `new` accepts exactly the fungible faucets and the amounts of at most 63 bits.
pub new_accepts :
    (id : AccountId) (n : ℕ) (a : FungibleAsset)
    → (new id n ≡ ok a) ↔ (
        (a ≡ record { faucet_id = id; amount = n })
        × (account_type id ≡ fungible_faucet)
        × (n ≤ max_amount))
unfolding new
new_accepts id n a =
    (λ h. ground (arith, type_code-injective (account_type id) fungible_faucet), λ h. ground arith)

-- The sum of two valid assets never panics. It is an asset exactly when the faucets agree and the
-- sum fits 63 bits; it is valid then, and of the two errors the one that its cause calls for is
-- returned otherwise.
pub add_outcome :
    (a b : FungibleAsset)
    → IsValid a
    → IsValid b
    → ((c : FungibleAsset) × (add a b ≡ ok c)
        × IsValid c
        × (b.faucet_id ≡ a.faucet_id)
        × (c.faucet_id ≡ a.faucet_id)
        × (c.amount ≡ a.amount + b.amount))
      ⊎ ((a.faucet_id ≢ b.faucet_id)
          × (add a b ≡ err (inconsistent_faucet_ids a.faucet_id b.faucet_id)))
      ⊎ ((max_amount < a.amount + b.amount)
          × (add a b ≡ err (amount_too_big (a.amount + b.amount))))
unfolding add
add_outcome a b va vb = elim (ℕ_discrete a.faucet_id b.faucet_id) [
  | yes same ↦ elim (dec_le (a.amount + b.amount) max_amount) [
    | yes fits ↦ inl (
      record { faucet_id = a.faucet_id; amount = a.amount + b.amount },
      ground arith,
      record { id_valid = va.id_valid; of_faucet = va.of_faucet; bounded = fits },
      sym same,
      refl,
      refl,
    )
    | no over ↦ inr (inr (omega arith, ground arith))
  ]
  | no other ↦ inr (inl (other, ground arith))
]

-- Taking from a sum the amount of its second part gives that part and leaves the first.
sub-add : (a b c : FungibleAsset) → add a b ≡ ok c → sub c b.amount ≡ (ok b, a)
unfolding add sub
sub-add a b c h = ground arith

-- `sub` succeeds exactly when the amount is covered, and returns an asset of the amount that was
-- asked for. What is left and what was taken make up the asset as it was, and a refusal changes
-- nothing.
pub sub_conserves :
    (a : FungibleAsset) (n : ℕ)
    → let (outcome, rest) = sub a n in
      ((n ≤ a.amount)
        × (outcome ≡ ok (record { faucet_id = a.faucet_id; amount = n }))
        × (rest.faucet_id ≡ a.faucet_id)
        × (rest.amount + n ≡ a.amount))
      ⊎ ((a.amount < n) × (outcome ≡ err (asset_amount_not_sufficient a.amount n)) × (rest ≡ a))
unfolding sub
sub_conserves a n = elim (dec_le n a.amount) [
  | yes covered ↦ inl (covered, ground arith, ground arith, ground arith)
  | no short ↦ inr (omega arith, ground arith, ground arith)
]

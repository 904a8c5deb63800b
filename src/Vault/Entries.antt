-- ===== src/Vault/Entries.antt =====
-- The invariant of the vault: every entry is the word of a valid asset under that asset's key.
use miden_base.Base.{
  ℕ, ◌≤◌, ◌≡◌, ap, subst, ◌∙◌, ◌⊎◌, inl, inr, arith, ◌==◌, if◌then◌else◌, Bool-cases,
}
use miden_base.Base.Words.{Word, Field, empty_word, word_eq, word_eq_iff}
use miden_base.Base.Trees.{Smt}
use miden_base.Assets.Data.{AccountId, Asset, fungible, non_fungible}
use miden_base.Assets.Fungible
use miden_base.Assets.Whole
use miden_base.Assets.Whole.Laws.{IsValid, to_word_fungible, valid_id_ne_zero}

-- The key and the word of a fungible asset.
abbrev pub fungible_key : AccountId → Word
fungible_key id = record { e0 = 0; e1 = 0; e2 = 0; e3 = id }

abbrev pub fungible_word : AccountId → ℕ → Word
fungible_word id n = record { e0 = n; e1 = 0; e2 = 0; e3 = id }

-- What is written under a faucet's key when `n` are left.
abbrev pub left_word : AccountId → ℕ → Word
left_word id n = if n == 0 then empty_word else fungible_word id n

-- What may stand under a key.
abbrev pub Entry : ⦃F : Field⦄ → Word → Word → Type 0
Entry k w =
    (w ≡ empty_word) ⊎ ((a : Asset) × IsValid a × (Whole.vault_key a ≡ k) × (w ≡ Whole.to_word a))

module _ ⦃F : Field⦄ ⦃S : Smt⦄ where
  open S use {Tree, get_value, insert, get_value-insert}

  -- `AssetVault::new` on distinct valid assets gives such a vault, and so does every method.
  pub record IsVault (t : Tree) : Type 0 where
    pub entry : (k : Word) → Entry k (get_value t k)

  -- A write of a permitted entry keeps the invariant.
  pub insert-IsVault : (t : Tree) (k w : Word) → IsVault t → Entry k w → IsVault (insert t k w).1
  insert-IsVault t k w v new = record { entry = go }
    where
      go : (j : Word) → Entry j (get_value (insert t k w).1 j)
      go j = elim (Bool-cases (word_eq k j)) [
        | inl same ↦
            rw (get_value-insert t k w j, same)
              (subst (λ x. Entry x w) ((word_eq_iff k j).0 same) new)
        | inr other ↦ rw (get_value-insert t k w j, other) (v.entry j)
      ]

  stored_word :
      (id : AccountId) (a : Asset)
      → IsValid a
      → Whole.vault_key a ≡ fungible_key id
      → (n : ℕ) × (n ≤ Fungible.max_amount)
        × (Whole.to_word a ≡ fungible_word id n)
        × (a ≡ fungible (record { faucet_id = id; amount = n }))
  unfolding Whole.vault_key
  stored_word id (fungible a) v e =
      let id_is : a.faucet_id ≡ id = ap (λ (w : Word). w.e3) e in
      (
        a.amount,
        v.bounded,
        to_word_fungible a v ∙ ap (λ (i : AccountId). fungible_word i a.amount) id_is,
        ground arith,
      )
  stored_word id (non_fungible a) v e =
      absurd (valid_id_ne_zero a.word.e1 v.id_valid (ap (λ (w : Word). w.e1) e))

  -- What the vault holds under the key of a faucet is nothing, or a word with an amount in range.
  pub stored :
      (t : Tree) (id : AccountId)
      → IsVault t
      → (get_value t (fungible_key id) ≡ empty_word)
        ⊎ ((n : ℕ) × (n ≤ Fungible.max_amount)
            × (get_value t (fungible_key id) ≡ fungible_word id n))
  stored t id v = go (v.entry (fungible_key id))
    where
      go :
          Entry (fungible_key id) (get_value t (fungible_key id))
          → (get_value t (fungible_key id) ≡ empty_word)
            ⊎ ((n : ℕ) × (n ≤ Fungible.max_amount)
                × (get_value t (fungible_key id) ≡ fungible_word id n))
      go (inl nothing) = inl nothing
      go (inr (a, valid, key, word)) =
          let (n, bounded, is_word, _) = stored_word id a valid key in
          inr (n, bounded, word ∙ is_word)

  -- The amount under the key of a faucet, 0 if there is none.
  abbrev pub balance : Tree → AccountId → ℕ
  balance t id = (get_value t (fungible_key id)).e0

  pub balance-le-max_amount :
      (t : Tree) (id : AccountId) → IsVault t → balance t id ≤ Fungible.max_amount
  balance-le-max_amount t id v = ground (arith, stored t id v)

-- ===== src/Assets/Whole/Laws.antt =====
-- What holds of assets of both kinds: objects/src/assets/mod.rs.
use miden_base.Base.{◌/◌, ◌%◌, ◌^◌, ◌≤◌, ◌≡◌, refl, sym, ap, subst, ◌≢◌, ◌↔◌, true, arith, ◌==◌, ok}
use miden_base.Base.Bits.{bit_and_high, bit_and_low}
use miden_base.Base.Words.{Field, Word, word_eq_iff}
use miden_base.Accounts.Kinds.{fungible_faucet, type_code, type_code-account_type_from_u64}
use miden_base.Accounts.Id.{account_type, account_id_from_felt, count_ones, ones}
use miden_base.Accounts.Id.Laws.{account_id_from_felt_accepts}
use miden_base.Assets.Data.{
  AccountId, FungibleAsset, NonFungibleAsset, Asset, fungible, non_fungible,
}
use miden_base.Assets.Fungible
use miden_base.Assets.NonFungible
use miden_base.Assets.Whole.{
  is_not_a_non_fungible_asset, is_same, vault_key, to_word, try_from_word, new_unchecked,
}

-- An asset that a checked constructor made.
abbrev pub IsValid : Asset → Type 0
IsValid (fungible a) = Fungible.Laws.IsValid a
IsValid (non_fungible a) = NonFungible.Laws.IsValid a

-- The kind of a word is bit 61 of its last element.
pub kind_bit : (w : Word) → is_not_a_non_fungible_asset w ≡ (w.e3 / 2 ^ 61 % 2 == 1)
unfolding is_not_a_non_fungible_asset
kind_bit w = ground (arith, bit_and_high 61 w.e3 1, bit_and_low 1 (w.e3 / 2 ^ 61))

pub faucet_id_bit : (id : AccountId) → account_type id ≡ fungible_faucet → id / 2 ^ 61 % 2 ≡ 1
faucet_id_bit id h = omega (arith, type_code-account_type_from_u64 id, ap type_code h)

pub to_word_fungible :
    ⦃F : Field⦄ (a : FungibleAsset)
    → Fungible.Laws.IsValid a
    → to_word (fungible a) ≡ record { e0 = a.amount; e1 = 0; e2 = 0; e3 = a.faucet_id }
unfolding to_word
to_word_fungible ⦃F⦄ a v =
    let amount_is = F.felt_new_canonical a.amount (omega (arith, F.half, v.bounded)) in
    λ i. record { e0 = amount_is i; e1 = 0; e2 = 0; e3 = a.faucet_id }

module _ ⦃F : Field⦄ where
  read_fungible :
      (a : FungibleAsset)
      → Fungible.Laws.IsValid a
      → try_from_word (record { e0 = a.amount; e1 = 0; e2 = 0; e3 = a.faucet_id }) ≡ ok (fungible a)
  unfolding try_from_word Fungible.try_from_word
  read_fungible a v = ground (
    arith,
    v.id_valid,
    v.of_faucet,
    v.bounded,
    kind_bit (record { e0 = a.amount; e1 = 0; e2 = 0; e3 = a.faucet_id }),
    faucet_id_bit a.faucet_id v.of_faucet,
  )

  read_non_fungible :
      (a : NonFungibleAsset)
      → NonFungible.Laws.IsValid a
      → try_from_word a.word ≡ ok (non_fungible a)
  unfolding try_from_word NonFungible.try_from_word
  read_non_fungible a v = ground (arith, v.id_valid, v.of_faucet, v.bit_cleared, kind_bit a.word)

  -- A valid asset of either kind comes back from its word.
  pub try_from_word-to_word : (a : Asset) → IsValid a → try_from_word (to_word a) ≡ ok a
  unfolding to_word
  try_from_word-to_word (fungible a) v = rw (to_word_fungible a v) (read_fungible a v)
  try_from_word-to_word (non_fungible a) v = read_non_fungible a v

  unchecked_fungible :
      (a : FungibleAsset)
      → Fungible.Laws.IsValid a
      → new_unchecked (record { e0 = a.amount; e1 = 0; e2 = 0; e3 = a.faucet_id }) ≡ fungible a
  unfolding new_unchecked
  unchecked_fungible a v = ground (
    arith,
    kind_bit (record { e0 = a.amount; e1 = 0; e2 = 0; e3 = a.faucet_id }),
    faucet_id_bit a.faucet_id v.of_faucet,
  )

  unchecked_non_fungible :
      (a : NonFungibleAsset) → NonFungible.Laws.IsValid a → new_unchecked a.word ≡ non_fungible a
  unfolding new_unchecked
  unchecked_non_fungible a v = ground (arith, v.bit_cleared, kind_bit a.word)

  -- So does it without the checks, as the vault reads its entries.
  new_unchecked-to_word : (a : Asset) → IsValid a → new_unchecked (to_word a) ≡ a
  unfolding to_word
  new_unchecked-to_word (fungible a) v = rw (to_word_fungible a v) (unchecked_fungible a v)
  new_unchecked-to_word (non_fungible a) v = unchecked_non_fungible a v

pub valid_id_ne_zero : (id : AccountId) → account_id_from_felt id ≡ ok id → id ≢ 0
unfolding ones
valid_id_ne_zero id h zero_id =
    let (_, enough, _) = (account_id_from_felt_accepts id id).0 h in
    absurd (omega (arith, subst (λ x. 5 ≤ count_ones x) zero_id enough, no_ones))
  where
    no_ones : count_ones 0 ≡ 0
    no_ones = refl

-- Two valid assets are the same, fungible ones of one faucet or equal non-fungible ones, exactly
-- when the vault stores them under one key.
is_same_iff_vault_key :
    (a b : Asset) → IsValid a → IsValid b → (is_same a b ≡ true) ↔ (vault_key a ≡ vault_key b)
unfolding is_same vault_key
is_same_iff_vault_key (fungible a) (fungible b) va vb = (λ h. ground arith, λ h. ground arith)
is_same_iff_vault_key (fungible a) (non_fungible b) va vb = (
  λ h. absurd (cc),
  λ h. absurd (valid_id_ne_zero b.word.e1 vb.id_valid (sym (ap (λ (w : Word). w.e1) h))),
)
is_same_iff_vault_key (non_fungible a) (fungible b) va vb = (
  λ h. absurd (cc),
  λ h. absurd (valid_id_ne_zero a.word.e1 va.id_valid (ap (λ (w : Word). w.e1) h)),
)
is_same_iff_vault_key (non_fungible a) (non_fungible b) va vb = word_eq_iff a.word b.word

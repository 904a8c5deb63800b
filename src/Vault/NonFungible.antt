-- ===== src/Vault/NonFungible.antt =====
-- What the vault's methods do with non-fungible assets.
use miden_base.Base.{◌≡◌, refl, Bool, not, arith, if◌then◌else◌, ok, err}
use miden_base.Base.Words.{empty_word, word_eq}
use miden_base.Base.Trees.{Smt}
use miden_base.Errors.{duplicate_non_fungible_asset, non_fungible_asset_not_found}
use miden_base.Assets.Data.{NonFungibleAsset, non_fungible}
use miden_base.Vault.{add_non_fungible_asset, remove_non_fungible_asset, has_non_fungible_asset}

module _ ⦃S : Smt⦄ where
  open S use {Tree, get_value, insert, insert_old, get_value-insert}

  -- Is the asset in the vault?
  abbrev pub owns : Tree → NonFungibleAsset → Bool
  owns t a = not (word_eq (get_value t a.word) empty_word)

  has_non_fungible_asset_lem :
      (t : Tree) (a : NonFungibleAsset) → has_non_fungible_asset t (non_fungible a) ≡ ok (owns t a)
  unfolding has_non_fungible_asset
  has_non_fungible_asset_lem t a = refl

  -- An addition writes the asset, and fails if it was there.
  pub add_non_fungible_asset_lem :
      (t : Tree) (a : NonFungibleAsset)
      → add_non_fungible_asset a t ≡ (
        (if owns t a then err (duplicate_non_fungible_asset a) else ok a),
        (insert t a.word a.word).1,
      )
  unfolding add_non_fungible_asset
  add_non_fungible_asset_lem t a = rw (insert_old t a.word a.word) (ground arith)

  -- A removal clears the entry, and fails if there was none.
  pub remove_non_fungible_asset_lem :
      (t : Tree) (a : NonFungibleAsset)
      → remove_non_fungible_asset a t ≡ (
        (if owns t a then ok a else err (non_fungible_asset_not_found a)),
        (insert t a.word empty_word).1,
      )
  unfolding remove_non_fungible_asset
  remove_non_fungible_asset_lem t a = rw (insert_old t a.word empty_word) (ground arith)

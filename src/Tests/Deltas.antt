-- ===== src/Tests/Deltas.antt =====
-- The theorems on deltas at concrete deltas.
use miden_base.Base.{
  ℕ, ◌+◌, ◌%◌, ◌≤◌, ◌<◌, ◌^◌, ◌≡◌, refl, ◌⊎◌, inl, inr, Bool, true, false, Option, none, some, List,
  [], ◌∷◌, arith, Result, ok, err, panic, All,
}
use miden_base.Base.Ints.{ℤ, pos, negsuc, ◌+ℤ◌, fits_i64}
use miden_base.Base.Maps.{lookup, nat_key}
use miden_base.Base.Maps.Sorted.{or_none}
use miden_base.Base.Words.{Word, Digest, Felt, empty_word}
use miden_base.Delta.Fungible as FungibleDelta
use miden_base.Delta.Fungible.Laws.{change, merge_adds}
use miden_base.Delta.NonFungible as NonFungibleDelta
use miden_base.Delta.NonFungible.{NonFungibleAssetDelta, add_action, remove_action}
use miden_base.Delta.NonFungible.Laws.{Combines, merge-Combines}
use miden_base.Delta.Storage as StorageDelta
use miden_base.Delta.Storage.{AccountStorageDelta}
use miden_base.Delta.Storage.Laws.{IsDisjoint, map_item, merge_overrides}
use miden_base.Delta.Account as Deltas
use miden_base.Delta.Account.{AccountDelta}
use miden_base.Delta.Account.Laws.{IsValid, merge-IsValid}
use miden_base.Delta.Tracker.{AccountDeltaTracker}
use miden_base.Tests.Values.{digest_key, asset_key, coin_faucet, painting}

abbrev pub gain : FungibleDelta.FungibleAssetDelta
gain = (coin_faucet, pos 30) ∷ []

abbrev pub loss : FungibleDelta.FungibleAssetDelta
loss = (coin_faucet, negsuc 9) ∷ []

gain-loss : FungibleDelta.merge loss gain ≡ (ok tt, (coin_faucet, pos 20) ∷ [])
unfolding FungibleDelta.merge FungibleDelta.add_delta lookup miden_base.Base.Ints.checked_add_i64
    miden_base.Base.Maps.insert
gain-loss = refl

merge_adds_example :
    change ((coin_faucet, pos 20) ∷ []) coin_faucet
    ≡ change gain coin_faucet +ℤ change loss coin_faucet
merge_adds_example =
    merge_adds loss gain ((coin_faucet, pos 20) ∷ []) ((tt, tt), (refl, tt)) gain-loss coin_faucet

abbrev came : NonFungibleAssetDelta
came = (painting, add_action) ∷ []

abbrev went : NonFungibleAssetDelta
went = (painting, remove_action) ∷ []

came-went : NonFungibleDelta.merge went came ≡ (ok tt, [])
unfolding NonFungibleDelta.merge NonFungibleDelta.apply_action lookup miden_base.Base.Maps.remove
came-went = refl

merge-Combines_example : Combines (lookup painting came) (lookup painting went) (lookup painting [])
merge-Combines_example = merge-Combines went came [] (tt, tt) came-went painting

abbrev word_of : ℕ → Word
word_of n = record empty_word { e0 = n }

-- Slot 1 gets a value, and slot 2 an item of its map.
abbrev pub first_update : AccountStorageDelta
first_update = record { values = (1, word_of 4) ∷ []; maps = (2, (word_of 1, word_of 5) ∷ []) ∷ [] }

abbrev pub second_update : AccountStorageDelta
second_update = record {
  values = (1, word_of 6) ∷ [];
  maps = (2, (word_of 1, word_of 7) ∷ (word_of 2, word_of 8) ∷ []) ∷ [];
}

merge_overrides_example :
    ((slot : ℕ)
      → lookup slot (StorageDelta.merge second_update first_update).1.values
        ≡ or_none (lookup slot second_update.values) (lookup slot first_update.values))
    × ((slot : ℕ) (key : Digest)
        → map_item (StorageDelta.merge second_update first_update).1.maps slot key
          ≡ or_none (map_item second_update.maps slot key) (map_item first_update.maps slot key))
    × ((StorageDelta.merge second_update first_update).0 ≡ ok tt
        → IsDisjoint
            (StorageDelta.merge second_update first_update).1.values
            (StorageDelta.merge second_update first_update).1.maps)
merge_overrides_example =
    merge_overrides second_update first_update (tt, tt) ((tt, tt), ((refl, (tt, tt)), tt))

abbrev pub deposit : AccountDelta
deposit = record {
  storage = first_update;
  vault = record { fungible = gain; non_fungible = came };
  nonce = some 3;
}

abbrev pub withdrawal : AccountDelta
withdrawal = record {
  storage = second_update;
  vault = record { fungible = loss; non_fungible = went };
  nonce = some 4;
}

abbrev pub both : AccountDelta
both = (Deltas.merge withdrawal deposit).1

pub both_ok : Deltas.merge withdrawal deposit ≡ (ok tt, both)
unfolding Deltas.merge Deltas.merge_with Deltas.merge_nonce StorageDelta.validate
    StorageDelta.check_slots StorageDelta.merge_maps lookup miden_base.Base.Maps.insert
    miden_base.Base.Maps.extend NonFungibleDelta.apply_action FungibleDelta.add_delta
    miden_base.Base.Ints.checked_add_i64
both_ok = refl

merge-IsValid_example :
    IsValid both
    × (both.nonce ≡ some 4)
    × ((a b : Felt) → deposit.nonce ≡ some a → withdrawal.nonce ≡ some b → a < b)
merge-IsValid_example =
    merge-IsValid withdrawal deposit both (λ _. (4, refl, λ e. absurd (omega arith)))
      (λ _. (3, refl, λ e. absurd (omega arith))) both_ok

abbrev tracked : AccountDeltaTracker
tracked = record {
  storage = first_update;
  vault = record { fungible = gain; non_fungible = [] };
  init_nonce = 3;
  nonce_delta = 1;
}

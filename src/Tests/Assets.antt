-- ===== src/Tests/Assets.antt =====
-- The theorems on assets at concrete assets.
use miden_base.Base.{List, [], ◌∷◌, ◌<◌, ◌≡◌, ◌⊎◌, ◌≢◌, arith, ok, err}
use miden_base.Errors.{amount_too_big, inconsistent_faucet_ids}
use miden_base.Assets.Data.{FungibleAsset, non_fungible}
use miden_base.Assets.Fungible as FungibleOps
use miden_base.Assets.Fungible.Laws.{add_outcome, sub_conserves}
use miden_base.Assets.TokenSymbol as TokenSymbols
use miden_base.Assets.TokenSymbol.{Char, TokenSymbol}
use miden_base.Assets.TokenSymbol.Laws.{IsSymbol, to_str-new}
use miden_base.Assets.Whole as Wholes
use miden_base.Assets.Whole.Laws.{try_from_word-to_word}
use miden_base.Tests.Values.{
  goldilocks, coin_faucet, coins, painting, coins-IsValid, painting-IsValid,
}

add_outcome_example :
    ((c : FungibleAsset) × (FungibleOps.add (coins 30) (coins 12) ≡ ok c)
      × FungibleOps.Laws.IsValid c
      × (coin_faucet ≡ coin_faucet)
      × (c.faucet_id ≡ coin_faucet)
      × (c.amount ≡ 42))
    ⊎ ((coin_faucet ≢ coin_faucet)
        × (FungibleOps.add (coins 30) (coins 12)
            ≡ err (inconsistent_faucet_ids coin_faucet coin_faucet)))
    ⊎ ((FungibleOps.max_amount < 42)
        × (FungibleOps.add (coins 30) (coins 12) ≡ err (amount_too_big 42)))
add_outcome_example =
    add_outcome (coins 30) (coins 12) (coins-IsValid 30 (omega arith))
      (coins-IsValid 12 (omega arith))

try_from_word-to_word_example :
    Wholes.try_from_word (Wholes.to_word (non_fungible painting)) ≡ ok (non_fungible painting)
try_from_word-to_word_example = try_from_word-to_word (non_fungible painting) painting-IsValid

-- The characters of `POL`.
abbrev pol : List Char
pol = 80 ∷ 79 ∷ 76 ∷ []

pol-IsSymbol : IsSymbol pol
pol-IsSymbol = (
  ((omega arith, omega arith), ((omega arith, omega arith), ((omega arith, omega arith), tt))),
  omega arith,
  omega arith,
)

to_str-new_example :
    (symbol : TokenSymbol) × (TokenSymbols.new ⦃F = goldilocks⦄ pol ≡ ok symbol)
    × (TokenSymbols.try_from_felt symbol ≡ ok symbol)
    × (TokenSymbols.to_str symbol ≡ ok (65 ∷ 65 ∷ 65 ∷ pol))
to_str-new_example = to_str-new ⦃F = goldilocks⦄ pol pol-IsSymbol

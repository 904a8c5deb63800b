-- ===== src/Assets/Data.antt =====
-- The asset types: objects/src/assets.
use miden_base.Base.Words.{Felt, Word}
use miden_base.Base.{ℕ}

-- `AccountId(Felt)`.
abbrev pub AccountId : Type 0
AccountId = Felt

pub record FungibleAsset : Type 0 where
  pub faucet_id : AccountId
  pub amount : ℕ

-- `NonFungibleAsset(Word)`.
pub record NonFungibleAsset : Type 0 where
  pub word : Word

pub data Asset : Type 0 where
  fungible : FungibleAsset → Asset
  non_fungible : NonFungibleAsset → Asset

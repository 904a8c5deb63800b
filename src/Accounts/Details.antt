-- ===== src/Accounts/Details.antt =====
-- `AccountUpdateDetails`: objects/src/accounts/delta/mod.rs.
pub mod Laws
use miden_base.Base.{Result, ok, err, panic}
use miden_base.Base.Words.{Field, Digest}
use miden_base.Base.Trees.{Smt}
use miden_base.Base.Maps.{Key}
use miden_base.Errors.{AccountError, AccountDeltaError, incompatible_account_updates}
use miden_base.Assets.Data.{NonFungibleAsset}
use miden_base.Delta.Account as Deltas
use miden_base.Accounts.Account as Accounts

pub data AccountUpdateDetails (Tree : Type 0) : Type 0 where
  private : AccountUpdateDetails Tree
  new : Accounts.Account Tree → AccountUpdateDetails Tree
  delta : Deltas.AccountDelta → AccountUpdateDetails Tree

module _ ⦃F : Field⦄ ⦃S : Smt⦄ ⦃D : Key Digest⦄ ⦃N : Key NonFungibleAsset⦄ where
  -- The outcome of applying a delta to a new account, every error being the same one.
  abbrev pub with_account :
      Result AccountError (Unit {0}) × Accounts.Account S.Tree
      → Result AccountDeltaError (AccountUpdateDetails S.Tree)
  with_account (ok _, account) = ok (new account)
  with_account (err _, _) = err incompatible_account_updates
  with_account (panic, _) = panic

  abbrev pub with_delta :
      Result AccountDeltaError (Unit {0}) × Deltas.AccountDelta
      → Result AccountDeltaError (AccountUpdateDetails S.Tree)
  with_delta (ok _, merged) = ok (delta merged)
  with_delta (err e, _) = err e
  with_delta (panic, _) = panic

  unfoldable pub merge :
      AccountUpdateDetails S.Tree
      → AccountUpdateDetails S.Tree
      → Result AccountDeltaError (AccountUpdateDetails S.Tree)
  unfolding Accounts.apply_delta Deltas.merge
  merge private private = ok private
  merge (new account) (delta update) = with_account (Accounts.apply_delta update account)
  merge (delta earlier) (delta later) = with_delta (Deltas.merge later earlier)
  merge _ _ = err incompatible_account_updates

-- ===== src/Accounts/Details/Laws.antt =====
-- What holds of update details: objects/src/accounts/delta/mod.rs.
use miden_base.Base.{◌≡◌, refl, ap, subst, Result, ok, err, panic}
use miden_base.Base.Words.{Field, Digest}
use miden_base.Base.Trees.{Smt}
use miden_base.Base.Maps.{Key}
use miden_base.Errors.{AccountError, AccountDeltaError}
use miden_base.Assets.Data.{NonFungibleAsset}
use miden_base.Delta.Account as Deltas
use miden_base.Accounts.Account as Accounts
use miden_base.Accounts.Details.{
  AccountUpdateDetails, private, new, delta, with_account, with_delta, merge,
}

module _ ⦃F : Field⦄ ⦃S : Smt⦄ ⦃D : Key Digest⦄ ⦃N : Key NonFungibleAsset⦄ where
  -- The updates that a merge can give, by what it merges.
  abbrev pub Merges :
      AccountUpdateDetails S.Tree
      → AccountUpdateDetails S.Tree
      → AccountUpdateDetails S.Tree
      → Type 0
  Merges private private m = m ≡ private
  Merges (new a) (delta d) m =
      (b : Accounts.Account S.Tree) × (m ≡ new b)
      × (Accounts.apply_delta d a ≡ (ok tt, b))
      × Accounts.Laws.Keeps a b
  Merges (delta d) (delta e) m =
      (f : Deltas.AccountDelta) × (m ≡ delta f) × (Deltas.merge e d ≡ (ok tt, f))
  Merges _ _ m = ⊥

  with_account-ok :
      (p : Result AccountError (Unit {0}) × Accounts.Account S.Tree)
      (m : AccountUpdateDetails S.Tree)
      → with_account p ≡ ok m
      → (b : Accounts.Account S.Tree) × (m ≡ new b) × (p ≡ (ok tt, b))
  with_account-ok (ok tt, b) m h = (b, cc, refl)
  with_account-ok (err e, b) m h = absurd (cc)
  with_account-ok (panic, b) m h = absurd (cc)

  with_delta-ok :
      (p : Result AccountDeltaError (Unit {0}) × Deltas.AccountDelta)
      (m : AccountUpdateDetails S.Tree)
      → with_delta p ≡ ok m
      → (b : Deltas.AccountDelta) × (m ≡ delta b) × (p ≡ (ok tt, b))
  with_delta-ok (ok tt, b) m h = (b, cc, refl)
  with_delta-ok (err e, b) m h = absurd (cc)
  with_delta-ok (panic, b) m h = absurd (cc)

  -- Two updates merge only if both are private, or the later one is a delta for a new account or
  -- for another delta. The result is private, the new account after the delta, with its ID and
  -- code and a nonce that is not smaller, or the merged delta.
  merge-Merges : (x y m : AccountUpdateDetails S.Tree) → merge x y ≡ ok m → Merges x y m
  unfolding merge
  merge-Merges private private m h = cc
  merge-Merges private (new b) m h = absurd (cc)
  merge-Merges private (delta e) m h = absurd (cc)
  merge-Merges (new a) private m h = absurd (cc)
  merge-Merges (new a) (new b) m h = absurd (cc)
  merge-Merges (new a) (delta d) m h =
      let (b, e, applied) = with_account-ok (Accounts.apply_delta d a) m h in
      (
        b,
        e,
        applied,
        subst (λ p. Accounts.Laws.Keeps a p) (ap (λ p. p.1) applied)
            (Accounts.Laws.apply_delta-Keeps d a),
      )
  merge-Merges (delta d) private m h = absurd (cc)
  merge-Merges (delta d) (new b) m h = absurd (cc)
  merge-Merges (delta d) (delta e) m h = with_delta-ok (Deltas.merge e d) m h

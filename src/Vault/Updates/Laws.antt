-- ===== src/Vault/Updates/Laws.antt =====
-- What `AssetVault::apply_delta` does to the holdings: objects/src/assets/vault.rs.
use miden_base.Base.{
  ℕ, ◌+◌, ◌≡◌, refl, sym, ap, subst, ◌∙◌, inl, inr, [], ◌∷◌, arith, ◌==◌, if◌then◌else◌, Result, ok,
  err, panic, then_do, then_do-eq-ok, All,
}
use miden_base.Base.Ints.{ℤ, pos, negsuc, ◌+ℤ◌, unsigned_abs, add_zero_ℤ}
use miden_base.Base.Maps.{nat_key}
use miden_base.Base.Maps.Sorted.{Sorted, lookup-Above}
use miden_base.Base.Words.{Field}
use miden_base.Base.Trees.{Smt}
use miden_base.Errors.{AssetError, AssetVaultError}
use miden_base.Accounts.Id.{account_id_from_felt}
use miden_base.Assets.Data.{AccountId, FungibleAsset, NonFungibleAsset, Asset, fungible}
use miden_base.Assets.Fungible as FungibleOps
use miden_base.Assets.NonFungible as NonFungibleOps
use miden_base.Delta.Fungible.{FungibleAssetDelta}
use miden_base.Delta.Fungible.Laws.{change, regroup, change-cons, absent_change, change-nil}
use miden_base.Vault.Entries.{IsVault, balance}
use miden_base.Vault.NonFungible.{owns}
use miden_base.Vault.Holdings.{SetsBalance, Added, Removed}
use miden_base.Vault.Holdings.Refines.{add_asset-Added, remove_asset-Removed}
use miden_base.Vault.{add_fungible_asset, remove_fungible_asset, add_asset, remove_asset}
use miden_base.Vault.Updates.{change_by, apply_fungible}

-- A method that wraps the result of another one: its outcome and its object.
pub wrap-ok {ℓ} :
    {A B S E : Type ℓ} (p : Result E A × S) (f : A → B) (a : A)
    → p.0 ≡ ok a
    → then_do p (λ x s. (ok (f x), s)) ≡ (ok (f a), p.1)
wrap-ok (ok b, s) f a h = ground arith
wrap-ok (err e, s) f a h = absurd (cc)
wrap-ok (panic, s) f a h = absurd (cc)

module _ ⦃F : Field⦄ ⦃S : Smt⦄ where
  open S use {Tree, get_value}

  -- What a change of one balance leaves.
  record Changes (id : AccountId) (d : ℤ) (t u : Tree) : Type 0 where
    kept : IsVault u
    shifted :
        (j : AccountId)
        → pos (balance u j) ≡ (if id == j then pos (balance t id) +ℤ d else pos (balance t j))
    owned : (n : NonFungibleAsset) → NonFungibleOps.Laws.IsValid n → owns u n ≡ owns t n

  sets→Changes :
      (id : AccountId) (d : ℤ) (t u : Tree) (b : ℕ)
      → IsVault u
      → SetsBalance t u id b
      → pos b ≡ pos (balance t id) +ℤ d
      → Changes id d t u
  sets→Changes id d t u b v sets e = record {
    kept = v;
    shifted = λ j. ground (arith, sets.balances j);
    owned = sets.owned;
  }

  Added-ok :
      (a : FungibleAsset) (t : Tree) (p : Result AssetVaultError Asset × Tree) (b : Asset)
      → Added (fungible a) t p
      → p.0 ≡ ok b
      → Changes a.faucet_id (pos a.amount) t p.1
  unfolding ◌+ℤ◌
  Added-ok a t p b (v, inl (_, _, sets)) h = sets→Changes _ _ t p.1 _ v sets (ground arith)
  Added-ok a t p b (v, inr (_, (e, failed), _)) h = absurd (cc)

  Removed-ok :
      (a : FungibleAsset) (t : Tree) (p : Result AssetVaultError Asset × Tree) (b : Asset) (n : ℕ)
      → a.amount ≡ n + 1
      → Removed (fungible a) t p
      → p.0 ≡ ok b
      → Changes a.faucet_id (negsuc n) t p.1
  unfolding ◌+ℤ◌
  Removed-ok a t p b n e (v, inl (covered, _, sets)) h =
      sets→Changes _ _ t p.1 _ v sets (ground arith)
  Removed-ok a t p b n e (v, inr ((e', failed), _, _)) h = absurd (cc)

  new-IsValid :
      (id : AccountId) (n : ℕ) (a : FungibleAsset)
      → account_id_from_felt id ≡ ok id
      → FungibleOps.new id n ≡ ok a
      → (a ≡ record { faucet_id = id; amount = n }) × FungibleOps.Laws.IsValid a
  new-IsValid id n a valid h =
      let (e, faucet, bounded) = (FungibleOps.Laws.new_accepts id n a).0 h in
      (
        e,
        subst FungibleOps.Laws.IsValid (sym e)
            (record { id_valid = valid; of_faucet = faucet; bounded = bounded }),
      )

  change_by-Changes :
      (id : AccountId) (d : ℤ) (t : Tree) (r : Result AssetError FungibleAsset) (b : FungibleAsset)
      → IsVault t
      → account_id_from_felt id ≡ ok id
      → FungibleOps.new id (unsigned_abs d) ≡ r
      → (change_by d r t).0 ≡ ok b
      → Changes id d t (change_by d r t).1
  unfolding add_asset remove_asset
  change_by-Changes id (pos n) t (ok a) b v valid made h =
      let (e, va) = new-IsValid id _ a valid made in
      let wrapped = wrap-ok (add_fungible_asset a t) fungible b h in
      let outcome = add_asset-Added t (fungible a) v va in
      let changes =
        Added-ok a t (ok (fungible b), (add_fungible_asset a t).1) (fungible b)
          (subst (Added (fungible a) t) wrapped outcome) refl in
      subst (λ (x : FungibleAsset). Changes x.faucet_id (pos x.amount) t (add_fungible_asset a t).1)
        (e ∙ ap (λ k. record { faucet_id = id; amount = k }) (omega arith)) changes
  change_by-Changes id (negsuc n) t (ok a) b v valid made h =
      let (e, va) = new-IsValid id _ a valid made in
      let wrapped = wrap-ok (remove_fungible_asset a t) fungible b h in
      let outcome = remove_asset-Removed t (fungible a) v va in
      let changes =
        Removed-ok a t (ok (fungible b), (remove_fungible_asset a t).1) (fungible b) n
          (ap (λ (x : FungibleAsset). x.amount) e ∙ omega arith)
          (subst (Removed (fungible a) t) wrapped outcome) refl in
      subst (λ (x : FungibleAsset). Changes x.faucet_id (negsuc n) t (remove_fungible_asset a t).1)
        e changes
  change_by-Changes id d t (err e) b v valid made h = absurd (cc)
  change_by-Changes id d t panic b v valid made h = absurd (cc)

  -- The faucets of the list are valid account IDs.
  abbrev pub ValidIds : FungibleAssetDelta → Type 0
  ValidIds deltas = All (λ (e : AccountId × ℤ). account_id_from_felt e.0 ≡ ok e.0) deltas

  -- The loop over the fungible assets shifts every balance by its change.
  pub apply_fungible-shifts :
      (deltas : FungibleAssetDelta) (t u : Tree)
      → IsVault t
      → ValidIds deltas
      → Sorted deltas
      → apply_fungible deltas t ≡ (ok tt, u)
      → IsVault u
        × ((j : AccountId) → pos (balance u j) ≡ pos (balance t j) +ℤ change deltas j)
        × ((n : NonFungibleAsset) → NonFungibleOps.Laws.IsValid n → owns u n ≡ owns t n)
  unfolding apply_fungible
  apply_fungible-shifts [] t u v ids s h =
      let e : t ≡ u = ap (λ p. p.1) h in
      subst
        (λ w.
          IsVault w
          × ((j : AccountId) → pos (balance w j) ≡ pos (balance t j) +ℤ change [] j)
          × ((n : NonFungibleAsset) → NonFungibleOps.Laws.IsValid n → owns w n ≡ owns t n))
        e (v, λ j. rw (change-nil j) (sym (add_zero_ℤ (pos (balance t j)))), λ n _. refl)
  apply_fungible-shifts ((id, d) ∷ deltas) t u v ids s h =
      let (b, first, rest) =
        then_do-eq-ok (change_by d (FungibleOps.new id (unsigned_abs d)) t) _ h in
      let one = change_by-Changes id d t _ b v ids.0 refl first in
      let (kept, shifted, owned) = apply_fungible-shifts deltas _ u one.kept ids.1 s.1 rest in
      let absent = absent_change id deltas (lookup-Above id deltas s.0 s.1) in
      (
        kept,
        λ j.
            shifted j
            ∙ (regroup
                  (λ k. pos (balance (change_by d (FungibleOps.new id (unsigned_abs d)) t).1 k))
                  (λ k. pos (balance t k)) (change deltas) id j d (one.shifted j) absent
                ∙ ap (λ (c : ℤ). pos (balance t j) +ℤ c) (sym (change-cons id d deltas j))),
        λ n vn. owned n vn ∙ one.owned n vn,
      )

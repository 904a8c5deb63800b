-- ===== src/Delta/NonFungible/Laws.antt =====
-- What holds of non-fungible asset deltas: objects/src/accounts/delta/vault.rs.
use miden_base.Base.{
  ◌≡◌, refl, sym, ap, subst, ◌∙◌, ◌⊎◌, inl, inr, true, false, Option, none, some, [], ◌∷◌, arith,
  Bool-cases, Option-cases, Result, ok, err, then_do-eq-ok,
}
use miden_base.Base.Maps.{Key, lookup, insert, remove, lookup-insert, lookup-remove}
use miden_base.Base.Maps.Sorted.{Sorted, lookup-Above}
use miden_base.Errors.{AccountDeltaError, duplicate_non_fungible_vault_update}
use miden_base.Assets.Data.{NonFungibleAsset}
use miden_base.Delta.NonFungible.{
  NonFungibleDeltaAction, add_action, remove_action, action_eq, NonFungibleAssetDelta, apply_action,
  merge,
}

-- Two actions on one asset, one after the other: the second alone, if there was none before;
-- nothing, if they are opposite. Equal actions do not combine.
abbrev pub Combines :
    Option NonFungibleDeltaAction
    → Option NonFungibleDeltaAction
    → Option NonFungibleDeltaAction
    → Type 0
Combines p none r = r ≡ p
Combines none (some a) r = r ≡ some a
Combines (some p) (some a) r = (action_eq p a ≡ false) × (r ≡ none)

action_eq→eq : (a b : NonFungibleDeltaAction) → action_eq a b ≡ true → a ≡ b
action_eq→eq add_action add_action h = refl
action_eq→eq remove_action remove_action h = refl
action_eq→eq add_action remove_action h = absurd (cc)
action_eq→eq remove_action add_action h = absurd (cc)

module _ ⦃K : Key NonFungibleAsset⦄ where
  beq_refl : (a : NonFungibleAsset) → K.beq a a ≡ true
  beq_refl a = (K.beq_iff a a).1 refl

  -- What an action does: it combines with what is recorded for the asset and leaves the other
  -- assets; or the same one is recorded already, and it fails and leaves the delta.
  abbrev pub Acts :
      NonFungibleAsset
      → NonFungibleDeltaAction
      → NonFungibleAssetDelta
      → Result AccountDeltaError (Unit {0}) × NonFungibleAssetDelta
      → Type 0
  Acts asset action m (r, m') =
      ((r ≡ ok tt)
        × Combines (lookup asset m) (some action) (lookup asset m')
        × ((j : NonFungibleAsset) → K.beq asset j ≡ false → lookup j m' ≡ lookup j m))
      ⊎ ((lookup asset m ≡ some action)
          × (r ≡ err (duplicate_non_fungible_vault_update asset))
          × (m' ≡ m))

  -- One action succeeds unless the same one is recorded already.
  pub apply_action_lem :
      (asset : NonFungibleAsset) (action : NonFungibleDeltaAction) (m : NonFungibleAssetDelta)
      → Acts asset action m (apply_action asset action m)
  unfolding apply_action
  apply_action_lem asset action m = elim (Option-cases (lookup asset m)) [
    | inl absent ↦
        let e : apply_action asset action m ≡ (ok tt, insert asset action m) = ground arith in
        subst (Acts asset action m) (sym e) (
          inl (
            refl,
            subst (λ o. Combines o (some action) (lookup asset (insert asset action m)))
                (sym absent) (lookup-insert asset asset action m ∙ rw (beq_refl asset) refl),
            λ j other. lookup-insert asset j action m ∙ rw other refl,
          ))
    | inr (previous, there) ↦ elim (Bool-cases (action_eq previous action)) [
      | inl same ↦
          inr (there ∙ ap some (action_eq→eq previous action same), ground arith, ground arith)
      | inr opposite ↦
          let e : apply_action asset action m ≡ (ok tt, remove asset m) = ground arith in
          subst (Acts asset action m) (sym e) (
            inl (
              refl,
              subst (λ o. Combines o (some action) (lookup asset (remove asset m))) (sym there)
                  (opposite, lookup-remove asset asset m ∙ rw (beq_refl asset) refl),
              λ j other. lookup-remove asset j m ∙ rw other refl,
            ))
    ]
  ]

  apply_action_ok :
      (asset : NonFungibleAsset) (action : NonFungibleDeltaAction) (m : NonFungibleAssetDelta)
      → (apply_action asset action m).0 ≡ ok tt
      → Combines (lookup asset m) (some action) (lookup asset (apply_action asset action m).1)
        × ((j : NonFungibleAsset)
            → K.beq asset j ≡ false
            → lookup j (apply_action asset action m).1 ≡ lookup j m)
  apply_action_ok asset action m h = elim (apply_action_lem asset action m) [
    | inl (_, here, others) ↦ (here, others)
    | inr (_, failed, _) ↦ absurd (cc)
  ]

  lookup_here :
      (i : NonFungibleAsset) (a : NonFungibleDeltaAction) (m : NonFungibleAssetDelta)
      (j : NonFungibleAsset)
      → K.beq i j ≡ true
      → lookup j ((i, a) ∷ m) ≡ some a
  unfolding lookup
  lookup_here i a m j h = rw h refl

  lookup_there :
      (i : NonFungibleAsset) (a : NonFungibleDeltaAction) (m : NonFungibleAssetDelta)
      (j : NonFungibleAsset)
      → K.beq i j ≡ false
      → lookup j ((i, a) ∷ m) ≡ lookup j m
  unfolding lookup
  lookup_there i a m j h = rw h refl

  -- After a merge, without an error, of a delta with its keys in order, the actions on every asset
  -- are combined: the second alone if there was no first, nothing if they are opposite.
  pub merge-Combines :
      (other self m : NonFungibleAssetDelta)
      → Sorted other
      → merge other self ≡ (ok tt, m)
      → (j : NonFungibleAsset) → Combines (lookup j self) (lookup j other) (lookup j m)
  unfolding merge lookup
  merge-Combines [] self m s h j = ap (λ p. lookup j p.1) (sym h)
  merge-Combines ((asset, action) ∷ other) self m s h j =
      let (_, first, rest) = then_do-eq-ok (apply_action asset action self) _ h in
      let p = apply_action asset action self in
      let later = merge-Combines other p.1 m s.1 rest j in
      let one = apply_action_ok asset action self first in
      elim (Bool-cases (K.beq asset j)) [
        | inl same ↦
            let e = (K.beq_iff asset j).0 same in
            let absent = subst (λ k. lookup k other ≡ none) e (lookup-Above asset other s.0 s.1) in
            let kept : lookup j m ≡ lookup j p.1 =
              subst (λ o. Combines (lookup j p.1) o (lookup j m)) absent later in
            subst (λ o. Combines (lookup j self) o (lookup j m))
              (sym (lookup_here asset action other j same))
              (subst (Combines (lookup j self) (some action)) (sym kept)
                (subst (λ k. Combines (lookup k self) (some action) (lookup k p.1)) e one.0))
        | inr differ ↦
            subst (λ o. Combines (lookup j self) o (lookup j m))
              (sym (lookup_there asset action other j differ))
              (subst (λ o. Combines o (lookup j other) (lookup j m)) (one.1 j differ) later)
      ]

-- ===== src/Accounts/Account/WellFormed.antt =====
-- The deltas that an account takes, and that a merge gives: objects/src/accounts/delta.
use miden_base.Base.{
  ℕ, ◌≡◌, subst, inl, inr, [], ◌∷◌, Bool-cases, Option-cases, ok, then_do-eq-ok, All,
}
use miden_base.Base.Ints.{ℤ, is_zero, checked_add_i64}
use miden_base.Base.Words.{Digest}
use miden_base.Base.Maps.{Map, Key, nat_key, lookup, insert}
use miden_base.Base.Maps.Sorted.{Sorted, insert-Sorted, remove-Sorted, extend-Sorted}
use miden_base.Base.Maps.Entries.{All-insert, All-remove, lookup-All}
use miden_base.Accounts.Id.{account_id_from_felt}
use miden_base.Assets.Data.{AccountId, NonFungibleAsset}
use miden_base.Assets.NonFungible as NonFungibleOps
use miden_base.Delta.Fungible as FungibleDelta
use miden_base.Delta.Fungible.{FungibleAssetDelta, add_delta}
use miden_base.Delta.Fungible.Laws.{add_delta-Sorted}
use miden_base.Delta.NonFungible as NonFungibleDelta
use miden_base.Delta.NonFungible.{
  NonFungibleDeltaAction, NonFungibleAssetDelta, action_eq, apply_action,
}
use miden_base.Delta.Storage as StorageDelta
use miden_base.Delta.Storage.{StorageMapDelta, merge_maps, merge_map}
use miden_base.Delta.Storage.Laws.{AllSorted}
use miden_base.Delta.Account.{AccountDelta, merge}
use miden_base.Delta.Account.Parts.{merge-parts}

-- The faucets of the list are valid account IDs.
abbrev pub ValidFaucets : FungibleAssetDelta → Type 0
ValidFaucets deltas = All (λ (e : AccountId × ℤ). account_id_from_felt e.0 ≡ ok e.0) deltas

-- An asset of the list, whatever is done with it, is a valid one.
abbrev pub ValidAssets : NonFungibleAssetDelta → Type 0
ValidAssets deltas =
    All (λ (e : NonFungibleAsset × NonFungibleDeltaAction). NonFungibleOps.Laws.IsValid e.0) deltas

add_delta_ids :
    (id : AccountId) (d : ℤ) (m : FungibleAssetDelta)
    → account_id_from_felt id ≡ ok id
    → ValidFaucets m
    → ValidFaucets (add_delta id d m).1
unfolding add_delta
add_delta_ids id d m v ids = elim (Option-cases (lookup id m)) [
  | inl absent ↦ rw (absent, add_delta) (All-insert _ id d m v ids)
  | inr (old, there) ↦ elim (Option-cases (checked_add_i64 old d)) [
    | inl over ↦ rw (there, add_delta, over) ids
    | inr (total, fits) ↦ elim (Bool-cases (is_zero total)) [
      | inl nothing ↦ rw (there, add_delta, fits, nothing) (All-remove _ id m ids)
      | inr something ↦ rw (there, add_delta, fits, something) (All-insert _ id total m v ids)
    ]
  ]
]

fungible_merge :
    (other self m : FungibleAssetDelta)
    → ValidFaucets other
    → ValidFaucets self
    → Sorted self
    → FungibleDelta.merge other self ≡ (ok tt, m)
    → ValidFaucets m × Sorted m
unfolding FungibleDelta.merge
fungible_merge [] self m vo v s h = subst (λ p. ValidFaucets p.1 × Sorted p.1) h (v, s)
fungible_merge ((id, d) ∷ other) self m vo v s h =
    let (_, _, rest) = then_do-eq-ok (add_delta id d self) _ h in
    fungible_merge other (add_delta id d self).1 m vo.1 (add_delta_ids id d self vo.0 v)
      (add_delta-Sorted id d self s) rest

module _ ⦃N : Key NonFungibleAsset⦄ where
  apply_action_keeps :
      (asset : NonFungibleAsset) (action : NonFungibleDeltaAction) (m : NonFungibleAssetDelta)
      → NonFungibleOps.Laws.IsValid asset
      → ValidAssets m
      → Sorted m
      → ValidAssets (apply_action asset action m).1 × Sorted (apply_action asset action m).1
  unfolding apply_action
  apply_action_keeps asset action m v valid s = elim (Option-cases (lookup asset m)) [
    | inl absent ↦
        rw (absent, apply_action)
          (All-insert _ asset action m v valid, insert-Sorted asset action m s)
    | inr (previous, there) ↦ elim (Bool-cases (action_eq previous action)) [
      | inl same ↦ rw (there, apply_action, same) (valid, s)
      | inr opposite ↦
          rw (there, apply_action, opposite) (All-remove _ asset m valid, remove-Sorted asset m s)
    ]
  ]

  non_fungible_merge :
      (other self m : NonFungibleAssetDelta)
      → ValidAssets other
      → ValidAssets self
      → Sorted self
      → NonFungibleDelta.merge other self ≡ (ok tt, m)
      → ValidAssets m × Sorted m
  unfolding NonFungibleDelta.merge
  non_fungible_merge [] self m vo v s h = subst (λ p. ValidAssets p.1 × Sorted p.1) h (v, s)
  non_fungible_merge ((asset, action) ∷ other) self m vo v s h =
      let (_, _, rest) = then_do-eq-ok (apply_action asset action self) _ h in
      let (valid, sorted) = apply_action_keeps asset action self vo.0 v s in
      non_fungible_merge other (apply_action asset action self).1 m vo.1 valid sorted rest

module _ ⦃D : Key Digest⦄ where
  merge_maps-AllSorted :
      (maps other : Map ℕ StorageMapDelta)
      → AllSorted maps
      → All (λ (e : ℕ × StorageMapDelta). Sorted e.1) other
      → AllSorted (merge_maps maps other)
  unfolding merge_maps merge_map
  merge_maps-AllSorted maps [] s each = s
  merge_maps-AllSorted maps ((slot, update) ∷ other) (s, sorted) each =
      elim (Option-cases (lookup slot maps)) [
        | inl absent ↦ rw absent (
            merge_maps-AllSorted (insert slot update maps) other
              (insert-Sorted slot update maps s, All-insert _ slot update maps each.0 sorted)
              each.1)
        | inr (old, there) ↦ rw there (
            merge_maps-AllSorted (insert slot (merge_map old update) maps) other
              (
                insert-Sorted slot (merge_map old update) maps s,
                All-insert _ slot (merge_map old update) maps
                    (extend-Sorted old update (lookup-All Sorted maps slot old sorted there))
                    sorted,
              )
              each.1)
      ]

  module _ ⦃N : Key NonFungibleAsset⦄ where
    -- The maps of a delta are in key order, and its faucets and assets are valid.
    pub record IsWellFormed (delta : AccountDelta) : Type 0 where
      pub faucets : ValidFaucets delta.vault.fungible
      pub fungible : Sorted delta.vault.fungible
      pub assets : ValidAssets delta.vault.non_fungible
      pub non_fungible : Sorted delta.vault.non_fungible
      pub values : Sorted delta.storage.values
      pub maps : AllSorted delta.storage.maps

    pub merge-IsWellFormed :
        (other self m : AccountDelta)
        → IsWellFormed other
        → IsWellFormed self
        → merge other self ≡ (ok tt, m)
        → IsWellFormed m
    unfolding StorageDelta.merge
    merge-IsWellFormed other self m wo w h =
        let (storage, non_fungible, fungible, _) = merge-parts other self m h in
        let (faucets, sorted) =
          fungible_merge other.vault.fungible self.vault.fungible m.vault.fungible wo.faucets
            w.faucets w.fungible fungible in
        let (assets, sorted') =
          non_fungible_merge other.vault.non_fungible self.vault.non_fungible m.vault.non_fungible
            wo.assets w.assets w.non_fungible non_fungible in
        record {
          faucets = faucets;
          fungible = sorted;
          assets = assets;
          non_fungible = sorted';
          values =
              subst (λ p. Sorted p.1.values) storage
                (extend-Sorted self.storage.values other.storage.values w.values);
          maps =
              subst (λ p. AllSorted p.1.maps) storage
                (merge_maps-AllSorted self.storage.maps other.storage.maps w.maps wo.maps.1);
        }

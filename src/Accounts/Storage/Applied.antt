-- ===== src/Accounts/Storage/Applied.antt =====
-- An account's storage after a delta: objects/src/accounts/storage/mod.rs.
use miden_base.Base.{
  ℕ, ◌≡◌, refl, ap, subst, ◌∙◌, inl, inr, none, some, [], ◌∷◌, arith, Bool-cases, Option-cases,
  Result, ok, err, panic, then_do, then_do-eq-ok, then_do-ok, get_elem?, All,
}
use miden_base.Base.Words.{Word, Digest, word_eq_iff}
use miden_base.Base.Trees.{Smt}
use miden_base.Base.Maps.{Map, Key, nat_key, lookup}
use miden_base.Base.Maps.Sorted.{Sorted, lookup-Above}
use miden_base.Errors.{AccountError}
use miden_base.Delta.Storage.{StorageMapDelta, AccountStorageDelta}
use miden_base.Accounts.Storage.{
  value, map, StorageSlotType, value_type, map_type, AccountStorage, slot_type, set_item,
  apply_map_delta, apply_map, apply_maps, apply_values, apply_delta,
}
use miden_base.Accounts.Storage.Laws.{set_item_lem, get_elem?-some}
use miden_base.Accounts.Storage.Updates.{
  type_at, updated, replaced, set_item_types, apply_map_types, apply_maps_types, then_types,
  apply_maps-ok, apply_values-ok,
}

module _ ⦃S : Smt⦄ where
  apply_values_types :
      (values : Map ℕ Word) (s : AccountStorage) (j : ℕ)
      → type_at (apply_values values s).1 j ≡ type_at s j
  unfolding apply_values
  apply_values_types [] s j = refl
  apply_values_types ((i, w) ∷ values) s j =
      step (set_item i w s) (apply_values_types values (set_item i w s).1 j)
      ∙ set_item_types i w s j
    where
      step :
          (p : Result AccountError Word × AccountStorage)
          → type_at (apply_values values p.1).1 j ≡ type_at p.1 j
          → type_at (then_do p (λ _ u. apply_values values u)).1 j ≡ type_at p.1 j
      step (ok w, s) h = h
      step (err e, s) h = refl
      step (panic, s) h = refl

  -- Whatever the outcome of applying a storage delta, every index has a slot of the type that it
  -- had, and no slot where it had none.
  pub apply_delta_types :
      (d : AccountStorageDelta) (s : AccountStorage) (j : ℕ)
      → type_at (apply_delta d s).1 j ≡ type_at s j
  unfolding apply_delta
  apply_delta_types d s j =
      then_types (apply_maps d.maps s) _ j (apply_values_types d.values (apply_maps d.maps s).1 j)
      ∙ apply_maps_types d.maps s j

  -- After a storage delta with keys in order that is applied without an error, a slot with a new
  -- value has it, a map slot with updates has its tree updated by them, and every other slot is as
  -- it was.
  pub apply_delta_lem :
      (d : AccountStorageDelta) (s s' : AccountStorage)
      → Sorted d.values
      → Sorted d.maps
      → apply_delta d s ≡ (ok tt, s')
      → (j : ℕ)
      → get_elem? s' j ≡ replaced (lookup j d.values) (updated (lookup j d.maps) (get_elem? s j))
  unfolding apply_delta
  apply_delta_lem d s s' o q h j =
      let (_, first, rest) = then_do-eq-ok (apply_maps d.maps s) _ h in
      let s1 = (apply_maps d.maps s).1 in
      let e : apply_maps d.maps s ≡ (ok tt, s1) = ground arith in
      apply_values-ok d.values s1 s' o rest j
      ∙ ap (replaced (lookup j d.values)) (apply_maps-ok d.maps s s1 q e j)

  -- A map slot's items after an update.
  pub get_value-apply_map_delta :
      ⦃K : Key Digest⦄ (d : StorageMapDelta) (t : S.Tree)
      → Sorted d
      → (k : Digest)
      → S.get_value (apply_map_delta d t) k
        ≡ (elim (lookup k d) [ none ↦ S.get_value t k | some w ↦ w ])
  unfolding apply_map_delta lookup
  get_value-apply_map_delta [] t o k = refl
  get_value-apply_map_delta ⦃K⦄ ((i, w) ∷ d) t o k =
      get_value-apply_map_delta d (S.insert t i w).1 o.1 k ∙ (elim (Bool-cases (K.beq i k)) [
        | inl same ↦
            let absent =
              subst (λ j. lookup j d ≡ none) ((K.beq_iff i k).0 same) (lookup-Above i d o.0 o.1) in
            ground (arith, S.get_value-insert t i w k, K.beq_iff i k, word_eq_iff i k)
        | inr other ↦ ground (arith, S.get_value-insert t i w k, K.beq_iff i k, word_eq_iff i k)
      ])

  -- The types of the slots that a delta updates.
  abbrev pub Fits : AccountStorageDelta → AccountStorage → Type 0
  Fits d s =
      All (λ (e : ℕ × Word). type_at s e.0 ≡ some value_type) d.values
      × All (λ (e : ℕ × StorageMapDelta). type_at s e.0 ≡ some map_type) d.maps

  apply_map-succeeds :
      (i : ℕ) (d : StorageMapDelta) (s : AccountStorage)
      → type_at s i ≡ some map_type
      → (apply_map i d s).0 ≡ ok tt
  unfolding apply_map slot_type
  apply_map-succeeds i d s h = elim (Option-cases (get_elem? s i)) [
    | inl absent ↦ absurd (ground arith)
    | inr (value v, there) ↦ absurd (ground arith)
    | inr (map t, there) ↦ ground arith
  ]

  All-types {ℓ} :
      {V : Type ℓ} (es : Map ℕ V) (s u : AccountStorage) (type : StorageSlotType)
      → ((j : ℕ) → type_at u j ≡ type_at s j)
      → All (λ (e : ℕ × V). type_at s e.0 ≡ some type) es
      → All (λ (e : ℕ × V). type_at u e.0 ≡ some type) es
  All-types [] s u type h a = tt
  All-types ((i, v) ∷ es) s u type h (a, rest) = (h i ∙ a, All-types es s u type h rest)

  maps_succeed :
      (maps : Map ℕ StorageMapDelta) (s : AccountStorage)
      → All (λ (e : ℕ × StorageMapDelta). type_at s e.0 ≡ some map_type) maps
      → (apply_maps maps s).0 ≡ ok tt
  unfolding apply_maps
  maps_succeed [] s h = refl
  maps_succeed ((i, d) ∷ maps) s (h, hs) =
      ap (λ p. p.0) (then_do-ok (apply_map i d s) _ (apply_map-succeeds i d s h))
      ∙ maps_succeed maps (apply_map i d s).1
          (All-types maps s _ map_type (apply_map_types i d s) hs)

  set_item-succeeds :
      (i : ℕ) (w : Word) (s : AccountStorage)
      → type_at s i ≡ some value_type
      → (old : Word) × ((set_item i w s).0 ≡ ok old)
  unfolding slot_type
  set_item-succeeds i w s h = elim (set_item_lem i w s) [
    | inl (old, _, done, _) ↦ (old, done)
    | inr (inl (t, there, _, _)) ↦ absurd (ground arith)
    | inr (inr (far, _, _)) ↦ elim (Option-cases (get_elem? s i)) [
      | inl absent ↦ absurd (ground arith)
      | inr (slot, there) ↦ absurd (omega (arith, get_elem?-some s i slot there))
    ]
  ]

  values_succeed :
      (values : Map ℕ Word) (s : AccountStorage)
      → All (λ (e : ℕ × Word). type_at s e.0 ≡ some value_type) values
      → (apply_values values s).0 ≡ ok tt
  unfolding apply_values
  values_succeed [] s h = refl
  values_succeed ((i, w) ∷ values) s (h, hs) =
      let (old, done) = set_item-succeeds i w s h in
      ap (λ p. p.0) (then_do-ok (set_item i w s) _ done)
      ∙ values_succeed values (set_item i w s).1
          (All-types values s _ value_type (set_item_types i w s) hs)

  -- A storage delta whose updates are for slots of the right type is applied without an error.
  pub apply_delta-succeeds :
      (d : AccountStorageDelta) (s : AccountStorage) → Fits d s → (apply_delta d s).0 ≡ ok tt
  unfolding apply_delta
  apply_delta-succeeds d s (v, m) =
      ap (λ p. p.0) (then_do-ok (apply_maps d.maps s) _ (maps_succeed d.maps s m))
      ∙ values_succeed d.values _ (All-types d.values s _ value_type (apply_maps_types d.maps s) v)

-- ===== src/Accounts/Storage/Updates.antt =====
-- What `AccountStorage::apply_delta` does: objects/src/accounts/storage/mod.rs.
use miden_base.Base.{
  ℕ, ◌≡◌, refl, sym, ap, subst, ◌∙◌, inl, inr, Option, none, some, [], ◌∷◌, arith, ◌==◌, ==_iff,
  if◌then◌else◌, Bool-cases, Option-cases, Result, ok, err, panic, then_do, then_do-eq-ok,
  get_elem?,
}
use miden_base.Base.Words.{Word}
use miden_base.Base.Trees.{Smt}
use miden_base.Base.Maps.{Map, nat_key, lookup}
use miden_base.Base.Maps.Sorted.{Sorted, lookup-Above}
use miden_base.Errors.{AccountError}
use miden_base.Delta.Storage.{StorageMapDelta}
use miden_base.Accounts.Storage.{
  StorageSlot, value, map, StorageSlotType, AccountStorage, slot_type, set_item, apply_map_delta,
  apply_map, apply_maps, apply_values,
}
use miden_base.Accounts.Storage.Laws.{set_item_lem, get_elem?-set}

module _ ⦃S : Smt⦄ where
  -- The type of the slot at an index.
  abbrev pub type_at : AccountStorage → ℕ → Option StorageSlotType
  type_at s i = elim (get_elem? s i) [ none ↦ none | some slot ↦ some (slot_type slot) ]

  pub set_item_types :
      (i : ℕ) (w : Word) (s : AccountStorage) (j : ℕ) → type_at (set_item i w s).1 j ≡ type_at s j
  unfolding slot_type
  set_item_types i w s j = elim (set_item_lem i w s) [
    | inl (old, there, _, written) ↦ ground (arith, written j, ==_iff i j)
    | inr (inl (_, _, _, same)) ↦ ap (λ u. type_at u j) same
    | inr (inr (_, _, same)) ↦ ap (λ u. type_at u j) same
  ]

  pub apply_map_types :
      (i : ℕ) (d : StorageMapDelta) (s : AccountStorage) (j : ℕ)
      → type_at (apply_map i d s).1 j ≡ type_at s j
  unfolding apply_map slot_type
  apply_map_types i d s j = elim (Option-cases (get_elem? s i)) [
    | inl absent ↦ ground arith
    | inr (value v, there) ↦ ground arith
    | inr (map t, there) ↦
        ground (arith, get_elem?-set s i (map t) (map (apply_map_delta d t)) j there, ==_iff i j)
  ]

  -- A map slot after an update of its items.
  abbrev pub update_slot : StorageMapDelta → StorageSlot S.Tree → StorageSlot S.Tree
  update_slot d (map t) = map (apply_map_delta d t)
  update_slot d (value w) = value w

  abbrev pub updated :
      Option StorageMapDelta → Option (StorageSlot S.Tree) → Option (StorageSlot S.Tree)
  updated none slot = slot
  updated (some d) none = none
  updated (some d) (some slot) = some (update_slot d slot)

  abbrev pub replaced : Option Word → Option (StorageSlot S.Tree) → Option (StorageSlot S.Tree)
  replaced none slot = slot
  replaced (some w) slot = some (value w)

  -- No method of an update changes the type of a slot, whatever the outcome.
  pub then_types :
      (p : Result AccountError (Unit {0}) × AccountStorage)
      (f : Unit {0} → AccountStorage → Result AccountError (Unit {0}) × AccountStorage) (j : ℕ)
      → (type_at (f tt p.1).1 j ≡ type_at p.1 j)
      → type_at (then_do p f).1 j ≡ type_at p.1 j
  then_types (ok tt, s) f j h = h
  then_types (err e, s) f j h = refl
  then_types (panic, s) f j h = refl

  pub apply_maps_types :
      (maps : Map ℕ StorageMapDelta) (s : AccountStorage) (j : ℕ)
      → type_at (apply_maps maps s).1 j ≡ type_at s j
  unfolding apply_maps
  apply_maps_types [] s j = refl
  apply_maps_types ((i, d) ∷ maps) s j =
      then_types (apply_map i d s) _ j (apply_maps_types maps (apply_map i d s).1 j)
      ∙ apply_map_types i d s j

  apply_map-ok :
      (i : ℕ) (d : StorageMapDelta) (s : AccountStorage)
      → (apply_map i d s).0 ≡ ok tt
      → (j : ℕ)
      → get_elem? (apply_map i d s).1 j ≡ updated (if i == j then some d else none) (get_elem? s j)
  unfolding apply_map
  apply_map-ok i d s h j = elim (Option-cases (get_elem? s i)) [
    | inl absent ↦ absurd (ground arith)
    | inr (value v, there) ↦ absurd (ground arith)
    | inr (map t, there) ↦
        let later = get_elem?-set s i (map t) (map (apply_map_delta d t)) j there in
        elim (Bool-cases (i == j)) [
          | inl same ↦
              let here = subst (λ k. get_elem? s k ≡ some (map t)) ((==_iff i j).0 same) there in
              ground arith
          | inr other ↦ ground arith
        ]
  ]

  pub lookup-head {ℓ} :
      {V : Type ℓ} (i : ℕ) (v : V) (m : Map ℕ V) (j : ℕ)
      → lookup j ((i, v) ∷ m) ≡ (if i == j then some v else lookup j m)
  unfolding lookup
  lookup-head i v m j = refl

  pub lookup-empty {ℓ} : {V : Type ℓ} (j : ℕ) → lookup {V = V} j [] ≡ none
  unfolding lookup
  lookup-empty j = refl

  pub apply_maps-ok :
      (maps : Map ℕ StorageMapDelta) (s s' : AccountStorage)
      → Sorted maps
      → apply_maps maps s ≡ (ok tt, s')
      → (j : ℕ) → get_elem? s' j ≡ updated (lookup j maps) (get_elem? s j)
  unfolding apply_maps
  apply_maps-ok [] s s' o h j =
      ap (λ p. get_elem? p.1 j) (sym h) ∙ ap (λ d. updated d (get_elem? s j)) (sym (lookup-empty j))
  apply_maps-ok ((i, d) ∷ maps) s s' o h j =
      let (_, first, rest) = then_do-eq-ok (apply_map i d s) _ h in
      let later = apply_maps-ok maps (apply_map i d s).1 s' o.1 rest j in
      let one = apply_map-ok i d s first j in
      let head = lookup-head i d maps j in
      elim (Bool-cases (i == j)) [
        | inl same ↦
            let absent =
              subst (λ k. lookup k maps ≡ none) ((==_iff i j).0 same)
                (lookup-Above i maps o.0 o.1) in
            ground arith
        | inr other ↦ ground arith
      ]

  set_item-ok :
      (i : ℕ) (w : Word) (s : AccountStorage) (old : Word)
      → (set_item i w s).0 ≡ ok old
      → (j : ℕ)
      → get_elem? (set_item i w s).1 j ≡ replaced (if i == j then some w else none) (get_elem? s j)
  set_item-ok i w s old h j = elim (set_item_lem i w s) [
    | inl (_, _, _, written) ↦ ground (arith, written j)
    | inr (inl (_, _, failed, _)) ↦ absurd (cc)
    | inr (inr (_, failed, _)) ↦ absurd (cc)
  ]

  pub apply_values-ok :
      (values : Map ℕ Word) (s s' : AccountStorage)
      → Sorted values
      → apply_values values s ≡ (ok tt, s')
      → (j : ℕ) → get_elem? s' j ≡ replaced (lookup j values) (get_elem? s j)
  unfolding apply_values
  apply_values-ok [] s s' o h j =
      ap (λ p. get_elem? p.1 j) (sym h)
      ∙ ap (λ d. replaced d (get_elem? s j)) (sym (lookup-empty j))
  apply_values-ok ((i, w) ∷ values) s s' o h j =
      let (old, first, rest) = then_do-eq-ok (set_item i w s) _ h in
      let later = apply_values-ok values (set_item i w s).1 s' o.1 rest j in
      let one = set_item-ok i w s old first j in
      let head = lookup-head i w values j in
      elim (Bool-cases (i == j)) [
        | inl same ↦
            let absent =
              subst (λ k. lookup k values ≡ none) ((==_iff i j).0 same)
                (lookup-Above i values o.0 o.1) in
            ground arith
        | inr other ↦ ground arith
      ]

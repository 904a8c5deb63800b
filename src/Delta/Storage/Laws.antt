-- ===== src/Delta/Storage/Laws.antt =====
-- What holds of storage deltas: objects/src/accounts/delta/storage.rs.
use miden_base.Base.{
  ℕ, ◌≡◌, refl, sym, ap, subst, ◌∙◌, ◌↔◌, ◌⊎◌, inl, inr, ◌&&◌, Option, none, some, [], ◌∷◌, arith,
  ◌==◌, ==_iff, if◌then◌else◌, Bool-cases, Option-cases, ok, All,
}
use miden_base.Base.Words.{Word, Digest}
use miden_base.Base.Maps.{Map, Key, nat_key, lookup, insert, extend, update_or, lookup-insert}
use miden_base.Base.Maps.Sorted.{Sorted, or_none, lookup-Above, lookup-extend}
use miden_base.Delta.Storage.{
  StorageMapDelta, AccountStorageDelta, check_slots, validate, set_map_item, merge_map, merge_maps,
  merge,
}

-- No slot is updated both as a value and as a map.
abbrev pub IsDisjoint : Map ℕ Word → Map ℕ StorageMapDelta → Type 0
IsDisjoint values maps = (slot : ℕ) → (lookup slot values ≡ none) ⊎ (lookup slot maps ≡ none)

lookup-cons {ℓ} :
    {V : Type ℓ} (i : ℕ) (v : V) (m : Map ℕ V) (j : ℕ)
    → lookup j ((i, v) ∷ m) ≡ (if i == j then some v else lookup j m)
unfolding lookup
lookup-cons i v m j = refl

lookup-nil {ℓ} : {V : Type ℓ} (j : ℕ) → lookup {V = V} j [] ≡ none
unfolding lookup
lookup-nil j = refl

check_slots→IsDisjoint :
    (values : Map ℕ Word) (maps : Map ℕ StorageMapDelta)
    → check_slots values maps ≡ ok tt
    → IsDisjoint values maps
unfolding check_slots
check_slots→IsDisjoint values [] h slot = inr (lookup-nil slot)
check_slots→IsDisjoint values ((i, m) ∷ maps) h slot = elim (Option-cases (lookup i values)) [
  | inr (w, there) ↦ absurd (ground arith)
  | inl absent ↦ elim (Bool-cases (i == slot)) [
    | inl same ↦ inl (subst (λ k. lookup k values ≡ none) ((==_iff i slot).0 same) absent)
    | inr other ↦ elim (check_slots→IsDisjoint values maps (ground arith) slot) [
      | inl no_value ↦ inl no_value
      | inr no_map ↦ inr (lookup-cons i m maps slot ∙ rw other no_map)
    ]
  ]
]

IsDisjoint-cons :
    (values : Map ℕ Word) (i : ℕ) (m : StorageMapDelta) (maps : Map ℕ StorageMapDelta)
    → IsDisjoint values ((i, m) ∷ maps)
    → (lookup i values ≡ none) × IsDisjoint values maps
unfolding lookup
IsDisjoint-cons values i m maps h = (first, others)
  where
    first : lookup i values ≡ none
    first = elim (h i) [ inl e ↦ e | inr e ↦ absurd (ground (arith, ==_iff i i)) ]

    others : IsDisjoint values maps
    others slot = elim (h slot) [
      | inl e ↦ inl e
      | inr e ↦ elim (Bool-cases (i == slot)) [
        | inl same ↦ absurd (ground arith)
        | inr other ↦ inr (ground arith)
      ]
    ]

-- `validate` accepts exactly the deltas in which no slot is updated both as a value and as a map.
validate_iff :
    (self : AccountStorageDelta) → (validate self ≡ ok tt) ↔ IsDisjoint self.values self.maps
unfolding validate check_slots
validate_iff self = (check_slots→IsDisjoint self.values self.maps, accepts self.values self.maps)
  where
    accepts :
        (values : Map ℕ Word) (maps : Map ℕ StorageMapDelta)
        → IsDisjoint values maps
        → check_slots values maps ≡ ok tt
    accepts values [] h = refl
    accepts values ((i, m) ∷ maps) h =
        let (first, others) = IsDisjoint-cons values i m maps h in
        let rest = accepts values maps others in ground arith

module _ ⦃K : Key Digest⦄ where
  -- The update of one item of a map slot.
  abbrev pub item_of : Option StorageMapDelta → Digest → Option Word
  item_of none key = none
  item_of (some m) key = lookup key m

  abbrev pub map_item : Map ℕ StorageMapDelta → ℕ → Digest → Option Word
  map_item maps slot key = item_of (lookup slot maps) key

  -- Every map of the list is in key order.
  abbrev pub AllSorted : Map ℕ StorageMapDelta → Type 0
  AllSorted maps = Sorted maps × All (λ (e : ℕ × StorageMapDelta). Sorted e.1) maps

  -- One step of the loop of `merge` over the other delta's maps.
  abbrev merge_slot : ℕ → StorageMapDelta → Map ℕ StorageMapDelta → Map ℕ StorageMapDelta
  merge_slot slot update maps = elim (lookup slot maps) [
    | none ↦ insert slot update maps
    | some old ↦ insert slot (merge_map old update) maps
  ]

  map_item-merge_slot :
      (i : ℕ) (u : StorageMapDelta) (maps : Map ℕ StorageMapDelta) (slot : ℕ) (key : Digest)
      → Sorted u
      → map_item (merge_slot i u maps) slot key ≡ (
          if i == slot
          then or_none (lookup key u) (map_item maps slot key)
          else map_item maps slot key)
  unfolding merge_map
  map_item-merge_slot i u maps slot key s = elim (Option-cases (lookup i maps)) [
    | inl absent ↦ ground (arith, lookup-insert i slot u maps, ==_iff i slot)
    | inr (old, there) ↦
        ground (
          arith,
          lookup-insert i slot (extend old u) maps,
          lookup-extend key old u s,
          ==_iff i slot,
        )
  ]

  map_item-merge_maps :
      (maps other : Map ℕ StorageMapDelta) (slot : ℕ) (key : Digest)
      → AllSorted other
      → map_item (merge_maps maps other) slot key
        ≡ or_none (map_item other slot key) (map_item maps slot key)
  unfolding merge_maps
  map_item-merge_maps maps [] slot key s =
      ap (λ o. or_none (item_of o key) (map_item maps slot key)) (sym (lookup-nil slot))
  map_item-merge_maps maps ((i, u) ∷ other) slot key (s, each) =
      map_item-merge_maps (merge_slot i u maps) other slot key (s.1, each.1)
      ∙ (rw (map_item-merge_slot i u maps slot key each.0, lookup-cons i u other slot) step)
    where
      step :
          or_none (map_item other slot key) (
            if i == slot
            then or_none (lookup key u) (map_item maps slot key)
            else map_item maps slot key)
          ≡ or_none
              (item_of (if i == slot then some u else lookup slot other) key)
              (map_item maps slot key)
      step = elim (Bool-cases (i == slot)) [
        | inl same ↦
            let absent =
              subst (λ k. lookup k other ≡ none) ((==_iff i slot).0 same)
                (lookup-Above i other s.0 s.1) in
            ground arith
        | inr differ ↦ ground arith
      ]

  lookup-none : (k : Digest) → lookup {V = Word} k [] ≡ none
  unfolding lookup
  lookup-none k = refl

  -- After a merge an update of the other delta hides the one of this delta, for values and for the
  -- items of maps, where the other delta has its keys in order. If the merge succeeds, no slot is
  -- updated both as a value and as a map.
  pub merge_overrides :
      (other self : AccountStorageDelta)
      → Sorted other.values
      → AllSorted other.maps
      → ((slot : ℕ)
          → lookup slot (merge other self).1.values
            ≡ or_none (lookup slot other.values) (lookup slot self.values))
        × ((slot : ℕ) (key : Digest)
            → map_item (merge other self).1.maps slot key
              ≡ or_none (map_item other.maps slot key) (map_item self.maps slot key))
        × ((merge other self).0 ≡ ok tt
            → IsDisjoint (merge other self).1.values (merge other self).1.maps)
  unfolding merge validate
  merge_overrides other self s t = (
    λ slot. lookup-extend slot self.values other.values s,
    λ slot key. map_item-merge_maps self.maps other.maps slot key t,
    λ h. check_slots→IsDisjoint _ _ h,
  )

  -- After `set_map_item` the item has the new value and no other item has changed.
  delta_set_map_item_lem :
      (slot : ℕ) (key : Digest) (w : Word) (self : AccountStorageDelta) (i : ℕ) (k : Digest)
      → map_item (set_map_item slot key w self).maps i k
        ≡ (if (slot == i) && K.beq key k then some w else map_item self.maps i k)
  unfolding set_map_item update_or
  delta_set_map_item_lem slot key w self i k = elim (Option-cases (lookup slot self.maps)) [
    | inl absent ↦ ground (
      arith,
      lookup-insert slot i (insert key w []) self.maps,
      lookup-insert key k w [],
      lookup-none k,
      ==_iff slot i,
    )
    | inr (m, there) ↦ ground (
      arith,
      lookup-insert slot i (insert key w m) self.maps,
      lookup-insert key k w m,
      ==_iff slot i,
    )
  ]

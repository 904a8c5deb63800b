-- ===== src/Accounts/Storage/Items.antt =====
-- What is read of an account's storage after a delta: objects/src/accounts/storage/mod.rs.
use miden_base.Base.{ℕ, ◌≡◌, refl, sym, ap, ◌∙◌, Option, none, some, arith, ok, get_elem?}
use miden_base.Base.Words.{Word, Digest}
use miden_base.Base.Trees.{Smt}
use miden_base.Base.Maps.{Key, nat_key, lookup}
use miden_base.Base.Maps.Sorted.{Sorted}
use miden_base.Base.Maps.Entries.{lookup-All}
use miden_base.Delta.Storage.{StorageMapDelta, AccountStorageDelta}
use miden_base.Delta.Storage.Laws.{item_of, map_item, AllSorted}
use miden_base.Accounts.Storage.{StorageSlot, value, map, AccountStorage, slot_type, apply_delta}
use miden_base.Accounts.Storage.Updates.{type_at, updated, replaced}
use miden_base.Accounts.Storage.Applied.{
  apply_delta_lem, apply_delta_types, get_value-apply_map_delta,
}

-- A word that is there becomes the new one, if there is a new one.
abbrev pub overwrite : Option Word → Option Word → Option Word
overwrite new none = none
overwrite none (some old) = some old
overwrite (some new) (some old) = some new

overwrite-none : (o : Option Word) → overwrite none o ≡ o
overwrite-none none = refl
overwrite-none (some w) = refl

overwrite-some :
    (o : Option Word) (w : Word)
    → some (elim o [ none ↦ w | some new ↦ new ]) ≡ overwrite o (some w)
overwrite-some none w = refl
overwrite-some (some new) w = refl

module _ ⦃S : Smt⦄ where
  abbrev pub value_of : Option (StorageSlot S.Tree) → Option Word
  value_of none = none
  value_of (some (value w)) = some w
  value_of (some (map t)) = none

  abbrev pub entry_of : Digest → Option (StorageSlot S.Tree) → Option Word
  entry_of key none = none
  entry_of key (some (value w)) = none
  entry_of key (some (map t)) = some (S.get_value t key)

  -- The word in a value slot, and the word under a key in a map slot.
  abbrev pub value_at : AccountStorage → ℕ → Option Word
  value_at s j = value_of (get_elem? s j)

  abbrev pub entry_at : AccountStorage → ℕ → Digest → Option Word
  entry_at s j key = entry_of key (get_elem? s j)

  -- The slot after an update, by the slot before, where its type has stayed.
  value_of_lem :
      (new : Option Word) (d : Option StorageMapDelta) (before after : Option (StorageSlot S.Tree))
      → after ≡ replaced new (updated d before)
      → (elim after [ none ↦ none | some slot ↦ some (slot_type slot) ])
        ≡ (elim before [ none ↦ none | some slot ↦ some (slot_type slot) ])
      → value_of after ≡ overwrite new (value_of before)
  unfolding slot_type
  value_of_lem none none before after e same =
      ap value_of e ∙ sym (overwrite-none (value_of before))
  value_of_lem none (some d) none after e same = ap value_of e
  value_of_lem none (some d) (some (value w)) after e same = ap value_of e
  value_of_lem none (some d) (some (map t)) after e same = ap value_of e
  value_of_lem (some w) d none after e same = absurd (ground arith)
  value_of_lem (some w) d (some (value v)) after e same = ap value_of e
  value_of_lem (some w) d (some (map t)) after e same = absurd (ground arith)

  entry_of_lem :
      ⦃K : Key Digest⦄ (key : Digest) (new : Option Word) (d : Option StorageMapDelta)
      (before after : Option (StorageSlot S.Tree))
      → ((m : StorageMapDelta) → d ≡ some m → Sorted m)
      → after ≡ replaced new (updated d before)
      → (elim after [ none ↦ none | some slot ↦ some (slot_type slot) ])
        ≡ (elim before [ none ↦ none | some slot ↦ some (slot_type slot) ])
      → entry_of key after ≡ overwrite (item_of d key) (entry_of key before)
  unfolding slot_type
  entry_of_lem key none none before after s e same =
      ap (entry_of key) e ∙ sym (overwrite-none (entry_of key before))
  entry_of_lem key none (some d) none after s e same = ap (entry_of key) e
  entry_of_lem key none (some d) (some (value w)) after s e same = ap (entry_of key) e
  entry_of_lem key none (some d) (some (map t)) after s e same =
      ap (entry_of key) e
      ∙ (ap some (get_value-apply_map_delta d t (s d refl) key)
          ∙ overwrite-some (lookup key d) (S.get_value t key))
  entry_of_lem key (some w) d none after s e same = absurd (ground arith)
  entry_of_lem key (some w) d (some (value v)) after s e same = ap (entry_of key) e
  entry_of_lem key (some w) d (some (map t)) after s e same = absurd (ground arith)

  -- After a storage delta with keys in order that is applied without an error, every value slot has
  -- its new value, if the delta has one, and every item of a map slot its new word.
  pub values-apply_delta :
      (d : AccountStorageDelta) (s s' : AccountStorage)
      → Sorted d.values
      → Sorted d.maps
      → apply_delta d s ≡ (ok tt, s')
      → (j : ℕ) → value_at s' j ≡ overwrite (lookup j d.values) (value_at s j)
  values-apply_delta d s s' sv sm h j =
      value_of_lem (lookup j d.values) (lookup j d.maps) (get_elem? s j) (get_elem? s' j)
        (apply_delta_lem d s s' sv sm h j)
        (ap (λ p. type_at p.1 j) (sym h) ∙ apply_delta_types d s j)

  pub entries-apply_delta :
      ⦃K : Key Digest⦄ (d : AccountStorageDelta) (s s' : AccountStorage)
      → Sorted d.values
      → AllSorted d.maps
      → apply_delta d s ≡ (ok tt, s')
      → (j : ℕ) (key : Digest)
      → entry_at s' j key ≡ overwrite (map_item d.maps j key) (entry_at s j key)
  entries-apply_delta d s s' sv (sm, each) h j key =
      entry_of_lem key (lookup j d.values) (lookup j d.maps) (get_elem? s j) (get_elem? s' j)
        (λ m there. lookup-All Sorted d.maps j m each there) (apply_delta_lem d s s' sv sm h j)
        (ap (λ p. type_at p.1 j) (sym h) ∙ apply_delta_types d s j)

-- ===== src/Delta/Storage.antt =====
-- `AccountStorageDelta` and `StorageMapDelta`: objects/src/accounts/delta/storage.rs. The order of
-- digests is an instance argument.
pub mod Laws
use miden_base.Base.{
  ℕ, Bool, true, false, ◌&&◌, Option, none, some, List, [], ◌∷◌, if◌then◌else◌, Result, ok, err,
  panic, fail_if, Method, ◌>>=◌,
}
use miden_base.Base.Words.{Word, Digest, empty_word, word_eq}
use miden_base.Base.Maps.{Map, Key, nat_key, lookup, insert, extend, update_or}
use miden_base.Errors.{AccountDeltaError, duplicate_storage_item_update}

-- `StorageMapDelta(BTreeMap<Digest, Word>)`
abbrev pub StorageMapDelta : Type 0
StorageMapDelta = Map Digest Word

-- The keys are slot indices, `u8`.
pub record AccountStorageDelta : Type 0 where
  pub values : Map ℕ Word
  pub maps : Map ℕ StorageMapDelta

abbrev pub is_empty_map {ℓ} : {A : Type ℓ} → List A → Bool
is_empty_map [] = true
is_empty_map (_ ∷ _) = false

abbrev contains_key : Map ℕ Word → ℕ → Bool
contains_key m k = elim (lookup k m) [ none ↦ false | some _ ↦ true ]

-- The loop of `validate` over the slots that maps are updated in.
unfoldable pub check_slots :
    Map ℕ Word → Map ℕ StorageMapDelta → Result AccountDeltaError (Unit {0})
check_slots values [] = ok tt
check_slots values ((slot, _) ∷ maps) =
    let rest = check_slots values maps in
    fail_if (contains_key values slot) (duplicate_storage_item_update slot) rest

unfoldable pub validate : AccountStorageDelta → Result AccountDeltaError (Unit {0})
validate self = check_slots self.values self.maps

-- `AccountStorageDelta::new`
unfoldable pub new :
    Map ℕ Word → Map ℕ StorageMapDelta → Result AccountDeltaError AccountStorageDelta
new values maps =
    let result : AccountStorageDelta = record { values = values; maps = maps } in
    do _ ← validate result; ok result

unfoldable pub is_empty : AccountStorageDelta → Bool
is_empty self = is_empty_map self.values && is_empty_map self.maps

unfoldable pub set_item : ℕ → Word → AccountStorageDelta → AccountStorageDelta
set_item slot_index new_slot_value self = record self {
  values = insert slot_index new_slot_value self.values;
}

-- `cleared_slots` and `updated_slots`.
unfoldable pub cleared_slots : Map ℕ Word → List ℕ
cleared_slots [] = []
cleared_slots ((slot, value) ∷ values) =
    let rest = cleared_slots values in if word_eq value empty_word then slot ∷ rest else rest

unfoldable pub updated_slots : Map ℕ Word → Map ℕ Word
updated_slots [] = []
updated_slots ((slot, value) ∷ values) =
    let rest = updated_slots values in
    if word_eq value empty_word then rest else (slot, value) ∷ rest

module _ ⦃K : Key Digest⦄ where
  unfoldable pub set_map_item : ℕ → Digest → Word → AccountStorageDelta → AccountStorageDelta
  set_map_item slot_index key new_value self = record self {
    maps = update_or [] slot_index (insert key new_value) self.maps;
  }

  -- `StorageMapDelta::merge`
  unfoldable pub merge_map : StorageMapDelta → StorageMapDelta → StorageMapDelta
  merge_map self other = extend self other

  -- The loop of `merge` over the maps of the other delta.
  unfoldable pub merge_maps : Map ℕ StorageMapDelta → Map ℕ StorageMapDelta → Map ℕ StorageMapDelta
  merge_maps maps [] = maps
  merge_maps maps ((slot, update) ∷ other) =
      merge_maps
        (elim (lookup slot maps) [
          | none ↦ insert slot update maps
          | some old ↦ insert slot (merge_map old update) maps
        ])
        other

  -- The delta is changed first and then validated.
  unfoldable pub merge :
      AccountStorageDelta → Method AccountStorageDelta AccountDeltaError (Unit {0})
  merge other self =
      let self' : AccountStorageDelta = record {
        values = extend self.values other.values;
        maps = merge_maps self.maps other.maps;
      } in
      (validate self', self')

-- ===== src/Accounts/Storage.antt =====
-- `AccountStorage`, `StorageSlot` and `StorageMap`: objects/src/accounts/storage. The sparse Merkle
-- tree of a map slot is an interface.
pub mod Laws
pub mod Updates
pub mod Applied
pub mod Items
use miden_base.Base.{
  ℕ, ◌%◌, Bool, true, false, Option, none, some, List, [], ◌∷◌, ltb, leb, if◌then◌else◌, Result, ok,
  err, panic, fail_if, Method, then_do, length, get_elem?, set, ◌++◌,
}
use miden_base.Base.Words.{Word, Digest, Felt, empty_word, word_eq, word_elements}
use miden_base.Base.Trees.{Smt}
use miden_base.Base.Maps.{Map}
use miden_base.Errors.{
  AccountError, storage_slot_not_map, storage_slot_not_value, storage_index_out_of_bounds,
  storage_too_many_slots,
}
use miden_base.Accounts.Kinds.{AccountType, fungible_faucet, non_fungible_faucet}
use miden_base.Delta.Storage.{StorageMapDelta, AccountStorageDelta}

-- `StorageSlotType`, and `as_word`.
pub data StorageSlotType : Type 0 where
  value_type map_type : StorageSlotType

unfoldable pub type_word : StorageSlotType → Word
type_word value_type = empty_word
type_word map_type = record { e0 = 1; e1 = 0; e2 = 0; e3 = 0 }

pub data StorageSlot (T : Type 0) : Type 0 where
  value : Word → StorageSlot T
  map : T → StorageSlot T

-- `AccountStorage::MAX_NUM_STORAGE_SLOTS`
abbrev pub max_num_storage_slots : ℕ
max_num_storage_slots = 255

module _ ⦃S : Smt⦄ where
  -- `AccountStorage` is its `slots`.
  abbrev pub AccountStorage : Type 0
  AccountStorage = List (StorageSlot S.Tree)

  -- `StorageSlot::value`, `slot_type` and `as_elements`.
  unfoldable pub slot_value : StorageSlot S.Tree → Word
  slot_value (value w) = w
  slot_value (map t) = S.root t

  unfoldable pub slot_type : StorageSlot S.Tree → StorageSlotType
  slot_type (value w) = value_type
  slot_type (map t) = map_type

  unfoldable pub slot_elements : StorageSlot S.Tree → List Felt
  unfolding slot_value slot_type type_word
  slot_elements slot = word_elements (slot_value slot) ++ word_elements (type_word (slot_type slot))

  unfoldable pub slots_as_elements : AccountStorage → List Felt
  slots_as_elements [] = []
  slots_as_elements (slot ∷ slots) = slot_elements slot ++ slots_as_elements slots

  -- `AccountStorage::new`
  unfoldable pub new : List (StorageSlot S.Tree) → Result AccountError AccountStorage
  new slots =
      fail_if (ltb max_num_storage_slots (length slots)) (storage_too_many_slots (length slots))
        (ok slots)

  -- `from_components`, from the components' storage slots.
  abbrev reserved_slots : AccountType → List (StorageSlot S.Tree)
  reserved_slots fungible_faucet = value empty_word ∷ []
  reserved_slots non_fungible_faucet = map S.new ∷ []
  reserved_slots _ = []

  abbrev concat_slots : List (List (StorageSlot S.Tree)) → List (StorageSlot S.Tree)
  concat_slots [] = []
  concat_slots (slots ∷ components) = slots ++ concat_slots components

  unfoldable pub from_components :
      List (List (StorageSlot S.Tree)) → AccountType → Result AccountError AccountStorage
  unfolding new
  from_components components account_type =
      new (reserved_slots account_type ++ concat_slots components)

  -- The error names the number of slots as a `u8`.
  abbrev pub out_of_bounds : AccountStorage → ℕ → AccountError
  out_of_bounds self index = storage_index_out_of_bounds (length self % 256) index

  unfoldable pub get_item : AccountStorage → ℕ → Result AccountError Digest
  get_item self index = elim (get_elem? self index) [
    | none ↦ err (out_of_bounds self index)
    | some slot ↦ ok (slot_value slot)
  ]

  -- `get_map_item` by what is found in the slot.
  abbrev map_value : ℕ → Digest → StorageSlot S.Tree → Result AccountError Word
  map_value index key (map t) = ok (S.get_value t key)
  map_value index key (value w) = err (storage_slot_not_map index)

  unfoldable pub get_map_item : AccountStorage → ℕ → Digest → Result AccountError Word
  get_map_item self index key = elim (get_elem? self index) [
    | none ↦ err (out_of_bounds self index)
    | some slot ↦ map_value index key slot
  ]

  -- `set_item` by the slot at the index.
  abbrev replace_value : ℕ → Word → StorageSlot S.Tree → Method AccountStorage AccountError Word
  replace_value index new_value (value old) self = (ok old, set self index (value new_value))
  replace_value index new_value (map t) self = (err (storage_slot_not_value index), self)

  unfoldable pub set_item : ℕ → Word → Method AccountStorage AccountError Word
  set_item index new_value self =
      if leb (length self) index
      then (err (out_of_bounds self index), self)
      else elim (get_elem? self index) [
        | none ↦ (panic, self)
        | some slot ↦ replace_value index new_value slot self
      ]

  -- `set_map_item` by the slot at the index: the old root and the old value.
  abbrev replace_map_value :
      ℕ → Digest → Word → StorageSlot S.Tree → Method AccountStorage AccountError (Word × Word)
  replace_map_value index key new_value (map t) self =
      let (old_value, t') = S.insert t key new_value in
      (ok (S.root t, old_value), set self index (map t'))
  replace_map_value index key new_value (value w) self = (err (storage_slot_not_map index), self)

  unfoldable pub set_map_item : ℕ → Digest → Word → Method AccountStorage AccountError (Word × Word)
  set_map_item index key new_value self =
      if leb (length self) index
      then (err (out_of_bounds self index), self)
      else elim (get_elem? self index) [
        | none ↦ (panic, self)
        | some slot ↦ replace_map_value index key new_value slot self
      ]

  -- `StorageMap::apply_delta`, by its tree.
  unfoldable pub apply_map_delta : StorageMapDelta → S.Tree → S.Tree
  apply_map_delta [] t = t
  apply_map_delta ((key, new_value) ∷ delta) t = apply_map_delta delta (S.insert t key new_value).1

  -- The two loops of `apply_delta`.
  abbrev update_map :
      ℕ → StorageMapDelta → StorageSlot S.Tree → Method AccountStorage AccountError (Unit {0})
  update_map index delta (map t) self = (ok tt, set self index (map (apply_map_delta delta t)))
  update_map index delta (value w) self = (err (storage_slot_not_map index), self)

  unfoldable pub apply_map : ℕ → StorageMapDelta → Method AccountStorage AccountError (Unit {0})
  apply_map index delta self = elim (get_elem? self index) [
    | none ↦ (err (out_of_bounds self index), self)
    | some slot ↦ update_map index delta slot self
  ]

  unfoldable pub apply_maps : Map ℕ StorageMapDelta → Method AccountStorage AccountError (Unit {0})
  apply_maps [] self = (ok tt, self)
  apply_maps ((index, delta) ∷ maps) self =
      then_do (apply_map index delta self) (λ _ self'. apply_maps maps self')

  unfoldable pub apply_values : Map ℕ Word → Method AccountStorage AccountError (Unit {0})
  apply_values [] self = (ok tt, self)
  apply_values ((index, new_value) ∷ values) self =
      then_do (set_item index new_value self) (λ _ self'. apply_values values self')

  unfoldable pub apply_delta : AccountStorageDelta → Method AccountStorage AccountError (Unit {0})
  apply_delta delta self =
      then_do (apply_maps delta.maps self) (λ _ self'. apply_values delta.values self')

  -- `AccountStorage::commitment`; the hash is a parameter.
  unfoldable pub commitment : (List Felt → Digest) → AccountStorage → Digest
  commitment hash_elements self = hash_elements (slots_as_elements self)

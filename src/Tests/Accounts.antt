-- ===== src/Tests/Accounts.antt =====
-- The theorems on accounts at concrete accounts.
use miden_base.Base.{
  ℕ, ◌%◌, ◌≤◌, ◌^◌, ◌≡◌, refl, ◌↔◌, true, some, List, [], ◌∷◌, ok, length, get_elem?,
}
use miden_base.Base.Maps.{lookup, nat_key}
use miden_base.Base.Words.{Word, Digest, Felt, empty_word}
use miden_base.Accounts.Kinds.{fungible_faucet, regular_account_updatable_code}
use miden_base.Accounts.Id as Ids
use miden_base.Accounts.Id.Laws.{account_id_from_felt_accepts, HasMode, id_new_proves_work}
use miden_base.Accounts.Storage as AccountStorage
use miden_base.Accounts.Storage.{StorageSlot, value, map}
use miden_base.Accounts.Storage.Updates.{type_at, updated, replaced}
use miden_base.Accounts.Storage.Applied.{apply_delta_lem, apply_delta-succeeds}
use miden_base.Accounts.Code as Codes
use miden_base.Accounts.Code.{AccountCode, Component}
use miden_base.Accounts.Code.Laws.{Procedures, from_components-IsCode}
use miden_base.Accounts.Account as Accounts
use miden_base.Accounts.Account.{Account}
use miden_base.Accounts.Account.Laws.{Keeps, apply_delta-Keeps}
use miden_base.Delta.Storage.{AccountStorageDelta}
use miden_base.Delta.Account.{AccountDelta}
use miden_base.Vault as Vaults
use miden_base.Tests.Values.{goldilocks, Entries, entries_smt, digest_key, asset_key, wallet}

account_id_from_felt_accepts_example :
    (Ids.account_id_from_felt wallet ≡ ok wallet)
    ↔ ((wallet ≡ wallet) × (5 ≤ Ids.count_ones wallet) × HasMode wallet)
account_id_from_felt_accepts_example = account_id_from_felt_accepts wallet wallet

-- A hash whose digest is that of a regular account, with enough zeros.
abbrev lucky_hash : List Felt → Digest
lucky_hash elements = record { e0 = wallet; e1 = 0; e2 = 0; e3 = 2 ^ 31 }

wallet_made : Ids.id_new lucky_hash empty_word empty_word empty_word ≡ ok wallet
unfolding Ids.id_new Ids.validate_seed_digest Ids.digest_pow Ids.zeros Ids.compute_digest
    Ids.is_regular_account miden_base.Accounts.Kinds.account_type_from_u64 Ids.account_id_from_felt
    Ids.ones
wallet_made = refl

id_new_proves_work_example :
    let digest = Ids.compute_digest lucky_hash empty_word empty_word empty_word in
    (wallet ≡ digest.e0)
    × (5 ≤ Ids.count_ones wallet)
    × HasMode wallet
    × (digest.e3 % 2 ^ 23 ≡ 0)
    × (Ids.is_faucet wallet ≡ true → digest.e3 % 2 ^ 31 ≡ 0)
id_new_proves_work_example =
    id_new_proves_work lucky_hash empty_word empty_word empty_word wallet wallet_made

abbrev word_of : ℕ → Word
word_of n = record empty_word { e0 = n }

-- A slot with a value, and one with a map.
abbrev slots : List (StorageSlot Entries)
slots = value (word_of 9) ∷ map ((word_of 1, word_of 2) ∷ []) ∷ []

abbrev update : AccountStorageDelta
update = record { values = (0, word_of 4) ∷ []; maps = (1, (word_of 1, word_of 5) ∷ []) ∷ [] }

abbrev slots_after : List (StorageSlot Entries)
slots_after = (AccountStorage.apply_delta update slots).1

update_ok : AccountStorage.apply_delta update slots ≡ (ok tt, slots_after)
unfolding AccountStorage.apply_delta AccountStorage.apply_maps AccountStorage.apply_map
    AccountStorage.apply_values AccountStorage.set_item
update_ok = refl

apply_delta_lem_example :
    get_elem? slots_after 0
    ≡ replaced (lookup 0 update.values) (updated (lookup 0 update.maps) (get_elem? slots 0))
apply_delta_lem_example = apply_delta_lem update slots slots_after (tt, tt) (tt, tt) update_ok 0

fits_0 : type_at slots 0 ≡ some AccountStorage.value_type
unfolding AccountStorage.slot_type
fits_0 = refl

fits_1 : type_at slots 1 ≡ some AccountStorage.map_type
unfolding AccountStorage.slot_type
fits_1 = refl

apply_delta-succeeds_example : (AccountStorage.apply_delta update slots).0 ≡ ok tt
apply_delta-succeeds_example = apply_delta-succeeds update slots ((fits_0, tt), (fits_1, tt))

abbrev parts : List Component
parts = record { storage_size = 2; modules = (word_of 11 ∷ word_of 12 ∷ []) ∷ [] } ∷ []

abbrev code : AccountCode
code = record {
  commitment = lucky_hash [];
  procedures =
      record { mast_root = word_of 11; storage_offset = 0; storage_size = 2 }
      ∷ record { mast_root = word_of 12; storage_offset = 0; storage_size = 2 }
      ∷ [];
}

code_built : Codes.from_components lucky_hash parts regular_account_updatable_code ≡ ok code
unfolding Codes.from_components Codes.add_components Codes.add_modules Codes.add_procedures
    Codes.add_procedure
code_built = refl

from_components-IsCode_example :
    Procedures code.procedures
    × (1 ≤ length code.procedures)
    × (length code.procedures ≤ Codes.max_num_procedures)
from_components-IsCode_example =
    from_components-IsCode lucky_hash parts regular_account_updatable_code code code_built

abbrev account : Account Entries
account = record { id = wallet; vault = []; storage = slots; code = code; nonce = 3 }

abbrev delta : AccountDelta
delta = record {
  storage = update;
  vault = record { fungible = []; non_fungible = [] };
  nonce = some 4;
}

abbrev account_after : Account Entries
account_after = (Accounts.apply_delta delta account).1

delta_ok : Accounts.apply_delta delta account ≡ (ok tt, account_after)
unfolding Accounts.apply_delta miden_base.Vault.Updates.apply_fungible
    miden_base.Vault.Updates.apply_non_fungible AccountStorage.apply_maps AccountStorage.apply_map
    AccountStorage.apply_values AccountStorage.set_item
delta_ok = refl

apply_delta-Keeps_example : Keeps account (Accounts.apply_delta delta account).1
apply_delta-Keeps_example = apply_delta-Keeps delta account

-- ===== src/Accounts/Code.antt =====
-- `AccountProcedureInfo` and `AccountCode`: objects/src/accounts/code. The MAST forest of the code
-- belongs to the assembler's crates and is left out; a component's library stands here as the
-- digests of its procedures, by module.
pub mod Laws
use miden_base.Base.{
  ℕ, suc, ◌+◌, ◌≤◌, ◌^◌, Bool, true, false, not, ◌&&◌, ◌||◌, Option, none, some, List, [], ◌∷◌,
  ◌++◌, ltb, leb, ◌==◌, if◌then◌else◌, Result, ok, err, panic, fail_if, ok_or, ◌>>=◌, length, any,
}
use miden_base.Base.Words.{Word, Digest, Felt, word_eq, word_elements}
use miden_base.Errors.{
  AccountError, account_code_procedure_invalid_storage_offset,
  account_code_procedure_invalid_storage_size, account_code_procedure_invalid_padding,
  storage_offset_out_of_bounds, pure_procedure_with_storage_offset, account_code_merge_error,
  account_code_no_procedures, account_code_too_many_procedures,
}
use miden_base.Accounts.Kinds.{AccountType, type_is_faucet}
use miden_base.Accounts.Storage.{max_num_storage_slots}

pub record AccountProcedureInfo : Type 0 where
  pub mast_root : Digest
  pub storage_offset : ℕ
  pub storage_size : ℕ

-- `AccountProcedureInfo::new`; the sum is a `u8`.
unfoldable pub procedure_new : Digest → ℕ → ℕ → Result AccountError AccountProcedureInfo
procedure_new mast_root storage_offset storage_size =
    fail_if ((storage_size == 0) && not (storage_offset == 0)) pure_procedure_with_storage_offset (
      fail_if (leb (2 ^ 8) (storage_offset + storage_size))
        (storage_offset_out_of_bounds max_num_storage_slots (storage_offset + storage_size))
        (ok (record {
          mast_root = mast_root;
          storage_offset = storage_offset;
          storage_size = storage_size;
        })))

-- `From<AccountProcedureInfo> for [Felt; 8]`, as the two words of the array.
unfoldable pub procedure_to_elements : AccountProcedureInfo → Word × Word
procedure_to_elements value =
    (value.mast_root, record { e0 = value.storage_offset; e1 = value.storage_size; e2 = 0; e3 = 0 })

-- `TryFrom<Felt> for u8`
abbrev as_u8 : Felt → Option ℕ
as_u8 value = if ltb value (2 ^ 8) then some value else none

-- `TryFrom<[Felt; 8]> for AccountProcedureInfo`
unfoldable pub procedure_try_from_elements : Word × Word → Result AccountError AccountProcedureInfo
procedure_try_from_elements (mast_root, value) = do
  storage_offset ← ok_or (as_u8 value.e0) account_code_procedure_invalid_storage_offset
  storage_size ← ok_or (as_u8 value.e1) account_code_procedure_invalid_storage_size
  fail_if (not (value.e2 == 0) || not (value.e3 == 0)) account_code_procedure_invalid_padding (
      ok (record {
        mast_root = mast_root;
        storage_offset = storage_offset;
        storage_size = storage_size;
      }))

-- `AccountCode`, without the MAST forest.
pub record AccountCode : Type 0 where
  pub commitment : Digest
  pub procedures : List AccountProcedureInfo

abbrev pub max_num_procedures : ℕ
max_num_procedures = 256

unfoldable pub procedures_as_elements : List AccountProcedureInfo → List Felt
unfolding procedure_to_elements
procedures_as_elements [] = []
procedures_as_elements (procedure ∷ procedures) =
    let (first, second) = procedure_to_elements procedure in
    (word_elements first ++ word_elements second) ++ procedures_as_elements procedures

-- What `from_components_unchecked` reads of a component: its storage size and its procedures.
pub record Component : Type 0 where
  pub storage_size : ℕ
  pub modules : List (List Digest)

-- The set of roots that were inserted, as a list.
abbrev pub contains_root : Digest → List Digest → Bool
contains_root root roots = any (word_eq root) roots

abbrev pub roots_of : List AccountProcedureInfo → List Digest
roots_of [] = []
roots_of (procedure ∷ procedures) = procedure.mast_root ∷ roots_of procedures

-- One procedure of a component: the set of roots is that of the procedures so far.
unfoldable pub add_procedure :
    ℕ → ℕ → Digest → List AccountProcedureInfo → Result AccountError (List AccountProcedureInfo)
unfolding procedure_new
add_procedure offset size root procedures =
    fail_if (contains_root root (roots_of procedures)) account_code_merge_error (do
      procedure ← procedure_new root (if size == 0 then 0 else offset) size
      ok (procedures ++ (procedure ∷ [])))

-- The loops over the modules of a component and over the procedures of a module.
unfoldable pub add_procedures :
    ℕ
    → ℕ
    → List Digest
    → List AccountProcedureInfo
    → Result AccountError (List AccountProcedureInfo)
add_procedures offset size [] procedures = ok procedures
add_procedures offset size (root ∷ roots) procedures = do
  procedures' ← add_procedure offset size root procedures
  add_procedures offset size roots procedures'

unfoldable pub add_modules :
    ℕ
    → ℕ
    → List (List Digest)
    → List AccountProcedureInfo
    → Result AccountError (List AccountProcedureInfo)
add_modules offset size [] procedures = ok procedures
add_modules offset size (roots ∷ modules) procedures = do
  procedures' ← add_procedures offset size roots procedures
  add_modules offset size modules procedures'

-- The loop over the components. The next offset is a `u8`, and the panic is that of `expect`.
unfoldable pub add_components :
    ℕ → List Component → List AccountProcedureInfo → Result AccountError (List AccountProcedureInfo)
add_components offset [] procedures = ok procedures
add_components offset (component ∷ components) procedures = do
  procedures' ← add_modules offset component.storage_size component.modules procedures
  if ltb (offset + component.storage_size) (2 ^ 8)
      then add_components (offset + component.storage_size) components procedures'
      else panic

-- The slot that is reserved for a faucet.
abbrev pub first_offset : AccountType → ℕ
first_offset account_type = if type_is_faucet account_type then 1 else 0

abbrev pub is_nil : List AccountProcedureInfo → Bool
is_nil [] = true
is_nil (_ ∷ _) = false

-- `AccountCode::from_components_unchecked`; the hash is a parameter.
unfoldable pub from_components :
    (List Felt → Digest) → List Component → AccountType → Result AccountError AccountCode
unfolding procedures_as_elements
from_components hash_elements components account_type = do
  procedures ← add_components (first_offset account_type) components []
  if is_nil procedures
      then err account_code_no_procedures
      else fail_if (ltb max_num_procedures (length procedures))
          (account_code_too_many_procedures max_num_procedures (length procedures))
          (ok (record {
            commitment = hash_elements (procedures_as_elements procedures);
            procedures = procedures;
          }))

unfoldable pub has_procedure : AccountCode → Digest → Bool
has_procedure self mast_root = contains_root mast_root (roots_of self.procedures)

-- `get_procedure_index_by_root`: the position of the first procedure with this root.
unfoldable pub position : Digest → List AccountProcedureInfo → Option ℕ
position root [] = none
position root (procedure ∷ procedures) =
    let rest = position root procedures in
    if word_eq procedure.mast_root root
    then some 0
    else elim rest [ none ↦ none | some index ↦ some (suc index) ]

-- ===== src/Notes/Tag.antt =====
-- `NoteTag`, a `u32`: objects/src/notes/note_tag.rs.
pub mod Laws
use miden_base.Base.{
  ℕ, ◌+◌, ◌*◌, ◌/◌, ◌%◌, ◌^◌, bit_and, bit_or, Bool, true, false, not, ◌&&◌, ltb, ◌==◌,
  if◌then◌else◌, Result, ok, err, panic, fail_if, ◌>>=◌,
}
use miden_base.Base.Bits.{◌<<◌, ◌>>◌, u32}
use miden_base.Errors.{
  AccountError, NoteError, invalid_note_tag_use_case, network_execution_requires_on_chain_account,
  network_execution_requires_public_note, public_use_case_requires_public_note,
}
use miden_base.Accounts.Kinds.{public, private}
use miden_base.Accounts.Id as Ids
use miden_base.Assets.Data.{AccountId}
use miden_base.Notes.Kinds as Kinds
use miden_base.Notes.Kinds.{NoteType, note_type_eq, NoteExecutionMode, network, local, mode_eq}

abbrev pub local_execution_with_all_note_types_allowed : ℕ
local_execution_with_all_note_types_allowed = 3 << 30

abbrev pub public_usecase : ℕ
public_usecase = 2 << 30

abbrev pub NoteTag : Type 0
NoteTag = ℕ

-- The test of the storage mode, with the panic of `is_public`.
abbrev if_public : Result AccountError Bool → Result NoteError NoteTag → Result NoteError NoteTag
if_public (ok true) rest = rest
if_public (ok false) rest = err network_execution_requires_on_chain_account
if_public (err e) rest = panic
if_public panic rest = panic

unfoldable pub from_account_id : AccountId → NoteExecutionMode → Result NoteError NoteTag
unfolding Ids.is_public
from_account_id account_id local =
    let high_bits = bit_and (u32 (account_id >> 34)) (65535 << 16) in
    ok (bit_or high_bits local_execution_with_all_note_types_allowed)
from_account_id account_id network =
    if_public (Ids.is_public account_id) (ok (u32 (account_id >> 33)))

abbrev pub use_case_bits : NoteExecutionMode → ℕ
use_case_bits local = public_usecase
use_case_bits network = 1 << 30

-- The arguments `use_case_id` and `payload` are `u16`.
unfoldable pub for_public_use_case : ℕ → ℕ → NoteExecutionMode → Result NoteError NoteTag
for_public_use_case use_case_id payload execution =
    fail_if (not (use_case_id >> 14 == 0)) (invalid_note_tag_use_case use_case_id)
      (ok (bit_or (bit_or (use_case_bits execution) (u32 (use_case_id << 16))) payload))

unfoldable pub for_local_use_case : ℕ → ℕ → Result NoteError NoteTag
for_local_use_case use_case_id payload =
    fail_if (not (use_case_id >> 14 == 0)) (invalid_note_tag_use_case use_case_id) (
      ok (
        bit_or (bit_or local_execution_with_all_note_types_allowed (u32 (use_case_id << 16)))
          payload))

unfoldable pub is_single_target : NoteTag → Bool
is_single_target self = self >> 30 == 0

unfoldable pub execution_hint : NoteTag → NoteExecutionMode
execution_hint self = if self >> 31 == 1 then local else network

unfoldable pub validate : NoteTag → NoteType → Result NoteError NoteTag
unfolding execution_hint
validate self note_type =
    fail_if (mode_eq (execution_hint self) network && not (note_type_eq note_type Kinds.public))
      (network_execution_requires_public_note note_type)
      (if (bit_and self (3 << 30) == public_usecase) && not (note_type_eq note_type Kinds.public)
        then err (public_use_case_requires_public_note note_type)
        else ok self)

-- ===== src/Notes/Hint.antt =====
-- `NoteExecutionHint`: objects/src/notes/execution_hint.rs.
pub mod Laws
use miden_base.Base.{
  ℕ, ◌+◌, ◌-◌, ◌*◌, ◌/◌, ◌%◌, ◌^◌, bit_and, bit_or, Bool, true, false, not, ◌&&◌, Option, none,
  some, ltb, leb, ◌==◌, if◌then◌else◌, Result, ok, err, panic, fail_if, ◌>>=◌,
}
use miden_base.Base.Bits.{◌<<◌, ◌>>◌, u8, u32}
use miden_base.Errors.{
  NoteError, invalid_note_execution_hint_tag, invalid_note_execution_hint_payload,
}

abbrev pub none_tag : ℕ
none_tag = 0

abbrev pub always_tag : ℕ
always_tag = 1

abbrev pub after_block_tag : ℕ
after_block_tag = 2

abbrev pub on_block_slot_tag : ℕ
on_block_slot_tag = 3

-- `none_hint` is `NoteExecutionHint::None`. A block number is a `u32`, the parts of a slot are `u8`.
pub data NoteExecutionHint : Type 0 where
  none_hint always : NoteExecutionHint
  after_block : ℕ → NoteExecutionHint
  on_block_slot : ℕ → ℕ → ℕ → NoteExecutionHint

unfoldable pub from_parts : ℕ → ℕ → Result NoteError NoteExecutionHint
from_parts tag payload =
    if tag == none_tag
    then fail_if (not (payload == 0)) (invalid_note_execution_hint_payload tag payload)
        (ok none_hint)
    else if tag == always_tag
    then fail_if (not (payload == 0)) (invalid_note_execution_hint_payload tag payload) (ok always)
    else if tag == after_block_tag
    then ok (after_block payload)
    else if tag == on_block_slot_tag
    then fail_if (not (u8 (bit_and (payload >> 24) 255) == 0))
        (invalid_note_execution_hint_payload tag payload)
        (ok (
          on_block_slot (u8 (bit_and (payload >> 16) 255)) (u8 (bit_and (payload >> 8) 255))
            (u8 (bit_and payload 255))))
    else err (invalid_note_execution_hint_tag tag)

unfoldable pub into_parts : NoteExecutionHint → ℕ × ℕ
into_parts none_hint = (none_tag, 0)
into_parts always = (always_tag, 0)
into_parts (after_block block_num) = (after_block_tag, block_num)
into_parts (on_block_slot epoch_len slot_len slot_offset) =
    (on_block_slot_tag, bit_or (bit_or (u32 (epoch_len << 16)) (u32 (slot_len << 8))) slot_offset)

-- `From<NoteExecutionHint> for u64` and `TryFrom<u64>`.
unfoldable pub hint_to_u64 : NoteExecutionHint → ℕ
unfolding into_parts
hint_to_u64 value = let (tag, payload) = into_parts value in bit_or (payload << 6) tag

unfoldable pub hint_try_from_u64 : ℕ → Result NoteError NoteExecutionHint
unfolding from_parts
hint_try_from_u64 value =
    from_parts (u8 (bit_and value 63)) (u32 (bit_and (value >> 6) (2 ^ 32 - 1)))

-- Arithmetic on `u32` panics on an overflow, as it does with overflow checks.
abbrev pub checked_u32 : ℕ → Result NoteError ℕ
checked_u32 n = if ltb n (2 ^ 32) then ok n else panic

-- `1 << n` on `u32`
abbrev pub shifted_one : ℕ → Result NoteError ℕ
shifted_one n = if ltb n 32 then ok (1 << n) else panic

unfoldable pub can_be_consumed : NoteExecutionHint → ℕ → Result NoteError (Option Bool)
can_be_consumed none_hint block_num = ok none
can_be_consumed always block_num = ok (some true)
can_be_consumed (after_block hint_block_num) block_num = ok (some (leb hint_block_num block_num))
can_be_consumed (on_block_slot epoch_len slot_len slot_offset) block_num = do
  epoch_len_blocks ← shifted_one epoch_len
  slot_len_blocks ← shifted_one slot_len
  epoch_start ← checked_u32 (block_num / epoch_len_blocks * epoch_len_blocks)
  slot_shift ← checked_u32 (slot_offset * slot_len_blocks)
  slot_start_block ← checked_u32 (epoch_start + slot_shift)
  slot_end_block ← checked_u32 (slot_start_block + slot_len_blocks)
  ok (some (leb slot_start_block block_num && ltb block_num slot_end_block))

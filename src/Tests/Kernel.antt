-- ===== src/Tests/Kernel.antt =====
-- The theorems on the kernel's events and memory at concrete numbers.
use miden_base.Base.{◌+◌, ◌^◌, ◌≡◌, ◌≤◌, ◌<◌, ◌↔◌, arith, ok}
use miden_base.Kernel.Events.{event_try_from, event_id, note_after_created}
use miden_base.Kernel.Events.Laws.{event_try_from_lem}
use miden_base.Kernel.Memory.{
  num_acct_storage_slots_offset, input_note_section_offset, input_note_data_section_offset,
  input_note_assets_offset, output_note_section_offset, output_note_assets_offset,
}
use miden_base.Kernel.Memory.Laws.{
  account_ptr, procedure_ptr, slot_ptr, nullifier_ptr, input_note_ptr, output_note_ptr,
  account_layout, note_layout,
}

event_try_from_lem_example :
    (event_try_from 131084 ≡ ok note_after_created) ↔ (131084 ≡ event_id note_after_created)
event_try_from_lem_example = event_try_from_lem 131084 note_after_created

-- The last procedure and the last slot of the last foreign account.
account_layout_example :
    (procedure_ptr 64 255 + 1 < account_ptr 64 + num_acct_storage_slots_offset)
    × (account_ptr 64 + num_acct_storage_slots_offset < slot_ptr 64 254)
    × (slot_ptr 64 254 + 1 < account_ptr (64 + 1))
    × (account_ptr (64 + 1) ≤ input_note_section_offset)
account_layout_example = account_layout 64 255 254 (omega arith) (omega arith) (omega arith)

-- The last asset of the last notes.
note_layout_example :
    (nullifier_ptr 1023 < input_note_data_section_offset)
    × (input_note_ptr 1023 + input_note_assets_offset + 254 < input_note_ptr (1023 + 1))
    × (input_note_ptr (1023 + 1) ≤ output_note_section_offset)
    × (output_note_ptr 1023 + output_note_assets_offset + 254 < output_note_ptr (1023 + 1))
    × (output_note_ptr (1023 + 1) ≤ 2 ^ 32)
note_layout_example = note_layout 1023 1023 254 (omega arith) (omega arith) (omega arith)

-- ===== src/Host/NoteHandlers.antt =====
-- The handlers of kernel events that create notes: miden-tx/src/host/mod.rs.
use miden_base.Base.{
  ℕ, Option, none, some, List, ltb, ◌==◌, if◌then◌else◌, Result, ok, err, panic, map_err, then_do,
  length,
}
use miden_base.Base.Words.{Felt, Field, Digest}
use miden_base.Base.Hashing.{Hasher}
use miden_base.Base.Maps.{nat_key, lookup, insert}
use miden_base.Kernel.Errors.{TransactionKernelError, malformed_asset, missing_note}
use miden_base.Assets.Data.{Asset}
use miden_base.Assets.Whole as Whole
use miden_base.Host.Process.{ProcessState, AdviceProvider}
use miden_base.Host.NoteBuilder as NoteBuilder
use miden_base.Host.State.{TransactionHost, Handler}

module _ {A : Type 0} where
  -- The index of a note whose asset is on the stack. The panic is that of `assert!`.
  abbrev pub asset_of_note : ProcessState → TransactionHost A → Result TransactionKernelError Asset
  asset_of_note process self =
      if ltb (process.get_stack_item 6) (length self.output_notes)
      then map_err malformed_asset (Whole.try_from_word (process.get_stack_word 0))
      else panic

  abbrev pub put_note :
      ℕ
      → TransactionHost A
      → Result TransactionKernelError (Unit {0}) × NoteBuilder.OutputNoteBuilder
      → Result TransactionKernelError (Unit {0}) × TransactionHost A
  put_note note_idx self (r, builder) =
      (r, record self { output_notes = insert note_idx builder self.output_notes })

  module _ ⦃H : Hasher⦄ where
    -- The note by its index, `get_mut`, and the asset that is added to it.
    unfoldable pub add_to_note :
        ⦃F : Field⦄
        → ℕ
        → Asset
        → TransactionHost A
        → Option NoteBuilder.OutputNoteBuilder
        → Result TransactionKernelError (Unit {0}) × TransactionHost A
    unfolding NoteBuilder.add_asset
    add_to_note note_idx asset self none = (err (missing_note note_idx), self)
    add_to_note note_idx asset self (some builder) =
        put_note note_idx self (NoteBuilder.add_asset asset builder)

    unfoldable pub on_note_before_add_asset : ⦃F : Field⦄ → Handler (TransactionHost A)
    unfolding add_to_note
    on_note_before_add_asset process self =
        then_do (asset_of_note process self, self)
          (λ asset self.
            add_to_note (process.get_stack_item 6) asset self
              (lookup (process.get_stack_item 6) self.output_notes))

    module _ ⦃P : AdviceProvider A⦄ (read_script : List Felt → Option Digest) where
      -- The panic is that of `assert_eq!`.
      abbrev pub new_note :
          ProcessState
          → TransactionHost A
          → Result TransactionKernelError NoteBuilder.OutputNoteBuilder
      new_note process self =
          if process.get_stack_item 9 == length self.output_notes
          then NoteBuilder.new read_script process self.adv_provider
          else panic

      unfoldable pub on_note_after_created : Handler (TransactionHost A)
      on_note_after_created process self =
          then_do (new_note process self, self)
            (λ note_builder self. put_note (process.get_stack_item 9) self (ok tt, note_builder))

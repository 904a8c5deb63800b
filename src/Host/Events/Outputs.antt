-- ===== src/Host/Events/Outputs.antt =====
-- The output notes of a transaction over its events: miden-tx/src/host/mod.rs.
use miden_base.Base.{
  ℕ, ◌<◌, ◌≡◌, refl, sym, ap, subst, ◌∙◌, inl, inr, false, Bool-cases, List, [], ◌∷◌, ◌++◌, arith,
  ltb, ltb→lt, ◌==◌, Option, none, some, ok, map_err, map_err-eq-ok, >>=-eq-ok, ok_injective,
  then_do-eq-ok, length, get_elem?, set,
}
use miden_base.Base.Words.{Felt, Field, Digest, empty_word}
use miden_base.Base.Maps.{Key, nat_key, lookup, insert}
use miden_base.Base.Maps.Numbered.{Numbered, values, lookup-Numbered, insert-next, insert-old}
use miden_base.Base.Hashing.{Hasher}
use miden_base.Kernel.Events.Laws.{event_try_from_lem}
use miden_base.Kernel.Errors.{event_error, not_an_event, malformed_asset, malformed_note_metadata}
use miden_base.Kernel.Events.{
  TransactionEvent, note_after_created, note_before_add_asset, event_id, event_try_from,
}
use miden_base.Assets.Data.{Asset, NonFungibleAsset}
use miden_base.Assets.Whole as Whole
use miden_base.Notes.Metadata as Metadata
use miden_base.Host.Process.{ProcessState, AdviceProvider}
use miden_base.Host.NoteBuilder as NoteBuilder
use miden_base.Host.NoteBuilder.{OutputNoteBuilder, recipient_word}
use miden_base.Host.State.{TransactionHost}
use miden_base.Host.NoteHandlers as NoteHandlers
use miden_base.Host.Events.{handle, dispatch, on_event, as_event_error}
use miden_base.Host.Events.Frames.{notes_of, touches_notes, handle-notes}

-- The notes that are being built, in the order of their indices.
abbrev pub builders : {A : Type 0} → TransactionHost A → List OutputNoteBuilder
builders self = values self.output_notes

-- A new note has the metadata and the recipient on the stack and no assets.
abbrev Fresh : ProcessState → OutputNoteBuilder → Type 0
Fresh process b =
    (Metadata.try_from_word (NoteBuilder.metadata_word process) ≡ ok b.metadata)
    × (b.recipient_digest ≡ recipient_word process)
    × (b.assets ≡ record { assets = []; hash = empty_word })

module _ ⦃F : Field⦄ ⦃H : Hasher⦄ where
  -- What an event that is handled does to the output notes: a created note comes last, with the
  -- metadata and the recipient on the stack and without assets; the asset on the stack is added to
  -- the note with the index on the stack; every other event changes none.
  pub data OutputStep (process : ProcessState)
      : TransactionEvent → List OutputNoteBuilder → List OutputNoteBuilder → Type 0 where
    created :
        (bs : List OutputNoteBuilder) (b : OutputNoteBuilder)
        → Metadata.try_from_word (NoteBuilder.metadata_word process) ≡ ok b.metadata
        → b.recipient_digest ≡ recipient_word process
        → b.assets ≡ record { assets = []; hash = empty_word }
        → OutputStep process note_after_created bs (bs ++ (b ∷ []))
    asset_added :
        (bs : List OutputNoteBuilder) (b b' : OutputNoteBuilder) (asset : Asset)
        → Whole.try_from_word (process.get_stack_word 0) ≡ ok asset
        → get_elem? bs (process.get_stack_item 6) ≡ some b
        → NoteBuilder.add_asset asset b ≡ (ok tt, b')
        → OutputStep process note_before_add_asset bs (set bs (process.get_stack_item 6) b')
    other :
        (e : TransactionEvent) (bs : List OutputNoteBuilder)
        → touches_notes e ≡ false
        → OutputStep process e bs bs

  module _ {A : Type 0} where
    -- The notes of a host are numbered from 0.
    abbrev pub IsNumbered : TransactionHost A → Type 0
    IsNumbered self = Numbered 0 self.output_notes

    module _ ⦃P : AdviceProvider A⦄ (read_script : List Felt → Option Digest) where
      new-Fresh :
          (process : ProcessState) (adv : A) (b : OutputNoteBuilder)
          → NoteBuilder.new read_script process adv ≡ ok b
          → Fresh process b
      unfolding NoteBuilder.new
      new-Fresh process adv b h =
          let (metadata, read, rest) =
            >>=-eq-ok
              (map_err malformed_note_metadata
                (Metadata.try_from_word (NoteBuilder.metadata_word process)))
              _ h in
          let (recipient, _, last) =
            >>=-eq-ok
              (NoteBuilder.find_recipient read_script adv metadata (recipient_word process)
                (P.get_mapped_values adv (recipient_word process)))
              _ rest in
          subst (Fresh process) (ok_injective last)
            (map_err-eq-ok malformed_note_metadata _ read, refl, refl)

      new_note-Fresh :
          (process : ProcessState) (self : TransactionHost A) (b : OutputNoteBuilder)
          → NoteHandlers.new_note read_script process self ≡ ok b
          → (process.get_stack_item 9 ≡ length self.output_notes) × Fresh process b
      new_note-Fresh process self b h =
          elim (Bool-cases (process.get_stack_item 9 == length self.output_notes)) [
            | inl next ↦ (ground arith, new-Fresh process self.adv_provider b (ground arith))
            | inr not_next ↦ absurd (ground arith)
          ]

    note_created :
        ⦃P : AdviceProvider A⦄ (read_script : List Felt → Option Digest) (process : ProcessState)
        (self self' : TransactionHost A)
        → IsNumbered self
        → NoteHandlers.on_note_after_created read_script process self ≡ (ok tt, self')
        → IsNumbered self' × OutputStep process note_after_created (builders self) (builders self')
    unfolding NoteHandlers.on_note_after_created
    note_created read_script process self self' n h =
        let (b, made, put) =
          then_do-eq-ok (NoteHandlers.new_note read_script process self, self) _ h in
        let (next, fresh) = new_note-Fresh read_script process self b made in
        let (numbered, is) =
          insert-next 0 (process.get_stack_item 9) b self.output_notes n (omega arith) in
        let end : notes_of self' ≡ insert (process.get_stack_item 9) b self.output_notes =
          ap (λ p. notes_of p.1) (sym put) in
        (
          subst (Numbered 0) (sym end) numbered,
          subst (OutputStep process note_after_created (builders self)) (sym (ap values end ∙ is))
              (created (builders self) b fresh.0 fresh.1 fresh.2),
        )

    added_to_found :
        (process : ProcessState) (asset : Asset) (self self' : TransactionHost A)
        (found : Option OutputNoteBuilder)
        → IsNumbered self
        → Whole.try_from_word (process.get_stack_word 0) ≡ ok asset
        → process.get_stack_item 6 < length self.output_notes
        → lookup (process.get_stack_item 6) self.output_notes ≡ found
        → NoteHandlers.add_to_note (process.get_stack_item 6) asset self found ≡ (ok tt, self')
        → IsNumbered self'
          × OutputStep process note_before_add_asset (builders self) (builders self')
    unfolding NoteHandlers.add_to_note
    added_to_found process asset self self' none n read lt there put = absurd (cc)
    added_to_found process asset self self' (some b) n read lt there put =
        let i = process.get_stack_item 6 in
        let (r, b') = NoteBuilder.add_asset asset b in
        let (numbered, is) = insert-old 0 i i b' self.output_notes n (omega arith) lt in
        let end : notes_of self' ≡ insert i b' self.output_notes =
          ap (λ p. notes_of p.1) (sym put) in
        let added : NoteBuilder.add_asset asset b ≡ (ok tt, b') =
          ap (λ x. (x, b')) (ap (λ p. p.0) put) in
        let at : get_elem? (builders self) i ≡ some b =
          sym (lookup-Numbered 0 i i self.output_notes n (omega arith)) ∙ there in
        (
          subst (Numbered 0) (sym end) numbered,
          subst (OutputStep process note_before_add_asset (builders self))
              (sym (ap values end ∙ is)) (asset_added (builders self) b b' asset read at added),
        )

    asset_added_to_note :
        (process : ProcessState) (self self' : TransactionHost A)
        → IsNumbered self
        → NoteHandlers.on_note_before_add_asset process self ≡ (ok tt, self')
        → IsNumbered self'
          × OutputStep process note_before_add_asset (builders self) (builders self')
    unfolding NoteHandlers.on_note_before_add_asset
    asset_added_to_note process self self' n h =
        let (asset, read, put) =
          then_do-eq-ok (NoteHandlers.asset_of_note process self, self) _ h in
        elim (Bool-cases (ltb (process.get_stack_item 6) (length self.output_notes))) [
          | inl there ↦
              added_to_found process asset self self'
                (lookup (process.get_stack_item 6) self.output_notes) n
                (map_err-eq-ok malformed_asset (Whole.try_from_word (process.get_stack_word 0))
                  (rw there at read))
                (ltb→lt _ _ there) refl put
          | inr beyond ↦ absurd (ground arith)
        ]

    module _ ⦃D : Key Digest⦄ ⦃N : Key NonFungibleAsset⦄ ⦃P : AdviceProvider A⦄
        (felt_add : Felt → Felt → Felt) (read_script : List Felt → Option Digest) where
      quiet :
          (e : TransactionEvent) (process : ProcessState) (self self' : TransactionHost A)
          → touches_notes e ≡ false
          → IsNumbered self
          → handle felt_add read_script e process self ≡ (ok tt, self')
          → IsNumbered self' × OutputStep process e (builders self) (builders self')
      quiet e process self self' t n h =
          let same : notes_of self ≡ notes_of self' =
            sym (handle-notes felt_add read_script e process self t) ∙ ap (λ p. notes_of p.1) h in
          (
            subst (Numbered 0) same n,
            subst (OutputStep process e (builders self)) (ap values same)
                (other e (builders self) t),
          )

      handle-OutputStep :
          (e : TransactionEvent) (process : ProcessState) (self self' : TransactionHost A)
          → IsNumbered self
          → handle felt_add read_script e process self ≡ (ok tt, self')
          → IsNumbered self' × OutputStep process e (builders self) (builders self')
      unfolding handle
      handle-OutputStep note_after_created process self self' n h =
          note_created read_script process self self' n h
      handle-OutputStep note_before_add_asset process self self' n h =
          asset_added_to_note process self self' n h
      handle-OutputStep e process self self' n h = quiet e process self self' refl n h

      -- An event that is handled is an event of the kernel, from the root context.
      pub on_event-handled :
          (process : ProcessState) (id : ℕ) (self self' : TransactionHost A)
          → on_event felt_add read_script process id self ≡ (ok tt, self')
          → (e : TransactionEvent) × (id ≡ event_id e)
            × (process.ctx ≡ 0)
            × (handle felt_add read_script e process self ≡ (ok tt, self'))
      unfolding on_event dispatch
      on_event-handled process id self self' h =
          let (e, read, rest) =
            then_do-eq-ok (map_err (λ x. event_error (not_an_event x)) (event_try_from id), self) _
              h in
          elim (Bool-cases (process.ctx == 0)) [
            | inl root ↦
                let p = handle felt_add read_script e process self in
                let handled : as_event_error p ≡ (ok tt, self') = ground arith in
                let fine : p.0 ≡ ok tt = map_err-eq-ok _ p.0 (ap (λ q. q.0) handled) in
                (
                  e,
                  (event_try_from_lem id e).0 (map_err-eq-ok _ (event_try_from id) read),
                  ground arith,
                  ap (λ x. (x, p.1)) fine ∙ ap (λ q. (ok tt, q.1)) handled,
                )
            | inr inner ↦ absurd (ground arith)
          ]

      -- What an event that succeeds does to the output notes: they stay numbered in the order in
      -- which they were created; a created note comes last, with the metadata and the recipient on
      -- the stack and without assets; the asset on the stack goes to the note whose index is on the
      -- stack; every other event changes none.
      pub on_event-OutputStep :
          (process : ProcessState) (id : ℕ) (self self' : TransactionHost A)
          → IsNumbered self
          → on_event felt_add read_script process id self ≡ (ok tt, self')
          → (e : TransactionEvent) × (id ≡ event_id e)
            × IsNumbered self'
            × OutputStep process e (builders self) (builders self')
      on_event-OutputStep process id self self' n h =
          let (e, is, root, handled) = on_event-handled process id self self' h in
          let (numbered, step) = handle-OutputStep e process self self' n handled in
          (e, is, numbered, step)

-- ===== src/Host/Events/Runs.antt =====
-- The output notes of a whole transaction: miden-tx/src/host/mod.rs.
use miden_base.Base.{
  ℕ, zero, suc, ◌+◌, ◌≤◌, ◌≡◌, refl, sym, ap, subst, ◌∙◌, false, List, [], ◌∷◌, ◌++◌, arith, Option,
  none, some, ok, Method, map_err-eq-ok, inl, inr, then_do, then_do-eq-ok, length, length-append,
  length-set, get_elem?, set, All, ◌==◌, if◌then◌else◌,
}
use miden_base.Base.Words.{Felt, Field, Digest}
use miden_base.Base.Maps.{Map, Key}
use miden_base.Base.Maps.Numbered.{Numbered, values}
use miden_base.Base.Hashing.{Hasher}
use miden_base.Kernel.Errors.{ExecutionError, failed_to_add_asset_to_note}
use miden_base.Kernel.Events.{TransactionEvent, event_id, note_after_created}
use miden_base.Assets.Data.{Asset, NonFungibleAsset}
use miden_base.Notes.Assets as NoteAssets
use miden_base.Notes.Assets.Laws.{add_asset-AddsAsset}
use miden_base.Transactions.OutputNotes as OutputNotes
use miden_base.Notes.Note.{NoteRecipient, note_new, details_id, note_id_new, partial_id}
use miden_base.Host.Process.{ProcessState, AdviceProvider}
use miden_base.Host.NoteBuilder as NoteBuilder
use miden_base.Host.NoteBuilder.{OutputNoteBuilder}
use miden_base.Host.State.{TransactionHost, build_notes}
use miden_base.Host.Events.{on_event}
use miden_base.Host.Events.Frames.{touches_notes}
use miden_base.Host.Events.Outputs.{
  OutputStep, created, asset_added, other, builders, IsNumbered, on_event-OutputStep,
}

module _ ⦃F : Field⦄ ⦃H : Hasher⦄ where
  -- At most 255 assets, and a commitment that is up to date.
  abbrev pub IsCommitted : NoteAssets.NoteAssets → Type 0
  IsCommitted n =
      (length n.assets ≤ 255)
      × (n.hash ≡ NoteAssets.compute_asset_commitment H.hash_elements n.assets)

  abbrev AllCommitted : List OutputNoteBuilder → Type 0
  AllCommitted bs = All (λ b. IsCommitted b.assets) bs

  All-append :
      (bs : List OutputNoteBuilder) (b : OutputNoteBuilder)
      → AllCommitted bs
      → IsCommitted b.assets
      → AllCommitted (bs ++ (b ∷ []))
  All-append [] b h k = (k, tt)
  All-append (c ∷ bs) b (h, hs) k = (h, All-append bs b hs k)

  All-set :
      (bs : List OutputNoteBuilder) (i : ℕ) (b : OutputNoteBuilder)
      → AllCommitted bs
      → IsCommitted b.assets
      → AllCommitted (set bs i b)
  All-set [] i b h k = tt
  All-set (c ∷ bs) zero b (h, hs) k = (k, hs)
  All-set (c ∷ bs) (suc i) b (h, hs) k = (h, All-set bs i b hs k)

  All-get :
      (bs : List OutputNoteBuilder) (i : ℕ) (b : OutputNoteBuilder)
      → AllCommitted bs
      → get_elem? bs i ≡ some b
      → IsCommitted b.assets
  All-get [] i b h at = absurd (cc)
  All-get (c ∷ bs) zero b (h, hs) at =
      let is : c ≡ b = ground arith in subst (λ (o : OutputNoteBuilder). IsCommitted o.assets) is h
  All-get (c ∷ bs) (suc i) b (h, hs) at = All-get bs i b hs at

  add_asset-IsCommitted :
      (asset : Asset) (b b' : OutputNoteBuilder)
      → IsCommitted b.assets
      → NoteBuilder.add_asset asset b ≡ (ok tt, b')
      → IsCommitted b'.assets
  unfolding NoteBuilder.add_asset
  add_asset-IsCommitted asset b b' h added =
      let p = NoteAssets.add_asset H.hash_elements asset b.assets in
      let fine : p.0 ≡ ok tt =
        map_err-eq-ok failed_to_add_asset_to_note p.0 (ap (λ q. q.0) added) in
      let is : p.1 ≡ b'.assets = ap (λ q. q.1.assets) added in
      elim (add_asset-AddsAsset H.hash_elements asset b.assets h.0) [
        | inl (_, _, few, hash) ↦ subst IsCommitted is (few, hash)
        | inr (inl (failed, _)) ↦ absurd (failed fine)
        | inr (inr (_, failed, _)) ↦ absurd (cc)
      ]

  -- How many events of a sequence create a note.
  -- 1 for the event that creates a note.
  abbrev pub creates : ℕ → ℕ
  creates id = if id == event_id note_after_created then 1 else 0

  abbrev pub count_created : List (ProcessState × ℕ) → ℕ
  count_created [] = 0
  count_created ((_, id) ∷ events) = creates id + count_created events

  creates-none : (e : TransactionEvent) → touches_notes e ≡ false → creates (event_id e) ≡ 0
  unfolding event_id
  creates-none note_after_created t = absurd (cc)
  creates-none e t = refl

  step-AllCommitted :
      (process : ProcessState) (e : TransactionEvent) (bs bs' : List OutputNoteBuilder)
      → OutputStep process e bs bs'
      → AllCommitted bs
      → AllCommitted bs' × (length bs' ≡ length bs + creates (event_id e))
  unfolding event_id NoteAssets.compute_asset_commitment
  step-AllCommitted process _ _ _ (created bs b _ digest fresh) h = (
    All-append bs b h (subst IsCommitted (sym fresh) (omega arith, refl)),
    length-append bs (b ∷ []),
  )
  step-AllCommitted process _ _ _ (asset_added bs b b' asset _ at added) h = (
    All-set bs (process.get_stack_item 6) b' h
        (add_asset-IsCommitted asset b b' (All-get bs (process.get_stack_item 6) b h at) added),
    length-set bs (process.get_stack_item 6) b' ∙ omega arith,
  )
  step-AllCommitted process _ _ _ (other e bs t) h = (h, omega (arith, creates-none e t))

  -- An output note with its assets and its recipient: at most 255 assets, a commitment that is up
  -- to date, and the identifier that belongs to the two.
  abbrev pub IsBuilt : OutputNotes.OutputNote → Type 0
  IsBuilt note =
      (assets : NoteAssets.NoteAssets) × (digest : Digest) × (OutputNotes.assets note ≡ some assets)
      × (OutputNotes.recipient_digest note ≡ some digest)
      × IsCommitted assets
      × (OutputNotes.id note ≡ H.merge digest assets.hash)

  build-IsBuilt : (b : OutputNoteBuilder) → IsCommitted b.assets → IsBuilt (NoteBuilder.build b)
  unfolding NoteBuilder.build OutputNotes.assets OutputNotes.recipient_digest OutputNotes.id
      note_new details_id note_id_new partial_id
  build-IsBuilt b c = go b.recipient refl
    where
      go : (r : Option NoteRecipient) → b.recipient ≡ r → IsBuilt (NoteBuilder.build b)
      go none is = rw is (b.assets, b.recipient_digest, refl, refl, c, refl)
      go (some recipient) is = rw is (b.assets, recipient.digest, refl, refl, c, refl)

  build_notes-IsBuilt :
      (m : Map ℕ OutputNoteBuilder)
      → AllCommitted (values m)
      → All IsBuilt (build_notes m) × (length (build_notes m) ≡ length (values m))
  unfolding build_notes
  build_notes-IsBuilt [] c = (tt, refl)
  build_notes-IsBuilt ((_, b) ∷ m) (c, cs) =
      let (built, count) = build_notes-IsBuilt m cs in ((build-IsBuilt b c, built), ap suc count)

  module _ {A : Type 0} where
    module _ ⦃D : Key Digest⦄ ⦃N : Key NonFungibleAsset⦄ ⦃P : AdviceProvider A⦄
        (felt_add : Felt → Felt → Felt) (read_script : List Felt → Option Digest) where
      -- The VM raises events until one of them fails.
      abbrev pub run :
          List (ProcessState × ℕ) → Method (TransactionHost A) ExecutionError (Unit {0})
      run [] self = (ok tt, self)
      run ((process, id) ∷ events) self =
          then_do (on_event felt_add read_script process id self) (λ _ self'. run events self')

      run-AllCommitted :
          (events : List (ProcessState × ℕ)) (self self' : TransactionHost A)
          → IsNumbered self
          → AllCommitted (builders self)
          → run events self ≡ (ok tt, self')
          → IsNumbered self'
            × AllCommitted (builders self')
            × (length (builders self') ≡ length (builders self) + count_created events)
      run-AllCommitted [] self self' n c h =
          subst
            (λ (s : TransactionHost A).
              IsNumbered s
              × AllCommitted (builders s)
              × (length (builders s) ≡ length (builders self) + 0))
            (ap (λ p. p.1) h) (n, c, omega arith)
      run-AllCommitted ((process, id) ∷ events) self self' n c h =
          let (_, fine, rest) = then_do-eq-ok (on_event felt_add read_script process id self) _ h in
          let next = (on_event felt_add read_script process id self).1 in
          let (e, is, numbered, step) =
            on_event-OutputStep felt_add read_script process id self next n
              (ap (λ r. (r, next)) fine) in
          let (committed, more) =
            step-AllCommitted process e (builders self) (builders next) step c in
          let (numbered', committed', count) =
            run-AllCommitted events next self' numbered committed rest in
          (numbered', committed', omega (arith, more, count, ap creates is))

      -- The output notes of a transaction whose events all succeed: there is one for each event
      -- that creates a note, and each of them has at most 255 assets, a commitment that is that of
      -- its assets and the identifier that belongs to the commitment and its recipient.
      pub run-IsBuilt :
          (events : List (ProcessState × ℕ)) (self self' : TransactionHost A)
          → self.output_notes ≡ []
          → run events self ≡ (ok tt, self')
          → All IsBuilt (build_notes self'.output_notes)
            × (length (build_notes self'.output_notes) ≡ count_created events)
      run-IsBuilt events self self' none_yet h =
          let (_, committed, count) =
            run-AllCommitted events self self' (subst (Numbered 0) (sym none_yet) tt)
              (subst (λ m. AllCommitted (values m)) (sym none_yet) tt) h in
          let (built, same) = build_notes-IsBuilt self'.output_notes committed in
          (built, omega (arith, same, count, ap (λ m. length (values m)) none_yet))

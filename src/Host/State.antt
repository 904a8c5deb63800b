-- ===== src/Host/State.antt =====
-- `TransactionHost` with its construction and what is left of it: miden-tx/src/host/mod.rs. The
-- store of MAST forests and the table of error messages are left out.
use miden_base.Base.{Option, List, [], ◌∷◌, Result, ok, ◌>>=◌, Method}
use miden_base.Base.Words.{Felt, Word, Digest}
use miden_base.Base.Maps.{Map, Key, insert}
use miden_base.Base.{ℕ, none}
use miden_base.Base.Hashing.{Hasher}
use miden_base.Errors.{AccountDeltaError}
use miden_base.Kernel.Errors.{TransactionKernelError, TransactionHostError}
use miden_base.Delta.Account as Deltas
use miden_base.Delta.Tracker as Tracker
use miden_base.Transactions.OutputNotes.{OutputNote}
use miden_base.Host.Process.{ProcessState, AdviceProvider}
use miden_base.Host.Progress.{CycleInterval, TransactionProgress}
use miden_base.Host.NoteBuilder as NoteBuilder
use miden_base.Host.Procedures as Procedures

-- What a handler of a kernel event is: it may change the host.
abbrev pub Handler : Type 0 → Type 0
Handler S = ProcessState → Method S TransactionKernelError (Unit {0})

-- `TransactionAuthenticator::get_signature`, of a public key, a message and a delta. Its error is
-- not read.
abbrev pub TransactionAuthenticator : Type 0
TransactionAuthenticator = Word → Word → Deltas.AccountDelta → Option (List Felt)

pub record TransactionHost (A : Type 0) : Type 0 where
  pub adv_provider : A
  pub account_delta : Tracker.AccountDeltaTracker
  pub acct_procedure_index_map : Procedures.AccountProcedureIndexMap
  pub output_notes : Map ℕ NoteBuilder.OutputNoteBuilder
  pub authenticator : Option TransactionAuthenticator
  pub generated_signatures : Map Digest (List Felt)
  pub tx_progress : TransactionProgress

-- The default values.
abbrev pub no_interval : CycleInterval
no_interval = record { start = none; end = none }

abbrev pub no_progress : TransactionProgress
no_progress = record {
  prologue = no_interval;
  notes_processing = no_interval;
  note_execution = [];
  tx_script_processing = no_interval;
  epilogue = no_interval;
}

-- The members of a set, in their order.
abbrev pub members : Map Digest (Unit {0}) → List Digest
members [] = []
members ((digest, _) ∷ digests) = digest ∷ members digests

module _ {A : Type 0} ⦃D : Key Digest⦄ ⦃P : AdviceProvider A⦄ where
  -- `TransactionHost::new`, from the nonce and the code commitment of the account's header.
  unfoldable pub new :
      Felt
      → Digest
      → A
      → Option TransactionAuthenticator
      → Map Digest (Unit {0})
      → Result TransactionHostError (TransactionHost A)
  unfolding Procedures.new Tracker.new
  new nonce code_commitment adv_provider authenticator account_code_commitments = do
    proc_index_map ←
        Procedures.new (members (insert code_commitment tt account_code_commitments)) adv_provider
    ok (record {
      adv_provider = adv_provider;
      account_delta = Tracker.new nonce;
      acct_procedure_index_map = proc_index_map;
      output_notes = [];
      authenticator = authenticator;
      tx_progress = no_progress;
      generated_signatures = [];
    })

module _ ⦃H : Hasher⦄ where
  unfoldable pub build_notes : Map ℕ NoteBuilder.OutputNoteBuilder → List OutputNote
  unfolding NoteBuilder.build
  build_notes [] = []
  build_notes ((_, builder) ∷ builders) = NoteBuilder.build builder ∷ build_notes builders

  -- `TransactionHost::into_parts`
  unfoldable pub into_parts :
      {A : Type 0}
      → (Felt → Felt → Felt)
      → TransactionHost A
      → Result AccountDeltaError
          (A × Deltas.AccountDelta × List OutputNote × Map Digest (List Felt) × TransactionProgress)
  unfolding Tracker.into_delta build_notes
  into_parts felt_add self = do
    delta ← Tracker.into_delta felt_add self.account_delta
    ok (
      self.adv_provider,
      delta,
      build_notes self.output_notes,
      self.generated_signatures,
      self.tx_progress,
    )

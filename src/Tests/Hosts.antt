-- ===== src/Tests/Hosts.antt =====
-- The theorems on the host at concrete events.
use miden_base.Base.{
  ℕ, zero, suc, ◌+◌, ◌≡◌, ◌⊎◌, refl, ◌++◌, none, some, Option, List, [], ◌∷◌, arith, ok, ok_or,
  length, All,
}
use miden_base.Base.Words.{Felt, Word, Digest, empty_word}
use miden_base.Base.Maps.{lookup, insert, nat_key}
use miden_base.Accounts.Code as Codes
use miden_base.Accounts.Code.{AccountCode, Component}
use miden_base.Accounts.Kinds.{regular_account_updatable_code}
use miden_base.Kernel.Errors.{unknown_account_procedure}
use miden_base.Kernel.Events.{TransactionEvent, event_id}
use miden_base.Host.Process.{ProcessState}
use miden_base.Host.Progress.{measure_notes}
use miden_base.Host.Procedures as Procedures
use miden_base.Host.Procedures.Laws.{get_proc_index-position}
use miden_base.Host.State.{TransactionHost, no_progress, build_notes}
use miden_base.Host.Events.{on_event, get_current_note_id}
use miden_base.Host.Events.Outputs.{IsNumbered, OutputStep, builders, on_event-OutputStep}
use miden_base.Host.Events.Runs.{run, count_created, IsBuilt, run-IsBuilt}
use miden_base.Host.Events.Replay.{replay, slot_written, nonce_incremented, run_replays}
use miden_base.Host.Events.Traces.{NoteRun, note_traces, run_traces, run_traces-cycles}
use miden_base.Host.State.{TransactionAuthenticator}
use miden_base.Host.Signatures.{on_signature_requested}
use miden_base.Host.Signatures.Laws.{Mapped, Signed, on_signature_requested_lem}
use miden_base.Tests.Values.{goldilocks, digest_key, asset_key, coin_faucet, wallet}
use miden_base.Tests.Instances.{digest, weighing, Advice, advice}

-- A process by its stack, from the top, with the number of storage slots in memory.
abbrev item : List Felt → ℕ → Felt
item [] i = 0
item (x ∷ xs) zero = x
item (x ∷ xs) (suc i) = item xs i

abbrev process : ℕ → List Felt → Word → ProcessState
process cycle stack word = record {
  clk = cycle;
  ctx = 0;
  get_stack_item = item stack;
  get_stack_word = λ i. word;
  get_mem_value = λ ctx address. some (digest 3);
}

-- A private note is created, coins are added to it, a slot is written and the nonce incremented.
abbrev creation : ProcessState
creation =
    process 10 (0 ∷ 549755813889 ∷ wallet ∷ 3221225472 ∷ 0 ∷ 6 ∷ 0 ∷ 0 ∷ 0 ∷ 0 ∷ []) empty_word

abbrev addition : ProcessState
addition = process 20 [] (record { e0 = 50; e1 = 0; e2 = 0; e3 = coin_faucet })

abbrev write : ProcessState
write = process 30 (1 ∷ 4 ∷ 0 ∷ 0 ∷ 0 ∷ 5 ∷ 0 ∷ 0 ∷ 0 ∷ []) empty_word

abbrev increment : ProcessState
increment = process 40 (2 ∷ []) empty_word

abbrev events : List (ProcessState × ℕ)
events = (creation, 131084) ∷ (addition, 131085) ∷ (write, 131077) ∷ (increment, 131080) ∷ []

abbrev fresh : TransactionHost Advice
fresh = record {
  adv_provider = record { map = []; stack = [] };
  account_delta = record {
    storage = record { values = []; maps = [] };
    vault = record { fungible = []; non_fungible = [] };
    init_nonce = 3;
    nonce_delta = 0;
  };
  acct_procedure_index_map = [];
  output_notes = [];
  authenticator = none;
  generated_signatures = [];
  tx_progress = no_progress;
}

abbrev add : Felt → Felt → Felt
add a b = a + b

abbrev no_script : List Felt → Option Digest
no_script values = none

abbrev after : TransactionHost Advice
after = (run add no_script events fresh).1

events-succeed : run add no_script events fresh ≡ (ok tt, after)
unfolding on_event miden_base.Host.NoteBuilder.new miden_base.Accounts.Id.account_id_from_felt
    miden_base.Accounts.Id.ones insert miden_base.Assets.Whole.try_from_word
    miden_base.Accounts.Kinds.account_type_from_u64 lookup
events-succeed = refl

run-IsBuilt_example :
    All IsBuilt (build_notes after.output_notes)
    × (length (build_notes after.output_notes) ≡ count_created events)
run-IsBuilt_example = run-IsBuilt add no_script events fresh after refl events-succeed

run_replays_example :
    ((s : ℕ)
      → lookup s after.account_delta.storage.values
        ≡ replay (slot_written s) events (lookup s fresh.account_delta.storage.values))
    × (after.account_delta.nonce_delta ≡ replay (nonce_incremented add) events 0)
run_replays_example = run_replays add no_script events fresh after events-succeed

-- The first of the events alone.
abbrev with_note : TransactionHost Advice
with_note = (on_event add no_script creation 131084 fresh).1

created : on_event add no_script creation 131084 fresh ≡ (ok tt, with_note)
unfolding on_event miden_base.Host.NoteBuilder.new miden_base.Accounts.Id.account_id_from_felt
    miden_base.Accounts.Id.ones insert lookup
created = refl

on_event-OutputStep_example :
    (e : TransactionEvent) × (131084 ≡ event_id e)
    × IsNumbered with_note
    × OutputStep creation e (builders fresh) (builders with_note)
on_event-OutputStep_example =
    on_event-OutputStep add no_script creation 131084 fresh with_note tt created

-- The execution of a note whose data is at address 3.
current_note : get_current_note_id (process 100 [] empty_word) ≡ ok (some (digest 3))
unfolding get_current_note_id
current_note = refl

abbrev note_run : NoteRun
note_run = record {
  before = process 100 [] empty_word;
  after = process 160 [] empty_word;
  note_id = digest 3;
  current = current_note;
}

run_traces-cycles_example :
    ((run_traces (note_traces (note_run ∷ [])) fresh).0 ≡ ok tt)
    × (measure_notes (run_traces (note_traces (note_run ∷ [])) fresh).1.tx_progress.note_execution
        ≡ measure_notes fresh.tx_progress.note_execution ++ ((digest 3, 60) ∷ []))
run_traces-cycles_example = run_traces-cycles (note_run ∷ []) fresh (omega arith, tt)

-- An account of two procedures, whose commitment is 3.
abbrev hash : List Felt → Digest
hash elements = digest 3

abbrev parts : List Component
parts = record { storage_size = 2; modules = (digest 11 ∷ digest 12 ∷ []) ∷ [] } ∷ []

abbrev code : AccountCode
code = record {
  commitment = digest 3;
  procedures =
      record { mast_root = digest 11; storage_offset = 0; storage_size = 2 }
      ∷ record { mast_root = digest 12; storage_offset = 0; storage_size = 2 }
      ∷ [];
}

code_built : Codes.from_components hash parts regular_account_updatable_code ≡ ok code
unfolding Codes.from_components Codes.add_components Codes.add_modules Codes.add_procedures
    Codes.add_procedure
code_built = refl

abbrev with_code : Advice
with_code = record {
  map = (digest 3, Codes.procedures_as_elements code.procedures) ∷ [];
  stack = [];
}

get_proc_index-position_example :
    (m : Procedures.AccountProcedureIndexMap) × (Procedures.new (code.commitment ∷ []) with_code
      ≡ ok m)
    × (Procedures.get_proc_index m (process 50 [] (digest 12))
        ≡ ok_or
            (Codes.position (digest 12) code.procedures)
            (unknown_account_procedure (digest 12)))
get_proc_index-position_example =
    get_proc_index-position hash parts regular_account_updatable_code code with_code
      (process 50 [] (digest 12)) code_built refl refl

-- A signature by an authenticator.
abbrev authenticator : TransactionAuthenticator
authenticator pub_key msg delta = some (8 ∷ 9 ∷ [])

abbrev authenticated : TransactionHost Advice
authenticated = record fresh { authenticator = some authenticator }

abbrev signed : TransactionHost Advice
signed = (on_signature_requested add (process 60 [] (digest 5)) authenticated).1

signature-given :
    on_signature_requested add (process 60 [] (digest 5)) authenticated ≡ (ok tt, signed)
unfolding on_signature_requested insert miden_base.Delta.Tracker.into_delta
    miden_base.Delta.Account.validate_nonce miden_base.Host.Signatures.sign
signature-given = refl

on_signature_requested_lem_example :
    (signed.account_delta ≡ authenticated.account_delta)
    × (Mapped add (process 60 [] (digest 5)) authenticated signed
        ⊎ Signed add (process 60 [] (digest 5)) authenticated signed)
on_signature_requested_lem_example =
    on_signature_requested_lem add (process 60 [] (digest 5)) authenticated signed signature-given

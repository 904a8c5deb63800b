-- ===== src/Tests/Transactions.antt =====
-- The theorems on transactions at concrete notes.
use miden_base.Base.{ℕ, ◌*◌, ◌≡◌, ◌≤◌, refl, true, some, none, List, [], ◌∷◌, map, ok, length}
use miden_base.Base.Words.{empty_word}
use miden_base.Base.Maps.{lookup}
use miden_base.Base.Unique.{Unique}
use miden_base.Accounts.Account.{Account}
use miden_base.Accounts.Details.{AccountUpdateDetails}
use miden_base.Accounts.Details as Details
use miden_base.Delta.Account.{AccountDelta}
use miden_base.Notes.Assets.{NoteAssets}
use miden_base.Notes.Note.{Note, NoteInclusionProof}
use miden_base.Blocks.Header as Headers
use miden_base.Blocks.Header.{BlockHeader}
use miden_base.Blocks.Chain as Chain
use miden_base.Blocks.Chain.{ChainMmr}
use miden_base.Transactions.InputNotes as InputNotesOps
use miden_base.Transactions.InputNotes.{InputNotes}
use miden_base.Transactions.OutputNotes as Outputs
use miden_base.Transactions.OutputNotes.{OutputNote, full, shrink, build_output_notes_commitment}
use miden_base.Transactions.OutputNotes.Laws.{build_output_notes_commitment-shrink}
use miden_base.Transactions.Inputs as Inputs
use miden_base.Transactions.Inputs.{InputNote, authenticated, unauthenticated, TransactionInputs}
use miden_base.Transactions.Inputs.Included.{AllIncluded}
use miden_base.Transactions.Inputs.Laws.{SeedFits, transaction_inputs_new_accepts}
use miden_base.Transactions.Proven as Proven
use miden_base.Transactions.Proven.{
  ProvenTransactionBuilder, ProvenTransaction, InputNoteCommitment, commitment_from,
  input_commitments,
}
use miden_base.Transactions.Proven.Updates.{UpdateFits}
use miden_base.Transactions.Proven.Laws.{
  build_accepts, build_input_note_commitment-commitment_from, inputs_of, outputs_of, update_of,
}
use miden_base.Tests.Values.{goldilocks, Entries, entries_smt, wallet}
use miden_base.Tests.Instances.{digest, weighing, counted_range, honest_paths}
use miden_base.Tests.Blocks.{header_of, private_metadata, note}

-- The notes of a transaction: one that is known to be in block 2, and one that is not yet in a block.
abbrev no_assets : NoteAssets
no_assets = record { assets = []; hash = empty_word }

abbrev some_note : ℕ → Note
some_note n = record {
  header = record { note_id = digest n; note_metadata = private_metadata };
  details = record {
    assets = no_assets;
    recipient = record {
      serial_num = digest n;
      script = digest 5;
      inputs = record { values = []; hash = empty_word };
      digest = digest 6;
    };
  };
  nullifier = digest (n * 2);
}

abbrev in_block : NoteInclusionProof honest_paths.MerklePath
in_block = record { location = record { block_num = 2; node_index_in_block = 4 }; note_path = true }

abbrev two_notes : List (InputNote honest_paths.MerklePath)
two_notes = authenticated (some_note 40) in_block ∷ unauthenticated (some_note 41) ∷ []

build_input_note_commitment-commitment_from_example :
    InputNotesOps.build_input_note_commitment ⦃C = input_commitments⦄ weighing.hash_elements
      (map commitment_from two_notes)
    ≡ InputNotesOps.build_input_note_commitment ⦃C = Inputs.input_commitments⦄
        weighing.hash_elements two_notes
build_input_note_commitment-commitment_from_example =
    build_input_note_commitment-commitment_from two_notes

abbrev inputs : InputNotes (InputNote honest_paths.MerklePath)
inputs = record { notes = two_notes; commitment = digest 77 }

abbrev account : Account Entries
account = record {
  id = wallet;
  vault = [];
  storage = [];
  code = record { commitment = digest 3; procedures = [] };
  nonce = 3;
}

abbrev chain : ChainMmr ℕ
chain = record { mmr = 4; blocks = (2, header_of 2) ∷ [] }

abbrev transaction_inputs : TransactionInputs Entries ℕ honest_paths.MerklePath
transaction_inputs = record {
  account = account;
  account_seed = none;
  block_header = header_of 4;
  block_chain = chain;
  input_notes = inputs;
}

inputs-new : Inputs.new account none (header_of 4) chain inputs ≡ ok transaction_inputs
unfolding Inputs.new Headers.new lookup
inputs-new = refl

transaction_inputs_new_accepts_example :
    SeedFits account none
    × (Chain.chain_length chain ≡ (header_of 4).block_num)
    × (Chain.peaks_hash chain ≡ (header_of 4).chain_root)
    × AllIncluded (header_of 4) chain two_notes
    × (transaction_inputs ≡ record {
      account = account;
      account_seed = none;
      block_header = header_of 4;
      block_chain = chain;
      input_notes = inputs;
    })
transaction_inputs_new_accepts_example =
    (transaction_inputs_new_accepts account none (header_of 4) chain inputs transaction_inputs).0
      inputs-new

-- A private note in full, and one by its header.
abbrev created : List OutputNote
created = full (some_note 50) ∷ note 51 ∷ []

build_output_notes_commitment-shrink_example :
    build_output_notes_commitment (map shrink created) ≡ build_output_notes_commitment created
build_output_notes_commitment-shrink_example = build_output_notes_commitment-shrink created

-- A transaction that changes a public account.
abbrev delta : AccountDelta
delta = record {
  storage = record { values = []; maps = [] };
  vault = record { fungible = []; non_fungible = [] };
  nonce = some 4;
}

abbrev builder : ProvenTransactionBuilder Entries ℕ
builder = record {
  account_id = wallet;
  initial_account_hash = digest 1;
  final_account_hash = digest 2;
  account_update_details = Details.delta delta;
  input_notes = map commitment_from two_notes;
  output_notes = created;
  block_ref = digest 3;
  expiration_block_num = 90;
  proof = 0;
}

abbrev size : AccountUpdateDetails Entries → ℕ
size details = 100

abbrev transaction : ProvenTransaction Entries ℕ
transaction = Proven.assemble size builder (inputs_of size builder) (outputs_of size builder)

built : Proven.build size builder ≡ ok transaction
unfolding Proven.build input_commitments commitment_from
built = refl

build_accepts_example :
    (length builder.input_notes ≤ 1024)
    × Unique (λ (n : InputNoteCommitment). n.nullifier) builder.input_notes
    × (length builder.output_notes ≤ 1024)
    × Unique Outputs.id builder.output_notes
    × UpdateFits size (update_of size builder)
    × (transaction
        ≡ Proven.assemble size builder (inputs_of size builder) (outputs_of size builder))
build_accepts_example = (build_accepts size builder transaction).0 built

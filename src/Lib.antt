-- ===== src/Lib.antt =====
-- Miden base, the protocol objects of a rollup: accounts with their code, storage and asset
-- vault, the assets, the deltas that transactions leave behind, notes, blocks, the inputs and
-- outputs of transactions and the proof-carrying transactions themselves, and the host that
-- serves the transaction kernel while a transaction runs. Amounts, identifiers and field elements
-- are native numbers; what a `u8`, `u32`, `u64` or `i64` does at its bounds is written out.
--
-- The parts and their files:
-- - Base: what every part uses. Base/Results is `Result` with a third outcome for `expect`,
--   `unreachable!`, debug assertions and overflow, and `Method`, the type of a method on `&mut
--   self`: the object comes back beside the outcome, so that what is written before an error is
--   seen. Base/Maps is `BTreeMap` as the list of its entries in key order over an interface
--   `Key`. Base/Words has field elements, the interface `Field` of what the code relies on of
--   `Felt`, and words; Base/Trees has the interface `Smt` of the sparse Merkle tree. Base/Bits
--   and Base/Ints are shifts, masks and `i64`. Base/Hashing has the interface `Hasher`, and
--   Base/Unique the loop that looks for a repeated key with a set of those seen.
-- - Errors: objects/src/errors.rs, by the variants that the modelled code returns.
-- - Accounts/Kinds, Accounts/Id: objects/src/accounts/account_id.rs: `AccountType`,
--   `AccountStorageMode`, validation (`account_id_from_felt`), `AccountId::new` with the seed
--   digest, conversions to and from bytes.
-- - Accounts/Storage: objects/src/accounts/storage: `StorageSlot`, `AccountStorage` and its
--   methods, `StorageMap::apply_delta`.
-- - Accounts/Code: objects/src/accounts/code: `AccountProcedureInfo`,
--   `AccountCode::from_components_unchecked` (`from_components` here).
-- - Accounts/Account: objects/src/accounts/mod.rs: `Account` with `apply_delta`, `set_nonce`,
--   `hash_account`. Accounts/Account/Applied is what a delta promises of all parts of an account,
--   and Accounts/Account/Merged sets the merge of deltas beside their application.
-- - Accounts/Component: objects/src/accounts/component/mod.rs, and `initialize_from_components`
--   of objects/src/accounts/mod.rs. Accounts/Seed: `get_account_seed_single` of
--   objects/src/accounts/seed.rs. Accounts/Builder: `AccountBuilder` of
--   objects/src/accounts/builder/mod.rs.
-- - Accounts/Details: `AccountUpdateDetails::merge` of objects/src/accounts/delta/mod.rs.
-- - Assets/Data, Assets/Fungible, Assets/NonFungible, Assets/Whole, Assets/TokenSymbol:
--   objects/src/assets/fungible.rs, nonfungible.rs, mod.rs and token_symbol.rs. A character is
--   its code point.
-- - Vault: objects/src/assets/vault.rs, `AssetVault` over the interface `Smt`; Vault/Updates is
--   its `apply_delta`. Vault/Entries has the invariant, and Vault/Holdings the specification of a
--   vault: a balance for each faucet and a set of non-fungible assets.
-- - Delta/Fungible, Delta/NonFungible, Delta/Vault: objects/src/accounts/delta/vault.rs; `remove`
--   is called `subtract` in the first two. Delta/Storage: objects/src/accounts/delta/storage.rs.
--   Delta/Account: `AccountDelta` of objects/src/accounts/delta/mod.rs. Delta/Tracker:
--   miden-tx/src/host/account_delta_tracker.rs.
-- - Notes/Kinds, Notes/Tag, Notes/Hint, Notes/Metadata, Notes/Assets, Notes/Inputs:
--   objects/src/notes. Notes/Note: notes, their recipients, details, headers, partial notes,
--   identifiers, nullifiers and locations (mod.rs, recipient.rs, details.rs, header.rs,
--   partial.rs, note_id.rs, nullifier.rs, location.rs); a script stands by its hash.
-- - Blocks/Header, Blocks/NoteTree, Blocks/Block: objects/src/block/header.rs, note_tree.rs and
--   mod.rs. Blocks/Chain: `ChainMmr` of objects/src/transaction/chain_mmr.rs.
-- - Transactions/InputNotes: `InputNotes` of objects/src/transaction/inputs.rs, over any type of
--   notes with `ToInputNoteCommitments`. The set of nullifiers that were seen is a list.
--   Transactions/Inputs: `InputNote` and `TransactionInputs` of the same file.
--   Transactions/OutputNotes: objects/src/transaction/outputs.rs. Transactions/Proven:
--   `ProvenTransaction`, its builder and its parts (objects/src/transaction/proven_tx.rs,
--   transaction_id.rs).
-- - Kernel/Events: the identifiers of kernel events and traces
--   (miden-lib/src/transaction/events.rs). Kernel/Memory: the layout of the kernel's memory
--   (miden-lib/src/transaction/memory.rs). Kernel/Errors: miden-lib/src/transaction/errors.rs.
-- - Host/Progress: `TransactionProgress` of miden-tx/src/host/tx_progress.rs, with
--   `CycleInterval` and the measurements that are made of it. Host/NoteBuilder: note_builder.rs.
--   Host/Procedures: account_procs.rs. Host/State, Host/AccountHandlers, Host/NoteHandlers,
--   Host/Signatures, Host/Events: `TransactionHost` of miden-tx/src/host/mod.rs, its construction
--   and parts, the handlers of events, the answer to a request for a signature, and `on_event`
--   and `on_trace`. Host/Process: what is read of the VM. A whole transaction is a list of
--   events, each with the process that emits it (Host/Events/Runs).
-- - Tests: a concrete field, tree and key orders, and the theorems at concrete inputs.
--
-- How they interact: an account holds a vault and a storage; `Account::apply_delta` calls
-- `apply_delta` of the vault, then of the storage, then `set_nonce`, and the laws of each part
-- say what the call leaves. A vault key and a stored word are those of Assets; the vault's
-- invariant says that every entry is the word of a valid asset under its key. Deltas merge by
-- parts, and `AccountUpdateDetails::merge` either merges two deltas or applies one to an account.
-- The host's `on_event` decodes an identifier by Kernel/Events, and its handlers write the deltas
-- of Delta/Tracker and the notes of Host/NoteBuilder, which Transactions/OutputNotes takes over
-- at the end. The index of procedures that the host keeps is read from the elements that
-- Accounts/Code writes. `TransactionInputs::new` checks notes against the headers of
-- Blocks/Chain, and `ProvenTransactionBuilder::build` calls the constructors of input and output
-- notes. A block builds its note tree from the notes that it has validated.
--
-- Parameters: the hash function, `Felt::try_from` and the addition of field elements are
-- arguments of the definitions that call them. The interfaces `Field`, `Smt`, `Key`, `Hasher`,
-- `SimpleSmt`, `PartialMmr`, `MerklePaths`, `ProcessState` and `AdviceProvider` hold what the
-- code relies on of the field, of the sparse Merkle trees, of key orders, of the hash function,
-- of the partial Merkle mountain range, of Merkle paths and of the VM; Tests/Values and
-- Tests/Instances fill them with functions that compute. The size of serialized account details
-- (`get_size_hint`), the decoding of a note script and the authenticator are arguments too, and
-- the type of a proof is one.
--
-- Loops are structural recursion on the list that is traversed. The search for a seed is the one
-- loop that need not end: it runs on fuel, a search that goes on has no result, and
-- Accounts/Seed/Laws says which fuel is enough. The bit counts of an identifier run over its 64
-- bits. Arithmetic on `u32` in `can_be_consumed` panics on an overflow, as it does with overflow
-- checks.
--
-- Not modelled: serialization, text formats, the MAST forest and the assembler's libraries,
-- iterators and accessors without logic, the search for a seed by several threads, what the
-- feature `testing` adds to the account builder, the assembly of components, the transaction
-- executor and prover, the kernel, which is assembly code, and its build. Of the host, the store
-- of MAST forests, the table of error messages and the calls that are passed on to the advice
-- provider are left out.
pub mod Base
pub mod Errors
pub mod Accounts
pub mod Assets
pub mod Vault
pub mod Delta
pub mod Notes
pub mod Blocks
pub mod Transactions
pub mod Kernel
pub mod Host
pub mod Tests

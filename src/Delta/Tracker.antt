-- ===== src/Delta/Tracker.antt =====
-- `AccountDeltaTracker`: miden-tx/src/host/account_delta_tracker.rs. The addition of field elements
-- is a parameter.
use miden_base.Base.{
  ◌≡◌, arith, not, Option, none, some, [], ◌==◌, if◌then◌else◌, Result, ok, err, panic,
}
use miden_base.Base.Words.{Felt}
use miden_base.Errors.{AccountDeltaError}
use miden_base.Delta.Storage.{AccountStorageDelta}
use miden_base.Delta.Vault.{AccountVaultDelta}
use miden_base.Delta.Account as Deltas

pub record AccountDeltaTracker : Type 0 where
  pub storage : AccountStorageDelta
  pub vault : AccountVaultDelta
  pub init_nonce : Felt
  pub nonce_delta : Felt

-- `AccountDeltaTracker::new`, from the nonce of the account's header.
unfoldable pub new : Felt → AccountDeltaTracker
new nonce = record {
  storage = record { values = []; maps = [] };
  vault = record { fungible = []; non_fungible = [] };
  init_nonce = nonce;
  nonce_delta = 0;
}

module _ (felt_add : Felt → Felt → Felt) where
  unfoldable pub increment_nonce : Felt → AccountDeltaTracker → AccountDeltaTracker
  increment_nonce value self = record self { nonce_delta = felt_add self.nonce_delta value }

  -- The nonce that `into_delta` passes on.
  abbrev pub final_nonce : AccountDeltaTracker → Option Felt
  final_nonce self =
      if not (self.nonce_delta == 0) then some (felt_add self.init_nonce self.nonce_delta) else none

  -- The panic of `expect` takes the place of every error.
  abbrev expect :
      Result AccountDeltaError Deltas.AccountDelta → Result AccountDeltaError Deltas.AccountDelta
  expect (ok delta) = ok delta
  expect (err e) = panic
  expect panic = panic

  unfoldable pub into_delta : AccountDeltaTracker → Result AccountDeltaError Deltas.AccountDelta
  unfolding Deltas.new
  into_delta self = expect (Deltas.new self.storage self.vault (final_nonce self))

  -- `into_delta` gives the tracked changes as a delta if they are empty, or if the nonce was
  -- incremented and its new value is not 0; else it panics.
  into_delta_lem :
      (self : AccountDeltaTracker)
      → let delta : Deltas.AccountDelta = record {
        storage = self.storage;
        vault = self.vault;
        nonce = final_nonce self;
      } in
        into_delta self ≡ (
          if Deltas.is_empty delta
          then ok delta
          else if self.nonce_delta == 0
          then panic
          else if felt_add self.init_nonce self.nonce_delta == 0
          then panic
          else ok delta)
  unfolding into_delta Deltas.validate_nonce Deltas.is_empty
  into_delta_lem self = ground arith

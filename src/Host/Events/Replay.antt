-- ===== src/Host/Events/Replay.antt =====
-- The account's changes over the events of a transaction: miden-tx/src/host/mod.rs.
use miden_base.Base.{
  ℕ, ◌≡◌, refl, sym, ap, ◌∙◌, Bool, true, false, not, ◌&&◌, List, [], ◌∷◌, arith, Option, some,
  Result, ok, then_do-eq-ok, then_do-keeps, fail_if-eq-ok, >>=-eq-ok, ok_injective, ◌==◌, ◌%◌, ◌^◌,
  leb, if◌then◌else◌,
}
use miden_base.Base.Words.{Felt, Field, Word, Digest, word_eq}
use miden_base.Base.Maps.{Key, nat_key, lookup, lookup-insert}
use miden_base.Base.Hashing.{Hasher}
use miden_base.Errors.{AccountDeltaError}
use miden_base.Kernel.Events.{
  TransactionEvent, account_vault_after_add_asset, account_vault_after_remove_asset,
  account_storage_after_set_item, account_storage_after_set_map_item,
  account_before_increment_nonce, event_id,
}
use miden_base.Assets.Data.{NonFungibleAsset}
use miden_base.Delta.Storage as StorageDelta
use miden_base.Delta.Vault as VaultDelta
use miden_base.Delta.Tracker as Tracker
use miden_base.Host.Process.{ProcessState, AdviceProvider}
use miden_base.Host.State.{TransactionHost}
use miden_base.Host.AccountHandlers
use miden_base.Host.AccountHandlers.{word_at}
use miden_base.Host.Events.{handle, on_event}
use miden_base.Host.Events.Frames.{delta_of, touches_account, handle-delta}
use miden_base.Host.Events.Outputs.{on_event-handled}
use miden_base.Host.Events.Runs.{run}

-- A value that each event of a sequence may change.
abbrev pub replay {ℓ} : {X : Type ℓ} → (ProcessState → ℕ → X → X) → List (ProcessState × ℕ) → X → X
replay f [] x = x
replay f ((process, id) ∷ events) x = replay f events (f process id x)

-- What an event tells of the value of a slot: the new value, if it is this slot that is written
-- and its value differs from the current one.
abbrev pub slot_written : ℕ → ProcessState → ℕ → Option Word → Option Word
slot_written slot process id old =
    if (id == 131077)
      && (process.get_stack_item 0 % 2 ^ 8 == slot)
      && not (word_eq (word_at 8 7 6 5 process) (word_at 4 3 2 1 process))
    then some (word_at 4 3 2 1 process)
    else old

-- What an event adds to the nonce.
abbrev pub nonce_incremented : (Felt → Felt → Felt) → ProcessState → ℕ → Felt → Felt
nonce_incremented felt_add process id delta =
    if id == 131080 then felt_add delta (process.get_stack_item 0) else delta

checked_slot_is :
    (process : ProcessState) (slot : ℕ)
    → AccountHandlers.checked_slot process ≡ ok slot
    → slot ≡ process.get_stack_item 0 % 2 ^ 8
unfolding AccountHandlers.checked_slot
checked_slot_is process slot h =
    let (n, _, rest) = >>=-eq-ok (AccountHandlers.get_num_storage_slots process) _ h in
    let (_, last) = fail_if-eq-ok (leb n (process.get_stack_item 0)) _ _ rest in
    sym (ok_injective last)

module _ {A : Type 0} where
  abbrev slot_value : ℕ → TransactionHost A → Option Word
  slot_value slot self = lookup slot self.account_delta.storage.values

  abbrev nonce_delta : TransactionHost A → Felt
  nonce_delta self = self.account_delta.nonce_delta

  after_write :
      (s slot : ℕ) (w : Word) (same : Bool) (self : TransactionHost A)
      → slot_value s (
          if not same then AccountHandlers.on_storage (StorageDelta.set_item slot w) self else self)
        ≡ (if (slot == s) && not same then some w else slot_value s self)
  unfolding StorageDelta.set_item
  after_write s slot w true self = ground arith
  after_write s slot w false self =
      lookup-insert slot s w self.account_delta.storage.values ∙ ground arith

  set_item_writes :
      (s : ℕ) (process : ProcessState) (self self' : TransactionHost A)
      → AccountHandlers.on_account_storage_after_set_item process self ≡ (ok tt, self')
      → slot_value s self' ≡ slot_written s process 131077 (slot_value s self)
  unfolding AccountHandlers.on_account_storage_after_set_item StorageDelta.set_item
  set_item_writes s process self self' h =
      let (slot, checked, rest) = then_do-eq-ok (AccountHandlers.checked_slot process, self) _ h in
      let is = checked_slot_is process slot checked in
      ap (λ p. slot_value s p.1) (sym rest)
      ∙ (after_write s slot (word_at 4 3 2 1 process)
            (word_eq (word_at 8 7 6 5 process) (word_at 4 3 2 1 process)) self
          ∙ ap
              (λ k.
                if (k == s) && not (word_eq (word_at 8 7 6 5 process) (word_at 4 3 2 1 process))
                then some (word_at 4 3 2 1 process)
                else slot_value s self)
              is)

  -- The other handlers leave the values of the slots and the nonce.
  module _ {X : Type 0} (g : TransactionHost A → X) where
    -- A quantity that neither the maps in the storage nor the vault belong to.
    abbrev Apart : ⦃D : Key Digest⦄ → Type 0
    Apart =
        (self : TransactionHost A)
        → ((slot : ℕ) (k : Digest) (w : Word)
            → g (AccountHandlers.on_storage (StorageDelta.set_map_item slot k w) self) ≡ g self)
          × ((p : Result AccountDeltaError (Unit {0}) × VaultDelta.AccountVaultDelta)
              → g (AccountHandlers.on_vault self p).1 ≡ g self)

    module _ ⦃D : Key Digest⦄ (apart : Apart) (process : ProcessState)
        (self : TransactionHost A) where
      map_item-keeps :
          g (AccountHandlers.on_account_storage_after_set_map_item process self).1 ≡ g self
      unfolding AccountHandlers.on_account_storage_after_set_map_item
      map_item-keeps =
          then_do-keeps g (AccountHandlers.checked_slot process) self _
            (λ slot. (apart self).0 slot (word_at 4 3 2 1 process) (word_at 8 7 6 5 process))

      module _ ⦃N : Key NonFungibleAsset⦄ where
        add_asset-keeps :
            g (AccountHandlers.on_account_vault_after_add_asset process self).1 ≡ g self
        unfolding AccountHandlers.on_account_vault_after_add_asset
        add_asset-keeps =
            then_do-keeps g (AccountHandlers.vault_update_asset process) self _
              (λ asset. (apart self).1 (VaultDelta.add_asset asset self.account_delta.vault))

        remove_asset-keeps :
            g (AccountHandlers.on_account_vault_after_remove_asset process self).1 ≡ g self
        unfolding AccountHandlers.on_account_vault_after_remove_asset
        remove_asset-keeps =
            then_do-keeps g (AccountHandlers.vault_update_asset process) self _
              (λ asset. (apart self).1 (VaultDelta.remove_asset asset self.account_delta.vault))

  set_item-nonce :
      (process : ProcessState) (self : TransactionHost A)
      → nonce_delta (AccountHandlers.on_account_storage_after_set_item process self).1
        ≡ nonce_delta self
  unfolding AccountHandlers.on_account_storage_after_set_item
  set_item-nonce process self =
      then_do-keeps nonce_delta (AccountHandlers.checked_slot process) self _ (λ slot. ground arith)

  module _ ⦃F : Field⦄ ⦃H : Hasher⦄ ⦃D : Key Digest⦄ ⦃N : Key NonFungibleAsset⦄
      ⦃P : AdviceProvider A⦄ (felt_add : Felt → Felt → Felt)
      (read_script : List Felt → Option Digest) where
    slot-Apart : (s : ℕ) → Apart (slot_value s)
    unfolding StorageDelta.set_map_item
    slot-Apart s self = (λ slot k w. refl, λ p. refl)

    nonce-Apart : Apart nonce_delta
    nonce-Apart self = (λ slot k w. refl, λ p. refl)

    quiet :
        {X : Type 0} (g : Tracker.AccountDeltaTracker → X) (e : TransactionEvent)
        (process : ProcessState) (self self' : TransactionHost A)
        → touches_account e ≡ false
        → handle felt_add read_script e process self ≡ (ok tt, self')
        → g self'.account_delta ≡ g self.account_delta
    quiet g e process self self' t h =
        ap (λ p. g (delta_of p.1)) (sym h)
        ∙ ap g (handle-delta felt_add read_script e process self t)

    handle_slot :
        (s : ℕ) (e : TransactionEvent) (process : ProcessState) (self self' : TransactionHost A)
        → handle felt_add read_script e process self ≡ (ok tt, self')
        → slot_value s self' ≡ slot_written s process (event_id e) (slot_value s self)
    unfolding handle event_id AccountHandlers.on_account_before_increment_nonce
        Tracker.increment_nonce
    handle_slot s account_storage_after_set_item process self self' h =
        set_item_writes s process self self' h
    handle_slot s account_storage_after_set_map_item process self self' h =
        ap (λ p. slot_value s p.1) (sym h)
        ∙ map_item-keeps (slot_value s) (slot-Apart s) process self
    handle_slot s account_vault_after_add_asset process self self' h =
        ap (λ p. slot_value s p.1) (sym h)
        ∙ add_asset-keeps (slot_value s) (slot-Apart s) process self
    handle_slot s account_vault_after_remove_asset process self self' h =
        ap (λ p. slot_value s p.1) (sym h)
        ∙ remove_asset-keeps (slot_value s) (slot-Apart s) process self
    handle_slot s account_before_increment_nonce process self self' h =
        ap (λ p. slot_value s p.1) (sym h)
    handle_slot s e process self self' h =
        quiet (λ t. lookup s t.storage.values) e process self self' refl h

    handle_nonce :
        (e : TransactionEvent) (process : ProcessState) (self self' : TransactionHost A)
        → handle felt_add read_script e process self ≡ (ok tt, self')
        → nonce_delta self' ≡ nonce_incremented felt_add process (event_id e) (nonce_delta self)
    unfolding handle event_id AccountHandlers.on_account_before_increment_nonce
        Tracker.increment_nonce
    handle_nonce account_storage_after_set_item process self self' h =
        ap (λ p. nonce_delta p.1) (sym h) ∙ set_item-nonce process self
    handle_nonce account_storage_after_set_map_item process self self' h =
        ap (λ p. nonce_delta p.1) (sym h) ∙ map_item-keeps nonce_delta nonce-Apart process self
    handle_nonce account_vault_after_add_asset process self self' h =
        ap (λ p. nonce_delta p.1) (sym h) ∙ add_asset-keeps nonce_delta nonce-Apart process self
    handle_nonce account_vault_after_remove_asset process self self' h =
        ap (λ p. nonce_delta p.1) (sym h) ∙ remove_asset-keeps nonce_delta nonce-Apart process self
    handle_nonce account_before_increment_nonce process self self' h =
        ap (λ p. nonce_delta p.1) (sym h)
    handle_nonce e process self self' h = quiet (λ t. t.nonce_delta) e process self self' refl h

    -- Over a run that succeeds, a value that each event changes by a rule is replayed by the rule.
    run-replay :
        {X : Type 0} (g : TransactionHost A → X) (f : ProcessState → ℕ → X → X)
        → ((e : TransactionEvent) (process : ProcessState) (self self' : TransactionHost A)
            → handle felt_add read_script e process self ≡ (ok tt, self')
            → g self' ≡ f process (event_id e) (g self))
        → (events : List (ProcessState × ℕ)) (self self' : TransactionHost A)
        → run felt_add read_script events self ≡ (ok tt, self')
        → g self' ≡ replay f events (g self)
    run-replay g f rule [] self self' h = ap (λ p. g p.1) (sym h)
    run-replay g f rule ((process, id) ∷ events) self self' h =
        let (_, fine, rest) = then_do-eq-ok (on_event felt_add read_script process id self) _ h in
        let next = (on_event felt_add read_script process id self).1 in
        let (e, is, _, handled) =
          on_event-handled felt_add read_script process id self next (ap (λ r. (r, next)) fine) in
        run-replay g f rule events next self' rest
        ∙ ap (replay f events)
            (rule e process self next handled ∙ ap (λ i. f process i (g self)) (sym is))

    -- The account's changes after a sequence of events that all succeed: the value of a slot in the
    -- delta is the last one that was written to the slot where it differed from the current one,
    -- or what it was before, and the nonce has grown by the increments, one after the other.
    pub run_replays :
        (events : List (ProcessState × ℕ)) (self self' : TransactionHost A)
        → run felt_add read_script events self ≡ (ok tt, self')
        → ((s : ℕ)
            → lookup s self'.account_delta.storage.values
              ≡ replay (slot_written s) events (lookup s self.account_delta.storage.values))
          × (self'.account_delta.nonce_delta
              ≡ replay (nonce_incremented felt_add) events self.account_delta.nonce_delta)
    run_replays events self self' h = (
      λ s. run-replay (slot_value s) (slot_written s) (handle_slot s) events self self' h,
      run-replay nonce_delta (nonce_incremented felt_add) handle_nonce events self self' h,
    )

-- ===== src/Transactions/Inputs/Laws.antt =====
-- What `TransactionInputs::new` accepts: objects/src/transaction/inputs.rs.
use miden_base.Base.{
  ℕ, ◌≡◌, ◌↔◌, refl, sym, ap, ◌∙◌, inl, inr, true, false, not, Option, none, some, arith, ◌==◌,
  ==_iff, Bool-cases, ok, map_err, map_err-eq-ok, >>=-eq-ok, reject_if, reject_if-eq-ok,
}
use miden_base.Base.Words.{Field, Word, word_eq, word_eq_iff}
use miden_base.Base.Hashing.{Hasher}
use miden_base.Base.Trees.{Smt}
use miden_base.Errors.{invalid_account_seed}
use miden_base.Accounts.Id.{id_new}
use miden_base.Accounts.Account.{Account, is_new}
use miden_base.Accounts.Storage as AccountStorage
use miden_base.Blocks.Header.{BlockHeader}
use miden_base.Blocks.Chain.{PartialMmr, ChainMmr, chain_length, peaks_hash}
use miden_base.Transactions.InputNotes.{InputNotes}
use miden_base.Transactions.Inputs.{
  MerklePaths, InputNote, TransactionInputs, check_seed, validate_account_seed, check_notes, new,
}
use miden_base.Transactions.Inputs.Included.{
  not-false, ok-injective, AllIncluded, check_notes_accepts,
}

not_different : (a b : ℕ) → not (a == b) ≡ false → a ≡ b
not_different a b h = ground arith

module _ ⦃F : Field⦄ ⦃H : Hasher⦄ where
  module _ ⦃S : Smt⦄ where
    -- A new account comes with a seed that gives its identifier, an existing one with none.
    abbrev pub SeedFits : Account S.Tree → Option Word → Type 0
    SeedFits account none = is_new account ≡ false
    SeedFits account (some seed) =
        (is_new account ≡ true)
        × (id_new H.hash_elements seed account.code.commitment
              (AccountStorage.commitment H.hash_elements account.storage)
            ≡ ok account.id)

    check_seed_accepts :
        (account : Account S.Tree) (seed : Word)
        → (check_seed account seed ≡ ok tt) ↔ (
            id_new H.hash_elements seed account.code.commitment
              (AccountStorage.commitment H.hash_elements account.storage)
            ≡ ok account.id)
    unfolding check_seed
    check_seed_accepts account seed = (
      λ h.
          let made =
            id_new H.hash_elements seed account.code.commitment
              (AccountStorage.commitment H.hash_elements account.storage) in
          let (id, e, checked) = >>=-eq-ok (map_err invalid_account_seed made) _ h in
          let equal : id ≡ account.id =
            not_different id account.id (reject_if-eq-ok (not (id == account.id)) _ checked) in
          map_err-eq-ok invalid_account_seed made e ∙ ap (λ i. ok i) equal,
      λ e. rw e (ground arith),
    )

    pub validate_account_seed_accepts :
        (account : Account S.Tree) (seed : Option Word)
        → (validate_account_seed account seed ≡ ok tt) ↔ SeedFits account seed
    unfolding validate_account_seed
    validate_account_seed_accepts account none = elim (Bool-cases (is_new account)) [
      | inl fresh ↦ (λ h. absurd (ground (arith, h, fresh)), λ h. absurd (cc (h, fresh)))
      | inr old ↦ (λ h. old, λ h. rw old refl)
    ]
    validate_account_seed_accepts account (some seed) = elim (Bool-cases (is_new account)) [
      | inl fresh ↦ (
        λ h. (fresh, (check_seed_accepts account seed).0 (rw fresh at h)),
        λ (_, e). rw fresh ((check_seed_accepts account seed).1 e),
      )
      | inr old ↦ (λ h. absurd (ground (arith, h, old)), λ h. absurd (cc (h.0, old)))
    ]

  module _ ⦃P : MerklePaths⦄ ⦃M : PartialMmr⦄ ⦃S : Smt⦄ where
    -- `new` succeeds exactly if the seed fits the account, the chain has as many blocks as the
    -- number of the reference block and the root that its header names, and every authenticated
    -- note is in the note tree of its block, by the reference block or a header of the chain; what
    -- it returns is what it was given.
    pub transaction_inputs_new_accepts :
        (account : Account S.Tree) (seed : Option Word) (header : BlockHeader)
        (chain : ChainMmr M.Mmr) (notes : InputNotes (InputNote P.MerklePath))
        (r : TransactionInputs S.Tree M.Mmr P.MerklePath)
        → (new account seed header chain notes ≡ ok r) ↔ (
            SeedFits account seed
            × (chain_length chain ≡ header.block_num)
            × (peaks_hash chain ≡ header.chain_root)
            × AllIncluded header chain notes.notes
            × (r ≡ record {
              account = account;
              account_seed = seed;
              block_header = header;
              block_chain = chain;
              input_notes = notes;
            }))
    unfolding new
    transaction_inputs_new_accepts account seed header chain notes r = (
      λ h.
          let (_, fits, h1) = >>=-eq-ok (validate_account_seed account seed) _ h in
          let (_, length, h2) =
            >>=-eq-ok (reject_if (not (chain_length chain == header.block_num)) _) _ h1 in
          let (_, root, h3) =
            >>=-eq-ok (reject_if (not (word_eq (peaks_hash chain) header.chain_root)) _) _ h2 in
          let (_, included, is) = >>=-eq-ok (check_notes header chain notes.notes) _ h3 in
          (
            (validate_account_seed_accepts account seed).0 fits,
            not_different (chain_length chain) header.block_num (reject_if-eq-ok _ _ length),
            (word_eq_iff (peaks_hash chain) header.chain_root).0
                (not-false (reject_if-eq-ok _ _ root)),
            (check_notes_accepts header chain notes.notes).0 included,
            sym (ok-injective is),
          ),
      λ (fits, length, root, included, is).
          let seed_checked = (validate_account_seed_accepts account seed).1 fits in
          let same_root = (word_eq_iff (peaks_hash chain) header.chain_root).1 root in
          let same_length : (chain_length chain == header.block_num) ≡ true =
            (==_iff (chain_length chain) header.block_num).1 length in
          let notes_checked = (check_notes_accepts header chain notes.notes).1 included in
          rw (seed_checked, same_length, same_root, notes_checked, is) refl,
    )

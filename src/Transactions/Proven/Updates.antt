-- ===== src/Transactions/Proven/Updates.antt =====
-- Which account updates a proven transaction may have: objects/src/transaction/proven_tx.rs.
use miden_base.Base.{
  ℕ, ◌≤◌, ◌≡◌, ◌≢◌, ◌↔◌, ◌⊎◌, refl, sym, inl, inr, Bool, true, false, not, arith, ltb, ◌==◌, ==_iff,
  Bool-cases, Result, ok, err, panic, reject_if, reject_if-eq-ok, >>=-eq-ok,
}
use miden_base.Base.Words.{Field, Digest, empty_word, word_eq, word_eq_iff}
use miden_base.Base.Hashing.{Hasher}
use miden_base.Base.Trees.{Smt}
use miden_base.Errors.{AccountError, ProvenTransactionError}
use miden_base.Assets.Data.{AccountId}
use miden_base.Accounts.Id.{is_public}
use miden_base.Accounts.Account as Accounts
use miden_base.Accounts.Details.{AccountUpdateDetails}
use miden_base.Accounts.Details
use miden_base.Transactions.Inputs.Included.{not-false}
use miden_base.Transactions.Proven.{
  TxAccountUpdate, ProvenTransaction, is_private, account_update_max_size, or_panic, validate_size,
  check_details, check_update, validate,
}

not_above : {n : ℕ} → ltb account_update_max_size n ≡ false → n ≤ 32768
not_above h = ground arith

within : (n : ℕ) → n ≤ 32768 → ltb account_update_max_size n ≡ false
within n h = ground arith

or_panic-ok : (r : Result AccountError Bool) {b : Bool} → or_panic r ≡ ok b → r ≡ ok b
or_panic-ok (ok c) h = cc
or_panic-ok (err e) h = absurd (cc)
or_panic-ok panic h = absurd (cc)

ok-injective {ℓ} :
    {A : Type ℓ} {a b : A} → Path (Result ProvenTransactionError A) (ok a) (ok b) → a ≡ b
ok-injective h = cc

module _ ⦃F : Field⦄ ⦃H : Hasher⦄ where
  module _ ⦃S : Smt⦄ (get_size_hint : AccountUpdateDetails S.Tree → ℕ) where
    -- What the details of a public account must be.
    abbrev pub DetailsFit : AccountId → Digest → Digest → AccountUpdateDetails S.Tree → Type 0
    DetailsFit id init final Details.private = ⊥
    DetailsFit id init final (Details.new account) =
        (init ≡ empty_word) × (account.id ≡ id) × (Accounts.hash H.hash_elements account ≡ final)
    DetailsFit id init final (Details.delta _) = init ≢ empty_word

    -- A private account has no details; those of a public one are not too large and fit.
    abbrev pub UpdateFits : TxAccountUpdate S.Tree → Type 0
    UpdateFits update =
        ((is_public update.account_id ≡ ok false) × (update.details ≡ Details.private))
        ⊎ ((is_public update.account_id ≡ ok true)
            × (get_size_hint update.details ≤ 32768)
            × DetailsFit update.account_id update.init_state_hash update.final_state_hash
                update.details)

    check_details_accepts :
        (id : AccountId) (init final : Digest) (details : AccountUpdateDetails S.Tree)
        → (check_details get_size_hint (word_eq init empty_word) id final details ≡ ok tt)
          ↔ DetailsFit id init final details
    unfolding check_details
    check_details_accepts id init final Details.private = (λ h. absurd (cc (h)), λ h. absurd h)
    check_details_accepts id init final (Details.new account) = (
      λ h.
          let (_, fresh, h1) = >>=-eq-ok (reject_if (not (word_eq init empty_word)) _) _ h in
          let (_, same, final_hash) = >>=-eq-ok (reject_if (not (account.id == id)) _) _ h1 in
          (
            (word_eq_iff init empty_word).0 (not-false (reject_if-eq-ok _ _ fresh)),
            (==_iff account.id id).0 (not-false (reject_if-eq-ok _ _ same)),
            (word_eq_iff (Accounts.hash H.hash_elements account) final).0
                (not-false (reject_if-eq-ok _ _ final_hash)),
          ),
      λ (fresh, same, final_hash).
          rw
            (
              (word_eq_iff init empty_word).1 fresh,
              (==_iff account.id id).1 same,
              (word_eq_iff (Accounts.hash H.hash_elements account) final).1 final_hash,
            )
            refl,
    )
    check_details_accepts id init final (Details.delta d) = (
      λ h e. absurd (cc (reject_if-eq-ok _ _ h, (word_eq_iff init empty_word).1 e)),
      λ h. elim (Bool-cases (word_eq init empty_word)) [
        | inl same ↦ absurd (h ((word_eq_iff init empty_word).0 same))
        | inr other ↦ rw other refl
      ],
    )

    private_details :
        (details : AccountUpdateDetails S.Tree)
        → is_private details ≡ true
        → details ≡ Details.private
    private_details Details.private h = refl
    private_details (Details.new account) h = absurd (cc)
    private_details (Details.delta d) h = absurd (cc)

    -- A private account passes without details, a public one with details that fit.
    pub check_update_accepts :
        (update : TxAccountUpdate S.Tree)
        → ((b : Bool) × (is_public update.account_id ≡ ok b)
            × (check_update get_size_hint update b ≡ ok tt))
          ↔ UpdateFits update
    unfolding check_update
    check_update_accepts update = (
      λ (b, is, h).
          elim b
              as (λ c.
                is_public update.account_id ≡ ok c
                → check_update get_size_hint update c ≡ ok tt
                → UpdateFits update) [
                  | true ↦ λ e k.
                      let (_, small, fits) = >>=-eq-ok (validate_size get_size_hint update) _ k in
                      inr (
                        e,
                        not_above (reject_if-eq-ok _ _ small),
                        (check_details_accepts update.account_id update.init_state_hash
                              update.final_state_hash update.details).0
                            fits,
                      )
                  | false ↦ λ e k.
                      inl (e, private_details update.details (not-false (reject_if-eq-ok _ _ k)))
                ]
            is h,
      λ fits. elim fits [
        | inl (e, none_given) ↦ (false, e, rw none_given refl)
        | inr (e, small, fit) ↦ (
          true,
          e,
          rw (within (get_size_hint update.details) small) (
              (check_details_accepts update.account_id update.init_state_hash
                  update.final_state_hash update.details).1
                fit),
        )
      ],
    )

    pub validate_lem :
        {Proof : Type 0} (tx r : ProvenTransaction S.Tree Proof)
        → (validate get_size_hint tx ≡ ok r) ↔ (UpdateFits tx.account_update × (r ≡ tx))
    unfolding validate
    validate_lem tx r = (
      λ h.
          let (b, is, h1) = >>=-eq-ok (or_panic (is_public tx.account_update.account_id)) _ h in
          let (_, checked, same) =
            >>=-eq-ok (check_update get_size_hint tx.account_update b) _ h1 in
          (
            (check_update_accepts tx.account_update).0 (b, or_panic-ok _ is, checked),
            sym (ok-injective same),
          ),
      λ (fits, same).
          let (b, is, checked) = (check_update_accepts tx.account_update).1 fits in
          rw (is, checked, same) refl,
    )

-- ===== src/Accounts/Seed/Laws.antt =====
-- What the search for a seed finds: objects/src/accounts/seed.rs.
use miden_base.Base.{
  ℕ, zero, suc, ◌≡◌, ◌≢◌, ◌<◌, ◌↔◌, ◌⊎◌, inl, inr, refl, sym, ap, ◌∙◌, Bool, true, false,
  Bool-cases, some, List, arith, Result, ok, err, panic, ok_injective,
}
use miden_base.Base.Words.{Field, Word, Digest}
use miden_base.Base.Hashing.{Hasher}
use miden_base.Errors.{AccountError}
use miden_base.Assets.Data.{AccountId}
use miden_base.Accounts.Kinds.{
  AccountType, AccountStorageMode, type_eq, type_code-injective, mode_eq,
}
use miden_base.Accounts.Id.{
  account_type, storage_mode, account_id_from_felt, validate_seed_digest, compute_digest, id_new,
}
use miden_base.Accounts.Id.Laws.{storage_mode_total}
use miden_base.Accounts.Seed.{
  has_kind, is_suitable, digest_of, search, get_account_seed, first_seed,
}

type_eq_iff : (a b : AccountType) → (type_eq a b ≡ true) ↔ (a ≡ b)
type_eq_iff a b = (λ h. type_code-injective a b (ground arith), λ h. ground arith)

mode_eq_iff : (a b : AccountStorageMode) → (mode_eq a b ≡ true) ↔ (a ≡ b)
mode_eq_iff a b = (λ h. ground arith, λ h. ground arith)

-- The comparison of an identifier that passed validation has an answer, and it is the right one.
has_kind_lem :
    (type : AccountType) (mode : AccountStorageMode) (v id : ℕ)
    → account_id_from_felt v ≡ ok id
    → ((has_kind type mode id ≡ ok true) × (account_type id ≡ type) × (storage_mode id ≡ ok mode))
      ⊎ ((has_kind type mode id ≡ ok false)
          × ¬ ((account_type id ≡ type) × (storage_mode id ≡ ok mode)))
has_kind_lem type mode v id h =
    let (found, e, _) = storage_mode_total v id h in
    elim (Bool-cases (type_eq (account_type id) type)) [
      | inr other ↦
          inr
            (rw other refl, λ (is, _). false≢true other ((type_eq_iff (account_type id) type).1 is))
      | inl same ↦
          let is = (type_eq_iff (account_type id) type).0 same in
          elim (Bool-cases (mode_eq found mode)) [
            | inl eq ↦ inl (rw (same, e, eq) refl, is, e ∙ ap ok ((mode_eq_iff found mode).0 eq))
            | inr other ↦ inr (
              rw (same, e, other) refl,
              λ (_, e'). false≢true other ((mode_eq_iff found mode).1 (ok_injective (sym e ∙ e'))),
            )
          ]
    ]
  where
    false≢true : {b : Bool} → b ≡ false → b ≢ true
    false≢true f t = ground arith

validate_no_panic : (d : Digest) → validate_seed_digest d ≢ panic
unfolding validate_seed_digest
validate_no_panic d h = ground arith

from_felt_no_panic : (v : ℕ) → account_id_from_felt v ≢ panic
unfolding account_id_from_felt
from_felt_no_panic v h = ground arith

module _ ⦃H : Hasher⦄ (type : AccountType) (mode : AccountStorageMode)
    (code_commitment storage_commitment : Digest) where
  -- A seed that gives an identifier of the type and the mode.
  abbrev pub IsSuitable : Word → Type 0
  IsSuitable seed =
      (id : AccountId) × (id_new H.hash_elements seed code_commitment storage_commitment ≡ ok id)
      × (account_type id ≡ type)
      × (storage_mode id ≡ ok mode)

  -- The seeds that the loop tries: the digest of a seed is the next one.
  abbrev pub seed_at : ℕ → Word → Word
  seed_at zero seed = seed
  seed_at (suc n) seed = seed_at n (digest_of code_commitment storage_commitment seed)

  is_suitable_lem :
      (seed : Word)
      → ((is_suitable type mode (digest_of code_commitment storage_commitment seed) ≡ ok true)
          × IsSuitable seed)
        ⊎ ((is_suitable type mode (digest_of code_commitment storage_commitment seed) ≡ ok false)
            × ¬ IsSuitable seed)
  unfolding is_suitable id_new compute_digest
  is_suitable_lem seed = go _ refl _ refl
    where
      digest : Digest
      digest = digest_of code_commitment storage_commitment seed

      err≢ok :
          {A : Type 0} {x : AccountError} {a : A} → ◌≢◌ {A = Result AccountError A} (err x) (ok a)
      err≢ok h = cc

      go :
          (r : Result AccountError (Unit {0}))
          → validate_seed_digest digest ≡ r
          → (q : Result AccountError AccountId) → account_id_from_felt digest.e0 ≡ q
          → ((is_suitable type mode digest ≡ ok true) × IsSuitable seed)
            ⊎ ((is_suitable type mode digest ≡ ok false) × ¬ IsSuitable seed)
      go panic e q e' = absurd (validate_no_panic digest e)
      go r e panic e' = absurd (from_felt_no_panic digest.e0 e')
      go (err x) e q e' = inr (rw e refl, λ (id, h, _, _). absurd (err≢ok (rw e at h)))
      go (ok _) e (err y) e' =
          inr (rw (e, e') refl, λ (id, h, _, _). absurd (err≢ok (rw (e, e') at h)))
      go (ok _) e (ok id) e' = elim (has_kind_lem type mode digest.e0 id e') [
        | inl (h, is, has) ↦ inl (rw (e, e') h, (id, rw (e, e') refl, is, has))
        | inr (h, differ) ↦ inr (
          rw (e, e') h,
          λ (id', h', is, has).
              let same : id ≡ id' = ok_injective (rw (e, e') at h') in
              differ (rw same is, rw same has),
        )
      ]

  search-ok :
      (fuel : ℕ) (seed : Word) (k : ℕ)
      → k < fuel
      → IsSuitable (seed_at k seed)
      → ((j : ℕ) → j < k → ¬ IsSuitable (seed_at j seed))
      → search type mode code_commitment storage_commitment fuel seed ≡ some (ok (seed_at k seed))
  unfolding search
  search-ok zero seed k h good none_before = absurd (omega (arith, h))
  search-ok (suc fuel) seed zero h good none_before = elim (is_suitable_lem seed) [
    | inl (e, _) ↦ rw e refl
    | inr (_, bad) ↦ absurd (bad good)
  ]
  search-ok (suc fuel) seed (suc k) h good none_before = elim (is_suitable_lem seed) [
    | inl (_, found) ↦ absurd (none_before 0 (omega arith) found)
    | inr (e, _) ↦ rw e (
        search-ok fuel (digest_of code_commitment storage_commitment seed) k (omega (arith, h)) good
          (λ j before. none_before (suc j) (omega (arith, before))))
  ]

  search-result :
      (fuel : ℕ) (seed : Word) (r : Result AccountError Word)
      → search type mode code_commitment storage_commitment fuel seed ≡ some r
      → (k : ℕ) × (k < fuel)
        × (r ≡ ok (seed_at k seed))
        × IsSuitable (seed_at k seed)
        × ((j : ℕ) → j < k → ¬ IsSuitable (seed_at j seed))
  unfolding search
  search-result zero seed r h = absurd (cc)
  search-result (suc fuel) seed r h = elim (is_suitable_lem seed) [
    | inl (e, found) ↦
        (0, omega arith, returned (rw e at h), found, λ j before. absurd (omega (arith, before)))
    | inr (e, bad) ↦
        let (k, small, is, good, none_before) =
          search-result fuel (digest_of code_commitment storage_commitment seed) r (rw e at h) in
        (suc k, omega (arith, small), is, good, later bad none_before)
  ]
    where
      returned : {a b : Result AccountError Word} → some a ≡ some b → b ≡ a
      returned h = cc

      later :
          {k : ℕ}
          → ¬ IsSuitable seed
          → ((j : ℕ) → j < k → ¬ IsSuitable (seed_at (suc j) seed))
          → (j : ℕ) → j < suc k
          → ¬ IsSuitable (seed_at j seed)
      later bad none_before zero before = bad
      later bad none_before (suc j) before = none_before j (omega (arith, before))

  -- The search returns a seed exactly when its fuel reaches the first suitable one, and then it
  -- returns that one. It never fails.
  pub get_account_seed_lem :
      ⦃F : Field⦄
      → (fuel : ℕ) (init_seed : List ℕ) (r : Result AccountError Word)
      → (get_account_seed type mode code_commitment storage_commitment fuel init_seed ≡ some r) ↔ (
          (k : ℕ) × (k < fuel)
          × (r ≡ ok (seed_at k (first_seed init_seed)))
          × IsSuitable (seed_at k (first_seed init_seed))
          × ((j : ℕ) → j < k → ¬ IsSuitable (seed_at j (first_seed init_seed))))
  unfolding get_account_seed
  get_account_seed_lem fuel init_seed r = (
    search-result fuel (first_seed init_seed) r,
    λ (k, small, is, good, none_before).
        search-ok fuel (first_seed init_seed) k small good none_before ∙ ap some (sym is),
  )

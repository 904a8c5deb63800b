-- ===== src/Accounts/Builder/Laws.antt =====
-- What holds of the accounts that are built: objects/src/accounts/builder/mod.rs.
use miden_base.Base.{
  some_injective, ℕ, ◌≡◌, ◌≢◌, ◌∙◌, refl, sym, ap, subst, true, Option, none, some, List, arith,
  Result, ok, err, panic, map_err, >>=-eq-ok, ok_or, map_err-eq-ok, ok_injective, ◌==◌,
}
use miden_base.Base.Words.{Felt, Field, Word, Digest}
use miden_base.Base.Hashing.{Hasher}
use miden_base.Base.Trees.{Smt}
use miden_base.Errors.{AccountError, init_seed_not_set, build_error}
use miden_base.Assets.Data.{AccountId}
use miden_base.Accounts.Id.{account_type, storage_mode, id_new}
use miden_base.Accounts.Storage as AccountStorage
use miden_base.Accounts.Code.{AccountCode}
use miden_base.Accounts.Account.{Account, is_new}
use miden_base.Accounts.Component.{initialize_from_components}
use miden_base.Accounts.Seed.Laws.{get_account_seed_lem}
use miden_base.Accounts.Builder.{
  AccountBuilder, with_id, with_found, build_inner, grind_account_id, from_parts, build_with, build,
}
use miden_base.Transactions.Inputs.{validate_account_seed, check_seed}

no_result : {X : Type 0} {x : X} → ◌≢◌ {A = Option X} none (some x)
no_result h = cc

module _ ⦃F : Field⦄ ⦃H : Hasher⦄ ⦃S : Smt⦄ where
  with_found-some :
      (code_commitment storage_commitment : Digest) (o : Option (Result AccountError Word))
      {r : Result AccountError (AccountId × Word)}
      → with_found code_commitment storage_commitment o ≡ some r
      → (q : Result AccountError Word) × (o ≡ some q)
        × (r ≡ with_id code_commitment storage_commitment q)
  with_found-some code_commitment storage_commitment none h = absurd (no_result h)
  with_found-some code_commitment storage_commitment (some q) h = (q, refl, sym (some_injective h))

  -- The identifier that is found has the type and the mode of the builder, and its seed gives it.
  grind_account_id_lem :
      (fuel : ℕ) (self : AccountBuilder S.Tree) (init_seed : List ℕ)
      (code_commitment storage_commitment : Digest) {id : AccountId} {seed : Word}
      → grind_account_id fuel self init_seed code_commitment storage_commitment
        ≡ some (ok (id, seed))
      → (id_new H.hash_elements seed code_commitment storage_commitment ≡ ok id)
        × (account_type id ≡ self.account_type)
        × (storage_mode id ≡ ok self.storage_mode)
  unfolding grind_account_id with_id
  grind_account_id_lem fuel self init_seed code_commitment storage_commitment h =
      let (q, e, is) = with_found-some code_commitment storage_commitment _ h in
      let (_, _, found, (_, made, type, mode), _) =
        (get_account_seed_lem self.account_type self.storage_mode code_commitment storage_commitment
            fuel init_seed q).0
          e in
      subst
        (λ p.
          (id_new H.hash_elements p.1 code_commitment storage_commitment ≡ ok p.0)
          × (account_type p.0 ≡ self.account_type)
          × (storage_mode p.0 ≡ ok self.storage_mode))
        (sym (ok_injective (is ∙ identified q found made))) (made, type, mode)
    where
      identified :
          {seed : Word} {id : AccountId} (q : Result AccountError Word)
          → q ≡ ok seed
          → id_new H.hash_elements seed code_commitment storage_commitment ≡ ok id
          → with_id code_commitment storage_commitment q ≡ ok (id, seed)
      identified q found made = rw (found, made) refl

  -- A seed that gives the identifier of a new account is one that its first transaction accepts.
  seed_accepted :
      (account : Account S.Tree) (seed : Word)
      → account.nonce ≡ 0
      → id_new H.hash_elements seed account.code.commitment
          (AccountStorage.commitment H.hash_elements account.storage)
        ≡ ok account.id
      → validate_account_seed account (some seed) ≡ ok tt
  unfolding validate_account_seed is_new check_seed
  seed_accepted account seed zero_nonce made =
      let same : (account.id == account.id) ≡ true = ground arith in
      rw (zero_nonce, made, same) refl

  -- What a build is made of.
  from_parts-some :
      (nonce : Felt) (vault : S.Tree) (code : AccountCode) (storage : AccountStorage.AccountStorage)
      (o : Option (Result AccountError (AccountId × Word))) {account : Account S.Tree} {seed : Word}
      → from_parts nonce vault code storage o ≡ some (ok (account, seed))
      → (id : AccountId) × (o ≡ some (ok (id, seed)))
        × (account
            ≡ record { id = id; vault = vault; storage = storage; code = code; nonce = nonce })
  from_parts-some nonce vault code storage none h = absurd (no_result h)
  from_parts-some nonce vault code storage (some r) h =
      let ((id, found), e, made) = >>=-eq-ok r _ (some_injective h) in
      let pair = ok_injective made in
      (id, ap some (e ∙ ap (λ s. ok (id, s)) (ap (λ p. p.1) pair)), sym (ap (λ p. p.0) pair))

  build_inner-ok :
      (self : AccountBuilder S.Tree) {init_seed : List ℕ} {vault : S.Tree} {code : AccountCode}
      {storage : AccountStorage.AccountStorage}
      → build_inner self ≡ ok (init_seed, vault, code, storage)
      → (vault ≡ S.new)
        × (initialize_from_components H.hash_elements self.account_type self.components
            ≡ ok (code, storage))
  unfolding build_inner
  build_inner-ok self h =
      let (_, _, rest) = >>=-eq-ok (ok_or self.init_seed init_seed_not_set) _ h in
      let (_, made, parts) =
        >>=-eq-ok
          (map_err build_error
            (initialize_from_components H.hash_elements self.account_type self.components))
          _ rest in
      let same = ok_injective parts in
      (sym (ap (λ p. p.1) same), map_err-eq-ok build_error _ made ∙ ap (λ p. ok (p.2, p.3)) same)

  -- A new account of the type and the mode of the builder, with an empty vault and the code and the
  -- storage of the components, whose seed is the one that its first transaction asks for.
  abbrev pub IsNewAccount : AccountBuilder S.Tree → Account S.Tree → Word → Type 0
  IsNewAccount self account seed =
      (account_type account.id ≡ self.account_type)
      × (storage_mode account.id ≡ ok self.storage_mode)
      × (account.vault ≡ S.new)
      × (account.nonce ≡ 0)
      × (initialize_from_components H.hash_elements self.account_type self.components
          ≡ ok (account.code, account.storage))
      × (validate_account_seed account (some seed) ≡ ok tt)

  -- What is built without the nonce of an existing account is a new account of the type and the
  -- storage mode that were asked for, with an empty vault, the nonce 0 and the code and the storage
  -- of the components, and the seed check of the inputs of a transaction accepts it with its seed.
  pub build-IsNewAccount :
      (fuel : ℕ) (self : AccountBuilder S.Tree) (account : Account S.Tree) (seed : Word)
      → self.nonce ≡ 0
      → build fuel self ≡ some (ok (account, seed))
      → IsNewAccount self account seed
  unfolding build
  build-IsNewAccount fuel self account seed zero_nonce h = go (build_inner self) refl h
    where
      go :
          (r : Result AccountError (List ℕ × S.Tree × AccountCode × AccountStorage.AccountStorage))
          → build_inner self ≡ r
          → build_with fuel self r ≡ some (ok (account, seed))
          → IsNewAccount self account seed
      go (err x) e h = absurd (cc)
      go panic e h = absurd (cc)
      go (ok (init_seed, vault, code, storage)) e h =
          let (id, found, is) = from_parts-some self.nonce vault code storage _ h in
          let (made, type, mode) =
            grind_account_id_lem fuel self init_seed code.commitment
              (AccountStorage.commitment H.hash_elements storage) found in
          subst (λ a. IsNewAccount self a seed) (sym is)
            (
              type,
              mode,
              (build_inner-ok self e).0,
              zero_nonce,
              (build_inner-ok self e).1,
              seed_accepted _ seed zero_nonce made,
            )

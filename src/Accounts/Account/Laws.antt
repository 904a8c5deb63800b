-- ===== src/Accounts/Account/Laws.antt =====
-- What holds of accounts: objects/src/accounts/mod.rs.
use miden_base.Base.{
  ◌≤◌, ◌<◌, ◌≡◌, refl, sym, ap, ◌∙◌, inl, inr, Option, none, some, arith, leb, Bool-cases, Result,
  ok, err, panic, map_err, then_do, then_do-eq-ok,
}
use miden_base.Base.Words.{Felt, Field}
use miden_base.Base.Trees.{Smt}
use miden_base.Errors.{AccountError, AssetVaultError}
use miden_base.Accounts.Storage as AccountStorage
use miden_base.Vault as Vaults
use miden_base.Delta.Account.{AccountDelta}
use miden_base.Accounts.Account.{
  Account, set_nonce, update_vault, update_storage, update_nonce, apply_delta,
}

module _ ⦃F : Field⦄ ⦃S : Smt⦄ where
  -- What stays of an account, and that the nonce does not go back.
  pub record Keeps (a b : Account S.Tree) : Type 0 where
    pub id : b.id ≡ a.id
    pub code : b.code ≡ a.code
    pub nonce : a.nonce ≤ b.nonce

  update_nonce-Keeps : (n : Option Felt) (a : Account S.Tree) → Keeps a (update_nonce n a).1
  unfolding set_nonce
  update_nonce-Keeps none a = record { id = refl; code = refl; nonce = omega arith }
  update_nonce-Keeps (some n) a = elim (Bool-cases (leb n a.nonce)) [
    | inl low ↦ rw low (record { id = refl; code = refl; nonce = omega arith })
    | inr high ↦ rw high (record { id = refl; code = refl; nonce = ground arith })
  ]

  Keeps-trans : (a b c : Account S.Tree) → Keeps a b → Keeps b c → Keeps a c
  Keeps-trans a b c h k = record {
    id = k.id ∙ h.id;
    code = k.code ∙ h.code;
    nonce = omega (arith, h.nonce, k.nonce);
  }

  then-Keeps :
      (a : Account S.Tree) (p : Result AccountError (Unit {0}) × Account S.Tree)
      (f : Unit {0} → Account S.Tree → Result AccountError (Unit {0}) × Account S.Tree)
      → Keeps a p.1
      → Keeps p.1 (f tt p.1).1
      → Keeps a (then_do p f).1
  then-Keeps a (ok tt, b) f h k = Keeps-trans a b (f tt b).1 h k
  then-Keeps a (err e, b) f h k = h
  then-Keeps a (panic, b) f h k = h

  -- No delta changes the ID or the code of an account or takes its nonce back, whatever the
  -- outcome.
  pub apply_delta-Keeps :
      (delta : AccountDelta) (a : Account S.Tree) → Keeps a (apply_delta delta a).1
  unfolding apply_delta
  apply_delta-Keeps delta a =
      let b = (update_vault delta a).1 in
      let c = (update_storage delta b).1 in
      then-Keeps a (update_vault delta a) _ (record { id = refl; code = refl; nonce = omega arith })
        (then-Keeps b (update_storage delta b) _
          (record { id = refl; code = refl; nonce = omega arith })
          (update_nonce-Keeps delta.nonce c))

  map_err-ok :
      (r : Result AssetVaultError (Unit {0})) (f : AssetVaultError → AccountError)
      → map_err f r ≡ ok tt
      → r ≡ ok tt
  map_err-ok (ok tt) f h = refl
  map_err-ok (err e) f h = absurd (cc)
  map_err-ok panic f h = absurd (cc)

  update_nonce-ok :
      (n : Option Felt) (a b : Account S.Tree)
      → update_nonce n a ≡ (ok tt, b)
      → (b.vault ≡ a.vault)
        × (b.storage ≡ a.storage)
        × (b.nonce ≡ (elim n [ none ↦ a.nonce | some k ↦ k ]))
        × ((k : Felt) → n ≡ some k → a.nonce < k)
  unfolding set_nonce
  update_nonce-ok none a b h =
      let e : a ≡ b = ap (λ p. p.1) h in
      (
        ap (λ (x : Account S.Tree). x.vault) (sym e),
        ap (λ (x : Account S.Tree). x.storage) (sym e),
        ap (λ (x : Account S.Tree). x.nonce) (sym e),
        λ k f. absurd (cc),
      )
  update_nonce-ok (some n) a b h = elim (Bool-cases (leb n a.nonce)) [
    | inl low ↦ absurd (ground arith)
    | inr high ↦
        let e : record a { nonce = n } ≡ b = ground arith in
        (
          ap (λ (x : Account S.Tree). x.vault) (sym e),
          ap (λ (x : Account S.Tree). x.storage) (sym e),
          ap (λ (x : Account S.Tree). x.nonce) (sym e),
          λ k f. ground arith,
        )
  ]

  -- A delta that is applied to an account without an error has applied its vault part to the vault
  -- and its storage part to the storage without an error; the nonce is the new one, if there is
  -- one, and the new one is larger than the old one.
  pub apply_delta-ok :
      (delta : AccountDelta) (a b : Account S.Tree)
      → apply_delta delta a ≡ (ok tt, b)
      → (Vaults.Updates.apply_delta delta.vault a.vault ≡ (ok tt, b.vault))
        × (AccountStorage.apply_delta delta.storage a.storage ≡ (ok tt, b.storage))
        × (b.nonce ≡ (elim delta.nonce [ none ↦ a.nonce | some k ↦ k ]))
        × ((k : Felt) → delta.nonce ≡ some k → a.nonce < k)
  unfolding apply_delta
  apply_delta-ok delta a b h =
      let (_, first, rest) = then_do-eq-ok (update_vault delta a) _ h in
      let a' = (update_vault delta a).1 in
      let (_, second, last) = then_do-eq-ok (update_storage delta a') _ rest in
      let (vault, storage, nonce, grows) =
        update_nonce-ok delta.nonce (update_storage delta a').1 b last in
      (pair (map_err-ok _ _ first) (sym vault), pair second (sym storage), nonce, grows)
    where
      pair : {A B : Type 0} {p : A × B} {x : A} {y : B} → p.0 ≡ x → p.1 ≡ y → p ≡ (x, y)
      pair e f = cc

-- ===== src/Host/Signatures/Laws.antt =====
-- Where the signatures of a transaction come from: miden-tx/src/host/mod.rs.
use miden_base.Base.{
  ◌≡◌, refl, sym, ap, ◌∙◌, List, [], ◌∷◌, Option, none, some, inl, inr, ◌⊎◌, Result, ok, err, panic,
  ok_or, expect_ok, then_do-eq-ok, then_do-keeps, >>=-eq-ok, ok_injective,
}
use miden_base.Base.Words.{Felt, Word, Digest}
use miden_base.Base.Maps.{Key, insert}
use miden_base.Base.Hashing.{Hasher}
use miden_base.Delta.Account.{AccountDelta}
use miden_base.Delta.Tracker as Tracker
use miden_base.Kernel.Errors.{ExecutionError}
use miden_base.Host.Process.{ProcessState, AdviceProvider}
use miden_base.Host.State.{TransactionHost, TransactionAuthenticator}
use miden_base.Host.Signatures.{
  push_values, push_value, sign, signature_key, generate, answer, on_signature_requested,
}

ok_or-eq-ok : {E A : Type 0} (o : Option A) (e : E) {a : A} → ok_or o e ≡ ok a → o ≡ some a
ok_or-eq-ok none e h = absurd (cc)
ok_or-eq-ok (some a) e h = ap some (ok_injective h)

expect_ok-eq-ok :
    {E F A : Type 0} (r : Result E A) {a : A} → ◌≡◌ {A = Result F A} (expect_ok r) (ok a) → r ≡ ok a
expect_ok-eq-ok (ok b) h = ap ok (ok_injective h)
expect_ok-eq-ok (err e) h = absurd (cc)
expect_ok-eq-ok panic h = absurd (cc)

sign-eq-ok :
    (authenticator : Option TransactionAuthenticator) (pub_key msg : Word) (delta : AccountDelta)
    {signature : List Felt}
    → sign authenticator pub_key msg delta ≡ ok signature
    → (get_signature : TransactionAuthenticator) × (authenticator ≡ some get_signature)
      × (get_signature pub_key msg delta ≡ some signature)
unfolding sign
sign-eq-ok none pub_key msg delta h = absurd (cc)
sign-eq-ok (some f) pub_key msg delta h = (f, refl, ok_or-eq-ok (f pub_key msg delta) _ h)

module _ {A : Type 0} ⦃P : AdviceProvider A⦄ where
  push_values-keeps :
      {X : Type 0} (g : TransactionHost A → X)
      → ((self : TransactionHost A) (adv : A) → g (record self { adv_provider = adv }) ≡ g self)
      → (vs : List Felt) (self : TransactionHost A) → g (push_values vs self).1 ≡ g self
  unfolding push_values
  push_values-keeps g keeps [] self = refl
  push_values-keeps g keeps (v ∷ vs) self =
      then_do-keeps g (push_value v self).0 (push_value v self).1 (λ _ s. push_values vs s)
        (λ _. push_values-keeps g keeps vs (push_value v self).1)
      ∙ keeps self (push_value v self).1.adv_provider

  -- The second advice provider is the first one after the values are pushed, each without an error,
  -- from the first of the list to the last.
  abbrev pub Pushed : List Felt → A → A → Type 0
  Pushed [] before after = after ≡ before
  Pushed (v ∷ vs) before after =
      (next : A) × (P.push_stack v before ≡ (ok tt, next)) × Pushed vs next after

  push_values-Pushed :
      (vs : List Felt) (self self' : TransactionHost A)
      → push_values vs self ≡ (ok tt, self')
      → Pushed vs self.adv_provider self'.adv_provider
  unfolding push_values
  push_values-Pushed [] self self' h = ap (λ p. p.1.adv_provider) (sym h)
  push_values-Pushed (v ∷ vs) self self' h =
      let (_, first, rest) = then_do-eq-ok (push_value v self) _ h in
      (
        (P.push_stack v self.adv_provider).1,
        pair first,
        push_values-Pushed vs (push_value v self).1 self' rest,
      )
    where
      pair : {p : Result ExecutionError (Unit {0}) × A} → p.0 ≡ ok tt → p ≡ (ok tt, p.1)
      pair e = cc

  module _ ⦃H : Hasher⦄ ⦃D : Key Digest⦄ (felt_add : Felt → Felt → Felt) where
    -- The signature is in the advice map: it is pushed on the advice stack, and none is recorded.
    abbrev pub Mapped : ProcessState → TransactionHost A → TransactionHost A → Type 0
    Mapped process self self' =
        (signature : List Felt) × (P.get_mapped_values self.adv_provider (signature_key process)
          ≡ some signature)
        × Pushed signature self.adv_provider self'.adv_provider
        × (self'.generated_signatures ≡ self.generated_signatures)

    -- The signature is not in the advice map: the authenticator gives it for the changes of the
    -- account so far, and it is pushed on the advice stack and recorded.
    abbrev pub Signed : ProcessState → TransactionHost A → TransactionHost A → Type 0
    Signed process self self' =
        (signature : List Felt) × (delta : AccountDelta)
        × (get_signature : TransactionAuthenticator) × (P.get_mapped_values self.adv_provider
              (signature_key process)
            ≡ none)
        × (Tracker.into_delta felt_add self.account_delta ≡ ok delta)
        × (self.authenticator ≡ some get_signature)
        × (get_signature (process.get_stack_word 0) (process.get_stack_word 1) delta
            ≡ some signature)
        × Pushed signature self.adv_provider self'.adv_provider
        × (self'.generated_signatures
            ≡ insert (signature_key process) signature self.generated_signatures)

    delta-answer :
        (process : ProcessState) (self : TransactionHost A) (o : Option (List Felt))
        → (answer felt_add process o self).1.account_delta ≡ self.account_delta
    unfolding answer
    delta-answer process self (some signature) =
        push_values-keeps (λ s. s.account_delta) (λ s adv. refl) signature self
    delta-answer process self none =
        then_do-keeps (λ (s : TransactionHost A). s.account_delta) (generate felt_add process self)
          self _ (λ signature. push_values-keeps (λ s. s.account_delta) (λ s adv. refl) signature _)

    answered :
        (process : ProcessState) (self self' : TransactionHost A) (o : Option (List Felt))
        → P.get_mapped_values self.adv_provider (signature_key process) ≡ o
        → answer felt_add process o self ≡ (ok tt, self')
        → Mapped process self self' ⊎ Signed process self self'
    unfolding answer
    answered process self self' (some signature) found h = inl (
      signature,
      found,
      push_values-Pushed signature self self' h,
      ap (λ p. p.1.generated_signatures) (sym h)
          ∙ push_values-keeps (λ s. s.generated_signatures) (λ s adv. refl) signature self,
    )
    answered process self self' none missing h =
        let (signature, made, rest) = then_do-eq-ok (generate felt_add process self, self) _ h in
        let (delta, tracked, signed) =
          >>=-eq-ok (expect_ok (Tracker.into_delta felt_add self.account_delta)) _ made in
        let (get_signature, is, given) =
          sign-eq-ok self.authenticator (process.get_stack_word 0) (process.get_stack_word 1) delta
            signed in
        inr (
          signature,
          delta,
          get_signature,
          missing,
          expect_ok-eq-ok (Tracker.into_delta felt_add self.account_delta) tracked,
          is,
          given,
          push_values-Pushed signature _ self' rest,
          ap (λ p. p.1.generated_signatures) (sym rest)
              ∙ push_values-keeps (λ s. s.generated_signatures) (λ s adv. refl) signature _,
        )

    -- A request for a signature that succeeds pushes the elements of a signature on the advice stack,
    -- in their order and nothing else: that of the advice map, and then none is recorded, or, if the
    -- advice map has none, the authenticator's signature of the message and of the account's changes
    -- so far, which is recorded under its key. The changes of the account stay as they are.
    pub on_signature_requested_lem :
        (process : ProcessState) (self self' : TransactionHost A)
        → on_signature_requested felt_add process self ≡ (ok tt, self')
        → (self'.account_delta ≡ self.account_delta)
          × (Mapped process self self' ⊎ Signed process self self')
    unfolding on_signature_requested
    on_signature_requested_lem process self self' h = (
      ap (λ p. p.1.account_delta) (sym h)
          ∙ delta-answer process self
              (P.get_mapped_values self.adv_provider (signature_key process)),
      answered process self self' (P.get_mapped_values self.adv_provider (signature_key process))
          refl h,
    )

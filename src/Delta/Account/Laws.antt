-- ===== src/Delta/Account/Laws.antt =====
-- What holds of account deltas: objects/src/accounts/delta/mod.rs.
use miden_base.Base.{
  ℕ, ◌<◌, ◌≡◌, refl, sym, ap, subst, ◌∙◌, ◌≢◌, ◌↔◌, inl, inr, Bool, true, false, Option, none, some,
  List, [], ◌∷◌, arith, Bool-cases, Option-cases, Result, ok, then_do-eq-ok,
}
use mathlib.Core.Bool.{false≢true}
use miden_base.Base.Words.{Felt, Digest, Word}
use miden_base.Base.Maps.{Map, Key, extend}
use miden_base.Base.Maps.Sorted.{or_none}
use miden_base.Errors.{AccountDeltaError}
use miden_base.Assets.Data.{NonFungibleAsset}
use miden_base.Delta.Storage as StorageDelta
use miden_base.Delta.Vault as VaultDelta
use miden_base.Delta.Fungible as FungibleDelta
use miden_base.Delta.NonFungible as NonFungibleDelta
use miden_base.Delta.Account.{
  AccountDelta, validate_nonce, new, is_empty, merge_nonce, merge_with, merge, on_storage,
}

-- A delta that changes something has a nonce, and not 0.
abbrev pub IsValid : AccountDelta → Type 0
IsValid delta = is_empty delta ≡ false → (n : Felt) × (delta.nonce ≡ some n) × (n ≢ 0)

-- `new` accepts exactly the valid deltas.
delta_new_accepts :
    (s : StorageDelta.AccountStorageDelta) (v : VaultDelta.AccountVaultDelta) (nonce : Option Felt)
    → let delta : AccountDelta = record { storage = s; vault = v; nonce = nonce } in
      (new s v nonce ≡ ok delta) ↔ IsValid delta
unfolding new validate_nonce is_empty
delta_new_accepts s v none = (
  λ h k. absurd (ground arith),
  λ h. elim (Bool-cases (is_empty (record { storage = s; vault = v; nonce = none }))) [
    | inl empty ↦ ground arith
    | inr changed ↦ absurd (let (n, e, _) = h changed in cc)
  ],
)
delta_new_accepts s v (some n) = (
  λ h k. (n, refl, λ e. ground arith),
  λ h. elim (Bool-cases (is_empty (record { storage = s; vault = v; nonce = some n }))) [
    | inl empty ↦ ground arith
    | inr changed ↦
        let (m, e, nonzero) = h changed in
        let e' : n ≢ 0 = λ z. nonzero (ground arith) in ground arith
  ],
)

-- A delta that changes nothing.
abbrev unchanged : Option Felt → AccountDelta
unchanged nonce = record {
  storage = record { values = []; maps = [] };
  vault = record { fungible = []; non_fungible = [] };
  nonce = nonce;
}

nil_of {ℓ} :
    {A : Type ℓ} (test : List A → Bool) (xs : List A)
    → ((x : A) (ys : List A) → test (x ∷ ys) ≡ false)
    → test xs ≡ true
    → xs ≡ []
nil_of test [] f h = refl
nil_of test (x ∷ xs) f h = absurd (false≢true (sym (f x xs) ∙ h))

quad {ℓ} :
    {A B C D : Type ℓ} {a a' : A} {b b' : B} {c c' : C} {d d' : D}
    → a ≡ a'
    → b ≡ b'
    → c ≡ c'
    → d ≡ d'
    → Path (A × B × C × D) (a, b, c, d) (a', b', c', d')
quad e f g h = cc

is_empty→unchanged : (d : AccountDelta) → is_empty d ≡ true → d ≡ unchanged d.nonce
unfolding is_empty StorageDelta.is_empty VaultDelta.is_empty FungibleDelta.is_empty
    NonFungibleDelta.is_empty
is_empty→unchanged d h =
    ap
      (λ (p : Map ℕ Word
          × Map ℕ StorageDelta.StorageMapDelta
          × FungibleDelta.FungibleAssetDelta
          × NonFungibleDelta.NonFungibleAssetDelta).
        record {
          storage = record { values = p.0; maps = p.1 };
          vault = record { fungible = p.2; non_fungible = p.3 };
          nonce = d.nonce;
        })
      (quad (nil_of StorageDelta.is_empty_map d.storage.values (λ x xs. refl) (ground arith))
        (nil_of StorageDelta.is_empty_map d.storage.maps (λ x xs. refl) (ground arith))
        (nil_of FungibleDelta.is_empty d.vault.fungible (λ x xs. refl) (ground arith))
        (nil_of NonFungibleDelta.is_empty d.vault.non_fungible (λ x xs. refl) (ground arith)))

module _ ⦃D : Key Digest⦄ ⦃N : Key NonFungibleAsset⦄ where
  merge_unchanged :
      (o : Option (Option Felt)) (n k : Option Felt) (m : AccountDelta)
      → merge_with o (unchanged n) (unchanged k) ≡ (ok tt, m)
      → is_empty m ≡ true
  unfolding merge_with is_empty extend StorageDelta.merge_maps StorageDelta.validate
      StorageDelta.check_slots VaultDelta.merge NonFungibleDelta.merge FungibleDelta.merge
      NonFungibleDelta.is_empty FungibleDelta.is_empty StorageDelta.is_empty VaultDelta.is_empty
  merge_unchanged none n k m h = absurd (cc)
  merge_unchanged (some o) n k m h = ap (λ p. is_empty p.1) (sym h)

  pub merge_nonce_lem :
      (old new : Option Felt) (r : Option Felt)
      → merge_nonce old new ≡ some r
      → (r ≡ or_none new old) × ((a b : Felt) → old ≡ some a → new ≡ some b → a < b)
  unfolding merge_nonce
  merge_nonce_lem (some a) (some b) r h = (ground arith, λ x y e f. ground arith)
  merge_nonce_lem none (some b) r h = (ground arith, λ x y e f. absurd (cc))
  merge_nonce_lem none none r h = (ground arith, λ x y e f. absurd (cc))
  merge_nonce_lem (some a) none r h = (ground arith, λ x y e f. absurd (cc))

  pub merge_keeps_nonce :
      (o : Option (Option Felt)) (other self m : AccountDelta)
      → merge_with o other self ≡ (ok tt, m)
      → o ≡ some m.nonce
  unfolding merge_with
  merge_keeps_nonce none other self m h = absurd (cc)
  merge_keeps_nonce (some kept) other self m h =
      let (_, _, rest) =
        then_do-eq-ok
          (on_storage (StorageDelta.merge other.storage self.storage)
            (record self { nonce = kept }))
          _ h in
      ap (λ (p : Result AccountDeltaError (Unit {0}) × AccountDelta). some p.1.nonce) rest

  -- The merge of two valid deltas, if it succeeds, is valid: a delta that changes something has a
  -- nonce other than 0. Its nonce is that of the later delta, or of the earlier one if the later
  -- has none, and where both have one the later nonce is larger.
  pub merge-IsValid :
      (other self m : AccountDelta)
      → IsValid other
      → IsValid self
      → merge other self ≡ (ok tt, m)
      → IsValid m
        × (m.nonce ≡ or_none other.nonce self.nonce)
        × ((a b : Felt) → self.nonce ≡ some a → other.nonce ≡ some b → a < b)
  unfolding merge
  merge-IsValid other self m vo vs h =
      let kept = merge_keeps_nonce _ other self m h in
      let (nonce, grows) = merge_nonce_lem self.nonce other.nonce m.nonce kept in
      (valid nonce grows, nonce, grows)
    where
      valid :
          (m.nonce ≡ or_none other.nonce self.nonce)
          → ((a b : Felt) → self.nonce ≡ some a → other.nonce ≡ some b → a < b)
          → IsValid m
      valid nonce grows changed = elim (Bool-cases (is_empty other)) [
        | inr other_changed ↦
            let (b, e, nonzero) = vo other_changed in (b, nonce ∙ rw e refl, nonzero)
        | inl other_empty ↦ elim (Bool-cases (is_empty self)) [
          | inl self_empty ↦
              let still = merge_unchanged _ other.nonce self.nonce m (
                subst
                  (λ d.
                    merge_with (merge_nonce self.nonce other.nonce) d (unchanged self.nonce)
                    ≡ (ok tt, m))
                  (is_empty→unchanged other other_empty)
                  (subst (λ d. merge_with (merge_nonce self.nonce other.nonce) other d ≡ (ok tt, m))
                    (is_empty→unchanged self self_empty) h)) in
              absurd (false≢true (sym changed ∙ still))
          | inr self_changed ↦
              let (a, e, nonzero) = vs self_changed in
              elim (Option-cases other.nonce) [
                | inl nothing ↦ (a, nonce ∙ rw (nothing, e) refl, nonzero)
                | inr (b, there) ↦ (b, nonce ∙ rw there refl, λ z. omega (arith, grows a b e there))
              ]
        ]
      ]

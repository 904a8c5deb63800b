-- ===== src/Base/Unique.antt =====
-- Lists without repeated keys, and the loop with a set of the keys seen before that checks it.
use miden_base.Base.Tests.{if◌then◌else◌, Bool-cases}
use miden_base.Base.Lists.{any, get_elem?}
use miden_base.Base.Words.{Digest, word_eq, word_eq_iff}
use Prim.Native.Nat.{ℕ, zero, suc, ◌<◌}
use mathlib.Core.Path.{◌≡◌, refl, sym, ap, subst, ◌∙◌}
use mathlib.Core.Logic.{◌≢◌, ◌↔◌, inl, inr}
use mathlib.Core.Bool.{false}
use mathlib.Core.Option.{Option, none, some}
use mathlib.Core.List.{List, [], ◌∷◌, ◌++◌}
use native.Mathlib.Omega.{arith}

-- A key is seen if it is the new one or was seen before.
not_seen :
    (n m : Digest) (seen : List Digest)
    → any (word_eq n) (m ∷ seen) ≡ false
    → (n ≢ m) × (any (word_eq n) seen ≡ false)
not_seen n m seen h =
    let other : word_eq n m ≡ false = ground arith in
    (λ e. absurd (cc ((word_eq_iff n m).1 e)), ground arith)

still_unseen :
    (n m : Digest) (seen : List Digest)
    → n ≢ m
    → any (word_eq n) seen ≡ false
    → any (word_eq n) (m ∷ seen) ≡ false
still_unseen n m seen differ h = elim (Bool-cases (word_eq n m)) [
  | inl same ↦ absurd (differ ((word_eq_iff n m).0 same))
  | inr other ↦ ground arith
]

some-injective {ℓ} : {A : Type ℓ} {a b : A} → some a ≡ some b → a ≡ b
some-injective h = cc

module _ {ℓ} {A : Type ℓ} (key : A → Digest) where
  -- The loop over the list: the first key that was seen before.
  unfoldable pub first_repeat : List Digest → List A → Option Digest
  first_repeat seen [] = none
  first_repeat seen (a ∷ rest) =
      let later = first_repeat (key a ∷ seen) rest in
      if any (word_eq (key a)) seen then some (key a) else later

  -- The set of keys after the loop.
  unfoldable pub push_all : List Digest → List A → List Digest
  push_all seen [] = seen
  push_all seen (a ∷ rest) = push_all (key a ∷ seen) rest

  -- No two entries have the same key.
  abbrev pub Unique : List A → Type ℓ
  Unique xs =
      (i j : ℕ) (a b : A)
      → i < j
      → get_elem? xs i ≡ some a
      → get_elem? xs j ≡ some b
      → key a ≢ key b

  -- No entry has a key that was seen.
  abbrev pub Unseen : List Digest → List A → Type ℓ
  Unseen seen xs = (i : ℕ) (a : A) → get_elem? xs i ≡ some a → any (word_eq (key a)) seen ≡ false

  cons-Unseen :
      (seen : List Digest) (x : A) (xs : List A)
      → any (word_eq (key x)) seen ≡ false
      → Unseen (key x ∷ seen) xs
      → Unseen seen (x ∷ xs)
  cons-Unseen seen x xs fresh unseen zero a e =
      subst (λ b. any (word_eq (key b)) seen ≡ false) (some-injective e) fresh
  cons-Unseen seen x xs fresh unseen (suc i) a e = (not_seen (key a) (key x) seen (unseen i a e)).1

  cons-Unique :
      (seen : List Digest) (x : A) (xs : List A)
      → Unseen (key x ∷ seen) xs
      → Unique xs
      → Unique (x ∷ xs)
  cons-Unique seen x xs unseen unique i zero a b k e f same = absurd (omega arith)
  cons-Unique seen x xs unseen unique zero (suc j) a b k e f same =
      (not_seen (key b) (key x) seen (unseen j b f)).0 (sym same ∙ ap key (sym (some-injective e)))
  cons-Unique seen x xs unseen unique (suc i) (suc j) a b k e f same =
      unique i j a b (omega arith) e f same

  next-Unseen :
      (seen : List Digest) (x : A) (xs : List A)
      → Unseen seen (x ∷ xs)
      → Unique (x ∷ xs)
      → Unseen (key x ∷ seen) xs
  next-Unseen seen x xs unseen unique i a e =
      still_unseen (key a) (key x) seen
        (λ same. unique 0 (suc i) x a (omega arith) refl e (sym same)) (unseen (suc i) a e)

  first_repeat-Unique :
      (seen : List Digest) (xs : List A) → first_repeat seen xs ≡ none → Unseen seen xs × Unique xs
  unfolding first_repeat
  first_repeat-Unique seen [] h = (λ i a e. absurd (cc), λ i j a b k e f. absurd (cc))
  first_repeat-Unique seen (x ∷ xs) h =
      let fresh : any (word_eq (key x)) seen ≡ false = ground arith in
      let rest : first_repeat (key x ∷ seen) xs ≡ none = ground arith in
      let (unseen, unique) = first_repeat-Unique (key x ∷ seen) xs rest in
      (cons-Unseen seen x xs fresh unseen, cons-Unique seen x xs unseen unique)

  Unique-first_repeat :
      (seen : List Digest) (xs : List A) → Unseen seen xs → Unique xs → first_repeat seen xs ≡ none
  unfolding first_repeat
  Unique-first_repeat seen [] unseen unique = refl
  Unique-first_repeat seen (x ∷ xs) unseen unique =
      let fresh = unseen 0 x refl in
      let rest : first_repeat (key x ∷ seen) xs ≡ none =
        Unique-first_repeat (key x ∷ seen) xs (next-Unseen seen x xs unseen unique)
          (λ i j a b k e f. unique (suc i) (suc j) a b (omega arith) e f) in
      ground (arith, fresh, rest)

  -- From an empty set the loop finds nothing exactly on lists without repeated keys.
  pub first_repeat-none : (xs : List A) → (first_repeat [] xs ≡ none) ↔ Unique xs
  first_repeat-none xs =
      (λ h. (first_repeat-Unique [] xs h).1, Unique-first_repeat [] xs (λ i a e. refl))

  -- The loop over one list and then another.
  pub first_repeat-append :
      (seen : List Digest) (xs ys : List A)
      → first_repeat seen (xs ++ ys) ≡ (elim (first_repeat seen xs) [
        | none ↦ first_repeat (push_all seen xs) ys
        | some d ↦ some d
      ])
  unfolding first_repeat push_all
  first_repeat-append seen [] ys = refl
  first_repeat-append seen (x ∷ xs) ys = ground (arith, first_repeat-append (key x ∷ seen) xs ys)

-- ===== src/Base/Maps/Sorted.antt =====
-- Key order as an invariant of maps, and what `extend` looks up to.
use miden_base.Base.Tests.{if◌then◌else◌, Bool-cases}
use miden_base.Base.Maps.{Key, Map, lookup, insert, remove, extend, lookup-insert}
use mathlib.Core.Path.{◌≡◌, refl, sym, subst, ◌∙◌}
use mathlib.Core.Logic.{inl, inr}
use mathlib.Core.Bool.{true, false, false≢true}
use mathlib.Core.Option.{Option, none, some}
use mathlib.Core.List.{[], ◌∷◌}
use native.Mathlib.Omega.{arith}

-- `or_none o p` is the first of the two that is there.
abbrev pub or_none {ℓ} : {A : Type ℓ} → Option A → Option A → Option A
or_none none p = p
or_none (some a) p = some a

beq-false_comm {ℓ} :
    {K : Type ℓ} ⦃key : Key K⦄ (a b : K) → key.beq a b ≡ false → key.beq b a ≡ false
beq-false_comm ⦃key⦄ a b h = elim (Bool-cases (key.beq b a)) [
  | inl same ↦ absurd (false≢true (sym h ∙ (key.beq_iff a b).1 (sym ((key.beq_iff b a).0 same))))
  | inr other ↦ other
]

module _ {ℓ κ} {K : Type ℓ} {V : Type κ} ⦃key : Key K⦄ where
  -- `k` is below the first key.
  abbrev pub Above : K → Map K V → Type 0
  Above k [] = Unit {0}
  Above k ((j, _) ∷ m) = key.lt k j ≡ true

  abbrev pub Sorted : Map K V → Type 0
  Sorted [] = Unit {0}
  Sorted ((k, _) ∷ m) = Above k m × Sorted m

  Above-trans : (k j : K) (m : Map K V) → key.lt k j ≡ true → Above j m → Above k m
  Above-trans k j [] h a = tt
  Above-trans k j ((i, _) ∷ m) h a = key.lt_trans k j i h a

  pub lookup-Above : (k : K) (m : Map K V) → Above k m → Sorted m → lookup k m ≡ none
  unfolding lookup
  lookup-Above k [] a s = refl
  lookup-Above k ((j, v) ∷ m) a s =
      ground
        (arith, key.beq_iff j k, key.lt_irrefl k, lookup-Above k m (Above-trans k j m a s.0) s.1)

  Above-insert :
      (i k : K) (v : V) (m : Map K V) → key.lt i k ≡ true → Above i m → Above i (insert k v m)
  unfolding insert
  Above-insert i k v [] h a = h
  Above-insert i k v ((j, w) ∷ m) h a = ground arith

  pub insert-Sorted : (k : K) (v : V) (m : Map K V) → Sorted m → Sorted (insert k v m)
  unfolding insert
  insert-Sorted k v [] s = (tt, tt)
  insert-Sorted k v ((j, w) ∷ m) s = elim (Bool-cases (key.beq j k)) [
    | inl same ↦ rw same (subst (λ i. Above i m) ((key.beq_iff j k).0 same) s.0, s.1)
    | inr other ↦ elim (Bool-cases (key.lt k j)) [
      | inl below ↦ rw (other, below) (below, s)
      | inr above ↦
          let after = key.lt_connex k j (beq-false_comm j k other) above in
          rw (other, above) (Above-insert j k v m after s.0, insert-Sorted k v m s.1)
    ]
  ]

  Above-remove : (i k : K) (m : Map K V) → Above i m → Sorted m → Above i (remove k m)
  unfolding remove
  Above-remove i k [] a s = tt
  Above-remove i k ((j, w) ∷ m) a s = elim (Bool-cases (key.beq j k)) [
    | inl same ↦ rw same (Above-remove i k m (Above-trans i j m a s.0) s.1)
    | inr other ↦ rw other a
  ]

  pub remove-Sorted : (k : K) (m : Map K V) → Sorted m → Sorted (remove k m)
  unfolding remove
  remove-Sorted k [] s = tt
  remove-Sorted k ((j, w) ∷ m) s = elim (Bool-cases (key.beq j k)) [
    | inl same ↦ rw same (remove-Sorted k m s.1)
    | inr other ↦ rw other (Above-remove j k m s.0 s.1, remove-Sorted k m s.1)
  ]

  -- After `extend` an entry of the second map hides one of the first.
  pub lookup-extend :
      (k : K) (m n : Map K V) → Sorted n → lookup k (extend m n) ≡ or_none (lookup k n) (lookup k m)
  unfolding extend lookup
  lookup-extend k m [] s = refl
  lookup-extend k m ((j, v) ∷ n) s = lookup-extend k (insert j v m) n s.1 ∙ step
    where
      step :
          or_none (lookup k n) (lookup k (insert j v m))
          ≡ or_none (if key.beq j k then some v else lookup k n) (lookup k m)
      step = ground (arith, lookup-insert j k v m, key.beq_iff j k, lookup-Above j n s.0 s.1)

  pub extend-Sorted : (m n : Map K V) → Sorted m → Sorted (extend m n)
  unfolding extend
  extend-Sorted m [] s = s
  extend-Sorted m ((j, v) ∷ n) s = extend-Sorted (insert j v m) n (insert-Sorted j v m s)

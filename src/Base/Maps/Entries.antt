-- ===== src/Base/Maps/Entries.antt =====
-- What holds of every entry of a map, after a change of the map.
use miden_base.Base.Tests.{Bool-cases}
use miden_base.Base.Lists.{All}
use miden_base.Base.Maps.{Key, Map, lookup, insert, remove}
use miden_base.Base.Results.{some_injective}
use mathlib.Core.Path.{◌≡◌, subst}
use mathlib.Core.Logic.{inl, inr}
use mathlib.Core.Option.{some}
use mathlib.Core.List.{[], ◌∷◌}

module _ {ℓ κ μ} {K : Type ℓ} {V : Type κ} ⦃key : Key K⦄ (P : K × V → Type μ) where
  pub All-insert : (k : K) (v : V) (m : Map K V) → P (k, v) → All P m → All P (insert k v m)
  unfolding insert
  All-insert k v [] p a = (p, tt)
  All-insert k v ((j, w) ∷ m) p a = elim (Bool-cases (key.beq j k)) [
    | inl same ↦ rw same (p, a.1)
    | inr other ↦ elim (Bool-cases (key.lt k j)) [
      | inl below ↦ rw (other, below) (p, a)
      | inr above ↦ rw (other, above) (a.0, All-insert k v m p a.1)
    ]
  ]

  pub All-remove : (k : K) (m : Map K V) → All P m → All P (remove k m)
  unfolding remove
  All-remove k [] a = tt
  All-remove k ((j, w) ∷ m) a = elim (Bool-cases (key.beq j k)) [
    | inl same ↦ rw same (All-remove k m a.1)
    | inr other ↦ rw other (a.0, All-remove k m a.1)
  ]

module _ {ℓ κ} {K : Type ℓ} {V : Type κ} ⦃key : Key K⦄ where
  -- A value that is found is one of an entry.
  pub lookup-All {μ} :
      (P : V → Type μ) (es : Map K V) (j : K) (v : V)
      → All (λ (e : K × V). P e.1) es
      → lookup j es ≡ some v
      → P v
  unfolding lookup
  lookup-All P [] j v a h = absurd (cc)
  lookup-All P ((i, w) ∷ es) j v (p, a) h = elim (Bool-cases (key.beq i j)) [
    | inl same ↦ let e : some w ≡ some v = rw same at h in subst P (some_injective e) p
    | inr other ↦ lookup-All P es j v a (rw other at h)
  ]

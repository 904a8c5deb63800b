-- ===== src/Base/Maps/Numbered.antt =====
-- Maps whose keys are consecutive numbers, as lists of their values.
use Prim.Native.Nat.{ℕ, zero, suc, ◌+◌, ◌<◌}
use miden_base.Base.Tests.{◌==◌}
use miden_base.Base.Lists.{length, get_elem?, set}
use miden_base.Base.Maps.{Map, nat_key, lookup, insert}
use mathlib.Core.Path.{◌≡◌, refl, ap}
use mathlib.Core.Bool.{true}
use mathlib.Core.List.{List, [], ◌∷◌, ◌++◌}
use native.Mathlib.Omega.{arith}

module _ {ℓ} {V : Type ℓ} where
  -- The keys are `n`, `n + 1`, ..., in this order.
  abbrev pub Numbered : ℕ → Map ℕ V → Type ℓ
  Numbered n [] = Unit {ℓ}
  Numbered n ((k, _) ∷ m) = (k ≡ n) × Numbered (suc n) m

  abbrev pub values : Map ℕ V → List V
  values [] = []
  values ((_, v) ∷ m) = v ∷ values m

  pub length-values : (m : Map ℕ V) → length (values m) ≡ length m
  length-values [] = refl
  length-values (_ ∷ m) = ap suc (length-values m)

  pub lookup-Numbered :
      (n i j : ℕ) (m : Map ℕ V) → Numbered n m → j ≡ n + i → lookup j m ≡ get_elem? (values m) i
  unfolding lookup
  lookup-Numbered n i j [] h at = refl
  lookup-Numbered n zero j ((k, v) ∷ m) (e, h) at = ground arith
  lookup-Numbered n (suc i) j ((k, v) ∷ m) (e, h) at =
      ground (arith, lookup-Numbered (suc n) i j m h (omega arith))

  -- A write at a later number leaves the first entry.
  insert-later :
      (n j k : ℕ) (v w : V) (m : Map ℕ V)
      → k ≡ n
      → n < j
      → insert j v ((k, w) ∷ m) ≡ (k, w) ∷ insert j v m
  unfolding insert
  insert-later n j k v w m e lt = ground arith

  -- A write at the next number appends.
  pub insert-next :
      (n j : ℕ) (v : V) (m : Map ℕ V)
      → Numbered n m
      → j ≡ n + length m
      → Numbered n (insert j v m) × (values (insert j v m) ≡ values m ++ (v ∷ []))
  unfolding insert
  insert-next n j v [] h at = ((omega arith, tt), refl)
  insert-next n j v ((k, w) ∷ m) (e, h) at =
      let (numbered, is) = insert-next (suc n) j v m h (omega arith) in
      rw (insert-later n j k v w m e (omega arith)) ((e, numbered), ap (λ l. w ∷ l) is)

  -- A write at a number that is there replaces.
  pub insert-old :
      (n i j : ℕ) (v : V) (m : Map ℕ V)
      → Numbered n m
      → j ≡ n + i
      → i < length m
      → Numbered n (insert j v m) × (values (insert j v m) ≡ set (values m) i v)
  unfolding insert
  insert-old n i j v [] h at lt = absurd (omega arith)
  insert-old n zero j v ((k, w) ∷ m) (e, h) at lt =
      let same : (k == j) ≡ true = ground arith in rw same ((omega arith, h), refl)
  insert-old n (suc i) j v ((k, w) ∷ m) (e, h) at lt =
      let (numbered, is) = insert-old (suc n) i j v m h (omega arith) (omega arith) in
      rw (insert-later n j k v w m e (omega arith)) ((e, numbered), ap (λ l. w ∷ l) is)

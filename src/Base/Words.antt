-- ===== src/Base/Words.antt =====
-- Field elements, words and digests. `Felt` belongs to the VM's crates: a value of it stands here
-- as its canonical integer, which `as_int` gives, and the operations on it come by an interface.
use miden_base.Base.Tests.{◌==◌}
use Prim.Native.Nat.{ℕ, ◌^◌, ◌≤◌, ◌<◌}
use mathlib.Core.Path.{◌≡◌}
use mathlib.Core.Logic.{◌↔◌}
use mathlib.Core.Bool.{Bool, true, ◌&&◌}
use mathlib.Core.List.{List, [], ◌∷◌}
use native.Mathlib.Omega.{arith}

abbrev pub Felt : Type 0
Felt = ℕ

-- What the code relies on of the field: `Felt::new` is the identity on canonical integers, and
-- every 63-bit number is one.
pub record Field : Type 0 where
  pub modulus : ℕ
  pub half : 2 ^ 63 ≤ modulus
  pub within_u64 : modulus ≤ 2 ^ 64
  pub felt_new : ℕ → Felt
  pub felt_new_canonical : (v : ℕ) → v < modulus → felt_new v ≡ v

-- `[Felt; 4]`; `e0` is the element at index 0.
pub record Word : Type 0 where
  pub e0 : Felt
  pub e1 : Felt
  pub e2 : Felt
  pub e3 : Felt

abbrev pub Digest : Type 0
Digest = Word

-- `EMPTY_WORD`, and the default digest.
abbrev pub empty_word : Word
empty_word = record { e0 = 0; e1 = 0; e2 = 0; e3 = 0 }

abbrev pub word_eq : Word → Word → Bool
word_eq a b = (a.e0 == b.e0) && (a.e1 == b.e1) && (a.e2 == b.e2) && (a.e3 == b.e3)

pub word_eq_iff : (a b : Word) → (word_eq a b ≡ true) ↔ (a ≡ b)
word_eq_iff a b = (λ h. ground arith, λ h. ground arith)

abbrev pub word_elements : Word → List Felt
word_elements w = w.e0 ∷ w.e1 ∷ w.e2 ∷ w.e3 ∷ []

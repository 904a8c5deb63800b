-- ===== src/Base/Bits/Step.antt =====
-- One equation for the lowest digit of `bit_and`, `bit_or` and `bit_xor`, and induction on halves.
use Prim.Native.Nat.{ℕ, zero, suc, ◌+◌, ◌*◌, ◌/◌, ◌%◌, ◌≤◌, min, max, differ}
use Prim.Native.Nat.{
  bit_and, bit_or, bit_xor, digits, bitwise, bit_and-bitwise, bit_or-bitwise, bit_xor-bitwise,
}
use mathlib.Core.Path.{◌≡◌, refl}
use native.Mathlib.Omega.{arith}

below_half {ℓ} :
    (P : ℕ → Type ℓ) → P 0 → ((a : ℕ) → P (a / 2) → P a) → (bound a : ℕ) → a ≤ bound → P a
below_half P z s zero zero h = z
below_half P z s zero (suc a) h = absurd (omega arith)
below_half P z s (suc n) zero h = z
below_half P z s (suc n) (suc a) h = s (suc a) (below_half P z s n (suc a / 2) (omega arith))

pub induct_half {ℓ} : (P : ℕ → Type ℓ) → P 0 → ((a : ℕ) → P (a / 2) → P a) → (a : ℕ) → P a
induct_half P z s a = below_half P z s a a (omega arith)

-- The lowest digit of `f` is `op` of the lowest digits, and the others are `f` of the others.
abbrev pub LowestDigit : (ℕ → ℕ → ℕ) → (ℕ → ℕ → ℕ) → Type 0
LowestDigit f op = (a b : ℕ) → f a b ≡ f (a / 2) (b / 2) * 2 + op (a % 2) (b % 2)

-- Fuel beyond the first argument does not matter.
module _ (rest : ℕ → ℕ) (op : ℕ → ℕ → ℕ) where
  more_fuel : (a b n m : ℕ) → a ≤ n → a ≤ m → digits rest op n a b ≡ digits rest op m a b
  more_fuel zero b zero zero h k = refl
  more_fuel zero b zero (suc m) h k = refl
  more_fuel zero b (suc n) zero h k = refl
  more_fuel zero b (suc n) (suc m) h k = refl
  more_fuel (suc a) b zero m h k = absurd (omega arith)
  more_fuel (suc a) b (suc n) zero h k = absurd (omega arith)
  more_fuel (suc a) b (suc n) (suc m) h k =
      rw (more_fuel (suc a / 2) (b / 2) n m (omega arith) (omega arith))

  -- An operation digit by digit, if `rest` is what it does once the first number is used up.
  bitwise_lowest :
      ((b : ℕ) → rest b ≡ rest (b / 2) * 2 + op 0 (b % 2)) → LowestDigit (bitwise rest op) op
  bitwise_lowest used_up zero b = used_up b
  bitwise_lowest used_up (suc a) b =
      rw (more_fuel (suc a / 2) (b / 2) a (suc a / 2) (omega arith) (omega arith))

pub bit_and_step : LowestDigit bit_and min
bit_and_step a b =
    rw (bit_and-bitwise a b, bit_and-bitwise (a / 2) (b / 2))
      (bitwise_lowest (λ _. 0) min (λ y. omega arith) a b)

pub bit_or_step : LowestDigit bit_or max
bit_or_step a b =
    rw (bit_or-bitwise a b, bit_or-bitwise (a / 2) (b / 2))
      (bitwise_lowest (λ y. y) max (λ y. omega arith) a b)

pub bit_xor_step : LowestDigit bit_xor differ
bit_xor_step a b =
    rw (bit_xor-bitwise a b, bit_xor-bitwise (a / 2) (b / 2))
      (bitwise_lowest (λ y. y) differ (λ y. omega arith) a b)

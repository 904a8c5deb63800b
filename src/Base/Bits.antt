-- ===== src/Base/Bits.antt =====
-- Shifts, masks and bit operations on variables, as arithmetic.
pub mod Step
use Step.{bit_and_step, bit_or_step, bit_xor_step}
use Prim.Native.Nat.{
  ℕ, zero, suc, ◌+◌, ◌-◌, ◌*◌, ◌/◌, ◌%◌, ◌^◌, ◌<◌, ◌≤◌, bit_and, bit_or, bit_xor, differ,
  bit_or-bitwise, bit_xor-bitwise,
}
use mathlib.Core.Path.{◌≡◌, refl, ap, ◌∙◌, sym}
use native.Mathlib.Nat.{
  pow-suc, pow-succ', one-le-pow, div-add-mod', div-div-eq-div-mul, mul-div_cancel, div-eq_of_lt,
  mod-eq_of_lt,
}
use native.Mathlib.Omega.{arith}
use Step.{induct_half}

infixl 75 ◌<<◌ ◌>>◌
abbrev pub ◌<<◌ : ℕ → ℕ → ℕ
x << k = x * 2 ^ k

abbrev pub ◌>>◌ : ℕ → ℕ → ℕ
x >> k = x / 2 ^ k

-- The casts `as u8` and `as u32`.
abbrev pub u8 : ℕ → ℕ
u8 n = n % 2 ^ 8

abbrev pub u32 : ℕ → ℕ
u32 n = n % 2 ^ 32

bit_and-zero : (a : ℕ) → bit_and a 0 ≡ 0
bit_and-zero = induct_half (λ a. bit_and a 0 ≡ 0) refl (λ a ih. omega (arith, bit_and_step a 0, ih))

pub bit_or-zero : (a : ℕ) → bit_or a 0 ≡ a
bit_or-zero = induct_half (λ a. bit_or a 0 ≡ a) refl (λ a ih. omega (arith, bit_or_step a 0, ih))

differ-zero : (a : ℕ) → differ a 0 ≡ a
differ-zero zero = refl
differ-zero (suc a) = refl

differ_self : (a : ℕ) → differ a a ≡ 0
differ_self zero = refl
differ_self (suc a) = differ_self a

pub bit_xor-zero : (a : ℕ) → bit_xor a 0 ≡ a
bit_xor-zero =
    induct_half (λ a. bit_xor a 0 ≡ a) refl
      (λ a ih. omega (arith, bit_xor_step a 0, differ-zero (a % 2), ih))

pub zero-bit_or : (a : ℕ) → bit_or 0 a ≡ a
zero-bit_or a = bit_or-bitwise 0 a

pub zero-bit_xor : (a : ℕ) → bit_xor 0 a ≡ a
zero-bit_xor a = bit_xor-bitwise 0 a

shl_suc : (q k : ℕ) → q << suc k ≡ q << k * 2
shl_suc q k = omega (arith, ap (λ (t : ℕ). q * t) (pow-suc 2 k))

shr_suc : (a k : ℕ) → a >> suc k ≡ (a / 2) >> k
shr_suc a k = rw (pow-succ' 2 k) (sym (div-div-eq-div-mul a 2 (2 ^ k)))

pub mod_suc : (a k : ℕ) → a % 2 ^ suc k ≡ a / 2 % 2 ^ k * 2 + a % 2
mod_suc a k = omega (
  arith,
  div-add-mod' a (2 ^ suc k),
  div-add-mod' (a / 2) (2 ^ k),
  shr_suc a k,
  shl_suc (a >> suc k) k,
  ap (λ (t : ℕ). t << k) (shr_suc a k),
)

-- A mask that is shifted up selects from the bits above.
pub bit_and_high : (k a m : ℕ) → bit_and a (m << k) ≡ bit_and (a >> k) m << k
bit_and_high zero a m = ground arith
bit_and_high (suc k) a m = ground (
  arith,
  bit_and_step a (m << suc k),
  shl_suc m k,
  shl_suc (bit_and ((a / 2) >> k) m) k,
  shr_suc a k,
  bit_and_high k (a / 2) m,
)

-- `|` and `^` with bits that are shifted up leave the bits below.
pub bit_or_high : (k q a : ℕ) → bit_or (q << k) a ≡ bit_or q (a >> k) << k + a % 2 ^ k
bit_or_high zero q a = ground arith
bit_or_high (suc k) q a = ground (
  arith,
  bit_or_step (q << suc k) a,
  shl_suc q k,
  shl_suc (bit_or q ((a / 2) >> k)) k,
  shr_suc a k,
  mod_suc a k,
  bit_or_high k q (a / 2),
)

pub bit_xor_high : (k q a : ℕ) → bit_xor (q << k) a ≡ bit_xor q (a >> k) << k + a % 2 ^ k
bit_xor_high zero q a = ground arith
bit_xor_high (suc k) q a = ground (
  arith,
  bit_xor_step (q << suc k) a,
  shl_suc q k,
  shl_suc (bit_xor q ((a / 2) >> k)) k,
  shr_suc a k,
  mod_suc a k,
  bit_xor_high k q (a / 2),
)

-- A mask of ones at the bottom.
pub bit_and_low : (k a : ℕ) → bit_and a (2 ^ k - 1) ≡ a % 2 ^ k
bit_and_low zero a = omega (arith, bit_and-zero a)
bit_and_low (suc k) a = ground (
  arith,
  bit_and_step a (2 ^ suc k - 1),
  one-le-pow k 2,
  pow-suc 2 k,
  mod_suc a k,
  bit_and_low k (a / 2),
)

-- Two bits under a mask `0b11 << k`.
pub field_of_two : (k v : ℕ) → bit_and v (3 << k) >> k ≡ (v >> k) % 4
field_of_two k v =
    rw (bit_and_high k v 3, bit_and_low 2 (v >> k))
      (mul-div_cancel ((v >> k) % 4) (omega (arith, one-le-pow k 2)))

xor_lowest : (x : ℕ) → bit_xor (x % 2) x ≡ x / 2 * 2
xor_lowest x = ground (arith, bit_xor_step (x % 2) x, zero-bit_xor (x / 2), differ_self (x % 2))

-- Clearing one bit by `(v & (1 << k)) ^ v`.
pub clear_bit : (k v : ℕ) → bit_xor (bit_and v (1 << k)) v ≡ (v >> k / 2 * 2) << k + v % 2 ^ k
clear_bit k v =
    rw (bit_and_high k v 1, bit_and_low 1 (v >> k), bit_xor_high k ((v >> k) % 2) v)
      (ap (λ (t : ℕ). t << k + v % 2 ^ k) (xor_lowest (v >> k)))

pub shr_small : (k a : ℕ) → a < 2 ^ k → a >> k ≡ 0
shr_small k a h = div-eq_of_lt h

-- Bits that do not overlap: `|` is the sum.
pub bit_or_disjoint : (k q a : ℕ) → a < 2 ^ k → bit_or (q << k) a ≡ q << k + a
bit_or_disjoint k q a h =
    bit_or_high k q a ∙ rw (shr_small k a h, bit_or-zero q, mod-eq_of_lt h) refl

pub bit_or_disjoint_low : (k q a : ℕ) → a < 2 ^ k → bit_or a (q << k) ≡ q << k + a
bit_or_disjoint_low zero q a h = ground (arith, zero-bit_or q)
bit_or_disjoint_low (suc k) q a h =
    ground
      (arith, bit_or_step a (q << suc k), shl_suc q k, pow-suc 2 k, bit_or_disjoint_low k q (a / 2))

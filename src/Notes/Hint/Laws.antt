-- ===== src/Notes/Hint/Laws.antt =====
-- What holds of execution hints: objects/src/notes/execution_hint.rs.
use miden_base.Base.{
  ℕ, ◌+◌, ◌-◌, ◌*◌, ◌/◌, ◌%◌, ◌^◌, ◌≤◌, ◌<◌, bit_and, bit_or, ◌≡◌, refl, ap, subst, ◌∙◌, ◌↔◌, Bool,
  true, ◌&&◌, some, arith, ltb, leb, ok,
}
use native.Mathlib.Nat.{div-add-mod', div-eq_of_lt-le, one-le-pow, mod-lt, mod-eq_of_lt}
use miden_base.Base.Bits.{◌<<◌, ◌>>◌, u8, u32, bit_and_low, bit_or_disjoint}
use miden_base.Notes.Hint.{
  NoteExecutionHint, none_hint, always, after_block, on_block_slot, from_parts, into_parts,
  hint_to_u64, hint_try_from_u64, can_be_consumed,
}

-- The numbers of a hint are those of its types.
abbrev pub InRange : NoteExecutionHint → Type 0
InRange none_hint = Unit {0}
InRange always = Unit {0}
InRange (after_block n) = n < 2 ^ 32
InRange (on_block_slot e s o) = (e < 2 ^ 8) × (s < 2 ^ 8) × (o < 2 ^ 8)

pub slot_payload :
    (e s o : ℕ)
    → e < 2 ^ 8
    → s < 2 ^ 8
    → o < 2 ^ 8
    → bit_or (bit_or (u32 (e << 16)) (u32 (s << 8))) o ≡ e * 2 ^ 16 + s * 2 ^ 8 + o
slot_payload e s o he hs ho =
    rw
      (
        mod-eq_of_lt {n = e << 16} {m = 2 ^ 32} (omega arith),
        mod-eq_of_lt {n = s << 8} {m = 2 ^ 32} (omega arith),
        bit_or_disjoint 16 e (s << 8) (omega arith),
      )
      (ap (λ n. bit_or n o) (regrouped e s)
        ∙ (bit_or_disjoint 8 (e * 2 ^ 8 + s) o ho ∙ omega arith))
  where
    regrouped : (e s : ℕ) → e << 16 + s << 8 ≡ (e * 2 ^ 8 + s) << 8
    regrouped e s = omega arith

-- A byte of a number.
byte : (n k : ℕ) → u8 (bit_and (n >> k) 255) ≡ n / 2 ^ k % 2 ^ 8
byte n k = omega (arith, bit_and_low 8 (n >> k))

-- The parts of a slot are the bytes of its payload.
from_parts_slot :
    (e s o : ℕ)
    → e < 2 ^ 8
    → s < 2 ^ 8
    → o < 2 ^ 8
    → from_parts 3 (e * 2 ^ 16 + s * 2 ^ 8 + o) ≡ ok (on_block_slot e s o)
unfolding from_parts
from_parts_slot e s o he hs ho =
    let n = e * 2 ^ 16 + s * 2 ^ 8 + o in
    let b3 : u8 (bit_and (n >> 24) 255) ≡ 0 = omega (arith, byte n 24) in
    let b2 : u8 (bit_and (n >> 16) 255) ≡ e = omega (arith, byte n 16) in
    let b1 : u8 (bit_and (n >> 8) 255) ≡ s = omega (arith, byte n 8) in
    let b0 : u8 (bit_and n 255) ≡ o = omega (arith, bit_and_low 8 n) in ground arith

-- A hint survives the way to its parts and back.
pub from_parts-into_parts :
    (h : NoteExecutionHint)
    → InRange h
    → let (tag, payload) = into_parts h in from_parts tag payload ≡ ok h
unfolding from_parts into_parts
from_parts-into_parts none_hint r = refl
from_parts-into_parts always r = refl
from_parts-into_parts (after_block n) r = refl
from_parts-into_parts (on_block_slot e s o) (he, hs, ho) =
    rw (slot_payload e s o he hs ho) (from_parts_slot e s o he hs ho)

-- The parts fit 6 and 32 bits.
pub into_parts-bounds :
    (h : NoteExecutionHint) → InRange h → ((into_parts h).0 < 2 ^ 2) × ((into_parts h).1 < 2 ^ 32)
unfolding into_parts
into_parts-bounds none_hint r = (omega arith, omega arith)
into_parts-bounds always r = (omega arith, omega arith)
into_parts-bounds (after_block n) r = (omega arith, r)
into_parts-bounds (on_block_slot e s o) (he, hs, ho) =
    (omega arith, omega (arith, slot_payload e s o he hs ho))

-- A hint whose numbers are in the range of their types comes back from its `u64`.
hint_try_from_u64-hint_to_u64 :
    (h : NoteExecutionHint) → InRange h → hint_try_from_u64 (hint_to_u64 h) ≡ ok h
unfolding hint_try_from_u64 hint_to_u64
hint_try_from_u64-hint_to_u64 h r =
    let (tag_small, small) = into_parts-bounds h r in
    let (tag, payload) = into_parts h in
    let whole = bit_or_disjoint 6 payload tag (omega (arith, tag_small)) in
    let low : u8 (bit_and (bit_or (payload << 6) tag) 63) ≡ tag =
      omega (arith, whole, bit_and_low 6 (bit_or (payload << 6) tag)) in
    let high : u32 (bit_and (bit_or (payload << 6) tag >> 6) (2 ^ 32 - 1)) ≡ payload =
      omega (arith, whole, bit_and_low 32 (bit_or (payload << 6) tag >> 6)) in
    rw (low, high) (from_parts-into_parts h r)

-- The test of a slot, for epochs of `E` blocks and slots of `L` blocks.
slot_test :
    (n o E L : ℕ)
    → 0 < L
    → ((leb (n / E * E + o * L) n && ltb n (n / E * E + o * L + L)) ≡ true) ↔ (n % E / L ≡ o)
slot_test n o E L positive = (inside, outside)
  where
    place : n / E * E + n % E ≡ n
    place = div-add-mod' n E

    next : (o + 1) * L ≡ o * L + L
    next = omega arith

    inside : (leb (n / E * E + o * L) n && ltb n (n / E * E + o * L + L)) ≡ true → n % E / L ≡ o
    inside h =
        let lower : o * L ≤ n % E = ground (arith, place) in
        let upper : n % E < (o + 1) * L = ground (arith, place, next) in
        div-eq_of_lt-le {k = o} L lower upper

    outside : n % E / L ≡ o → (leb (n / E * E + o * L) n && ltb n (n / E * E + o * L + L)) ≡ true
    outside h =
        let split : o * L + n % E % L ≡ n % E =
          subst (λ k. k * L + n % E % L ≡ n % E) h (div-add-mod' (n % E) L) in
        let below = mod-lt (n % E) positive in ground (arith, place, split, below)

-- A hint for a slot, by the block's place in its epoch: where the epoch and slot lengths are below
-- 32 and the end of the slot is a `u32`, the note can be consumed exactly if the place is in the
-- slot with the offset.
pub can_be_consumed_slot :
    (e s o n : ℕ)
    → e < 32
    → s < 32
    → o << s < 2 ^ 32
    → n < 2 ^ 32
    → n / 2 ^ e * 2 ^ e + (o + 1) << s < 2 ^ 32
    → (b : Bool) × (can_be_consumed (on_block_slot e s o) n ≡ ok (some b))
      × ((b ≡ true) ↔ ((n % 2 ^ e) / 2 ^ s ≡ o))
unfolding can_be_consumed
can_be_consumed_slot e s o n he hs ho hn fits = (
  leb (n / 2 ^ e * 2 ^ e + o * 2 ^ s) n && ltb n (n / 2 ^ e * 2 ^ e + o * 2 ^ s + 2 ^ s),
  computes,
  slot_test n o (2 ^ e) (2 ^ s) (omega (arith, one-le-pow s 2)),
)
  where
    one_shl : (k : ℕ) → 1 << k ≡ 2 ^ k
    one_shl k = omega arith

    computes :
        can_be_consumed (on_block_slot e s o) n
        ≡ ok (
            some (
              leb (n / 2 ^ e * 2 ^ e + o * 2 ^ s) n
              && ltb n (n / 2 ^ e * 2 ^ e + o * 2 ^ s + 2 ^ s)))
    computes = ground (arith, one_shl e, one_shl s)

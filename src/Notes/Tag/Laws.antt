-- ===== src/Notes/Tag/Laws.antt =====
-- What holds of note tags: objects/src/notes/note_tag.rs.
use miden_base.Base.{
  ℕ, ◌+◌, ◌*◌, ◌/◌, ◌%◌, ◌^◌, ◌≤◌, ◌<◌, bit_and, bit_or, ◌≡◌, refl, ap, ◌∙◌, ◌≢◌, ◌↔◌, ◌⊎◌, inl,
  inr, true, false, arith, ◌==◌, Bool-cases, ok, err,
}
use native.Mathlib.Nat.{mod-eq_of_lt}
use miden_base.Base.Bits.{
  ◌<<◌, ◌>>◌, u32, bit_and_low, bit_and_high, bit_or_disjoint, bit_or_disjoint_low,
}
use miden_base.Errors.{
  NoteError, invalid_note_tag_use_case, network_execution_requires_on_chain_account,
}
use miden_base.Accounts.Id as Ids
use miden_base.Assets.Data.{AccountId}
use miden_base.Notes.Kinds.{NoteType, private, encrypted, public, NoteExecutionMode, network, local}
use miden_base.Notes.Tag.{
  NoteTag, from_account_id, for_public_use_case, for_local_use_case, execution_hint, validate,
  is_single_target,
}

masked : (tag : ℕ) → bit_and tag (3 << 30) ≡ tag / 2 ^ 30 % 4 * 2 ^ 30
masked tag = rw (bit_and_high 30 tag 3) (ap (λ n. n << 30) (bit_and_low 2 (tag >> 30)))

-- A 32-bit tag is valid with a note type exactly if the type is public or the two high bits of the
-- tag are 3.
validate_accepts :
    (tag : NoteTag) (note_type : NoteType)
    → tag < 2 ^ 32
    → (validate tag note_type ≡ ok tag) ↔ ((note_type ≡ public) ⊎ (tag / 2 ^ 30 ≡ 3))
unfolding validate execution_hint
validate_accepts tag public h = (λ _. inl refl, λ _. ground (arith, masked tag))
validate_accepts tag private h =
    (λ k. inr (ground (arith, masked tag)), λ k. ground (arith, masked tag))
validate_accepts tag encrypted h =
    (λ k. inr (ground (arith, masked tag)), λ k. ground (arith, masked tag))

-- The three fields of a tag for a use case.
tag_fields :
    (q u p : ℕ)
    → u < 2 ^ 14
    → p < 2 ^ 16
    → bit_or (bit_or (q << 30) (u32 (u << 16))) p ≡ q * 2 ^ 30 + u * 2 ^ 16 + p
tag_fields q u p hu hp =
    rw
      (
        mod-eq_of_lt {n = u << 16} {m = 2 ^ 32} (omega arith),
        bit_or_disjoint 30 q (u << 16) (omega arith),
      )
      (ap (λ n. bit_or n p) (regrouped q u)
        ∙ (bit_or_disjoint 16 (q * 2 ^ 14 + u) p hp ∙ omega arith))
  where
    regrouped : (q u : ℕ) → q << 30 + u << 16 ≡ (q * 2 ^ 14 + u) << 16
    regrouped q u = omega arith

only_public :
    (tag : NoteTag) (t : NoteType)
    → tag < 2 ^ 32
    → tag / 2 ^ 30 ≢ 3
    → (validate tag t ≡ ok tag) ↔ (t ≡ public)
only_public tag t h other = (
  λ k. elim ((validate_accepts tag t h).0 k) [ inl e ↦ e | inr e ↦ absurd (other e) ],
  λ e. (validate_accepts tag t h).1 (inl e),
)

-- A tag for a public use case exists exactly if the use case fits 14 bits. It carries the use case
-- and the payload, hints at the execution mode that was asked for, is for no single account, and is
-- valid with public notes only.
for_public_use_case_lem :
    (u p : ℕ) (mode : NoteExecutionMode)
    → u < 2 ^ 16
    → p < 2 ^ 16
    → ((2 ^ 14 ≤ u) × ((e : NoteError) × (for_public_use_case u p mode ≡ err e)))
      ⊎ ((tag : NoteTag) × (for_public_use_case u p mode ≡ ok tag)
          × (tag < 2 ^ 32)
          × (tag / 2 ^ 16 % 2 ^ 14 ≡ u)
          × (tag % 2 ^ 16 ≡ p)
          × (execution_hint tag ≡ mode)
          × (is_single_target tag ≡ false)
          × ((t : NoteType) → (validate tag t ≡ ok tag) ↔ (t ≡ public)))
unfolding for_public_use_case execution_hint is_single_target
for_public_use_case_lem u p network hu hp = elim (Bool-cases (u >> 14 == 0)) [
  | inr large ↦ inl (ground arith, (invalid_note_tag_use_case u, rw large refl))
  | inl small ↦
      let u_small : u < 2 ^ 14 = ground arith in
      let tag = 2 ^ 30 + u * 2 ^ 16 + p in
      inr (
        tag,
        rw small (ap ok (tag_fields 1 u p u_small hp ∙ omega arith)),
        omega arith,
        omega arith,
        omega arith,
        ground arith,
        ground arith,
        λ t. only_public tag t (omega arith) (omega arith),
      )
]
for_public_use_case_lem u p local hu hp = elim (Bool-cases (u >> 14 == 0)) [
  | inr large ↦ inl (ground arith, (invalid_note_tag_use_case u, rw large refl))
  | inl small ↦
      let u_small : u < 2 ^ 14 = ground arith in
      let tag = 2 * 2 ^ 30 + u * 2 ^ 16 + p in
      inr (
        tag,
        rw small (ap ok (tag_fields 2 u p u_small hp ∙ omega arith)),
        omega arith,
        omega arith,
        omega arith,
        ground arith,
        ground arith,
        λ t. only_public tag t (omega arith) (omega arith),
      )
]

-- A tag for a local use case carries the use case and the payload, hints at local execution and is
-- valid with every note type; it exists exactly if the use case fits 14 bits.
for_local_use_case_lem :
    (u p : ℕ)
    → u < 2 ^ 16
    → p < 2 ^ 16
    → ((2 ^ 14 ≤ u) × ((e : NoteError) × (for_local_use_case u p ≡ err e)))
      ⊎ ((tag : NoteTag) × (for_local_use_case u p ≡ ok tag)
          × (tag < 2 ^ 32)
          × (tag / 2 ^ 16 % 2 ^ 14 ≡ u)
          × (tag % 2 ^ 16 ≡ p)
          × (execution_hint tag ≡ local)
          × ((t : NoteType) → validate tag t ≡ ok tag))
unfolding for_local_use_case execution_hint
for_local_use_case_lem u p hu hp = elim (Bool-cases (u >> 14 == 0)) [
  | inr large ↦ inl (ground arith, (invalid_note_tag_use_case u, rw large refl))
  | inl small ↦
      let u_small : u < 2 ^ 14 = ground arith in
      let tag = 3 * 2 ^ 30 + u * 2 ^ 16 + p in
      inr (
        tag,
        rw small (ap ok (tag_fields 3 u p u_small hp ∙ omega arith)),
        omega arith,
        omega arith,
        omega arith,
        ground arith,
        λ t. (validate_accepts tag t (omega arith)).1 (inr (omega arith)),
      )
]

high_bits : (id : ℕ) → id < 2 ^ 64 → bit_and (u32 (id >> 34)) (65535 << 16) ≡ id / 2 ^ 50 * 2 ^ 16
high_bits id h =
    bit_and_high 16 (u32 (id >> 34)) 65535
    ∙ (ap (λ n. n << 16) (bit_and_low 16 (u32 (id >> 34) >> 16)) ∙ omega arith)

-- The tag for an account with a 64-bit ID: for local execution its 14 high bits are those of the
-- ID, under the prefix 3, and it hints at local execution; for the network it is the 31 high bits
-- of the ID if the account is public, and an error if it is not.
from_account_id_lem :
    (id : AccountId)
    → id < 2 ^ 64
    → ((tag : NoteTag) × (from_account_id id local ≡ ok tag)
        × (tag ≡ 3 * 2 ^ 30 + id / 2 ^ 50 * 2 ^ 16)
        × (execution_hint tag ≡ local))
      × (Ids.is_public id ≡ ok true
          → (tag : NoteTag) × (from_account_id id network ≡ ok tag) × (tag ≡ id / 2 ^ 33))
      × (Ids.is_public id ≡ ok false
          → from_account_id id network ≡ err network_execution_requires_on_chain_account)
unfolding from_account_id execution_hint
from_account_id_lem id h = (
  (
    3 * 2 ^ 30 + id / 2 ^ 50 * 2 ^ 16,
    ap ok (rw (high_bits id h) (bit_or_disjoint_low 30 3 (id / 2 ^ 50 * 2 ^ 16) (omega arith))),
    refl,
    ground arith,
  ),
  λ public_id. (id / 2 ^ 33, rw public_id (ap ok (mod-eq_of_lt (omega arith))), refl),
  λ private_id. rw private_id refl,
)

-- ===== src/Notes/Metadata/Laws.antt =====
-- What holds of note metadata: objects/src/notes/metadata.rs.
use miden_base.Base.{
  ℕ, ◌+◌, ◌-◌, ◌*◌, ◌^◌, ◌<◌, bit_and, bit_or, ◌≡◌, refl, ap, ◌∙◌, false, arith, ltb, ok,
}
use miden_base.Base.Bits.{◌<<◌, ◌>>◌, u8, u32, bit_and_low, bit_or_disjoint}
use miden_base.Base.Words.{Field}
use miden_base.Accounts.Id.{account_id_from_felt}
use miden_base.Notes.Kinds.{NoteType, private, encrypted, public, note_type_code}
use miden_base.Notes.Tag as Tags
use miden_base.Notes.Hint as Hints
use miden_base.Notes.Hint.Laws.{InRange, into_parts-bounds, from_parts-into_parts}
use miden_base.Notes.Metadata.{
  NoteMetadata, note_type_try_from, new, merge_type_and_hint, unmerge_type_and_hint, to_word,
  try_from_word,
}

type_code_small : (t : NoteType) → note_type_code t < 4
type_code_small private = omega arith
type_code_small encrypted = omega arith
type_code_small public = omega arith

note_type_try_from-code : (t : NoteType) → note_type_try_from (note_type_code t) ≡ ok t
unfolding note_type_try_from
note_type_try_from-code private = refl
note_type_try_from-code encrypted = refl
note_type_try_from-code public = refl

-- The merged number is the sum of its three fields.
pub merge_type_and_hint_lem :
    (t : NoteType) (h : Hints.NoteExecutionHint)
    → InRange h
    → let (tag, payload) = Hints.into_parts h in
      merge_type_and_hint t h ≡ note_type_code t * 2 ^ 38 + payload * 2 ^ 6 + tag
unfolding merge_type_and_hint
merge_type_and_hint_lem t h r =
    let (tag, payload) = Hints.into_parts h in
    let (tag_small, payload_small) = into_parts-bounds h r in
    let type_small = type_code_small t in
    let code : bit_and (note_type_code t) 3 ≡ note_type_code t =
      omega (arith, bit_and_low 2 (note_type_code t)) in
    let tag' : bit_and tag 63 ≡ tag = omega (arith, bit_and_low 6 tag, tag_small) in
    rw
      (
        code,
        tag',
        bit_or_disjoint 38 (note_type_code t) (payload << 6) (omega (arith, payload_small)),
      )
      (ap (λ n. bit_or n tag) (regrouped (note_type_code t) payload)
        ∙ (bit_or_disjoint 6 (note_type_code t * 2 ^ 32 + payload) tag (omega (arith, tag_small))
            ∙ omega arith))
  where
    regrouped : (c p : ℕ) → c << 38 + p << 6 ≡ (c * 2 ^ 32 + p) << 6
    regrouped c p = omega arith

-- The merged number fits 40 bits, and the note type and the hint are read back from it, if the
-- numbers of the hint are in the range of their types.
pub unmerge-merge :
    (t : NoteType) (h : Hints.NoteExecutionHint)
    → InRange h
    → (merge_type_and_hint t h < 2 ^ 40)
      × (unmerge_type_and_hint (merge_type_and_hint t h) ≡ ok (t, h))
unfolding unmerge_type_and_hint
unmerge-merge t h r =
    let (tag, payload) = Hints.into_parts h in
    let (tag_small, payload_small) = into_parts-bounds h r in
    let type_small = type_code_small t in
    let sum = merge_type_and_hint_lem t h r in
    let n = merge_type_and_hint t h in
    let high : u8 (bit_and (n >> 38) 3) ≡ note_type_code t =
      omega (arith, sum, tag_small, payload_small, bit_and_low 2 (n >> 38)) in
    let low : u8 (bit_and n 63) ≡ tag =
      omega (arith, sum, tag_small, payload_small, bit_and_low 6 n) in
    let mid : u32 (bit_and (n >> 6) (2 ^ 32 - 1)) ≡ payload =
      omega (arith, sum, tag_small, payload_small, bit_and_low 32 (n >> 6)) in
    (
      omega (arith, sum, tag_small, payload_small),
      rw (high, low, mid, note_type_try_from-code t, from_parts-into_parts h r) refl,
    )

-- Metadata comes back from its word, if the sender is a valid ID, the tag is a `u32` that is valid
-- with the note type, and the numbers of the hint are in the range of their types.
pub try_from_word-to_word_metadata :
    ⦃F : Field⦄ (m : NoteMetadata)
    → account_id_from_felt m.sender ≡ ok m.sender
    → m.tag < 2 ^ 32
    → Tags.validate m.tag m.note_type ≡ ok m.tag
    → InRange m.execution_hint
    → try_from_word (to_word m) ≡ ok m
unfolding try_from_word to_word new
try_from_word-to_word_metadata ⦃F⦄ m sender tag valid r =
    let (small, back) = unmerge-merge m.note_type m.execution_hint r in
    let n = merge_type_and_hint m.note_type m.execution_hint in
    let canonical = F.felt_new_canonical n (omega (arith, small, F.half)) in
    let fits : ltb (2 ^ 32 - 1) m.tag ≡ false = ground arith in
    rw (sender, canonical, back, fits, valid) refl

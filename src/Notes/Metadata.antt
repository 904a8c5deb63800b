-- ===== src/Notes/Metadata.antt =====
-- `NoteMetadata`: objects/src/notes/metadata.rs.
pub mod Laws
use miden_base.Base.{
  ℕ, ◌+◌, ◌-◌, ◌*◌, ◌/◌, ◌%◌, ◌^◌, bit_and, bit_or, Bool, true, false, ltb, ◌==◌, if◌then◌else◌,
  Result, ok, err, panic, fail_if, map_err, ◌>>=◌,
}
use miden_base.Base.Bits.{◌<<◌, ◌>>◌, u8, u32}
use miden_base.Base.Words.{Felt, Field, Word}
use miden_base.Errors.{
  NoteError, inconsistent_note_tag, invalid_note_sender, invalid_note_type_value,
}
use miden_base.Accounts.Id.{account_id_from_felt}
use miden_base.Assets.Data.{AccountId}
use miden_base.Notes.Kinds.{NoteType, private, encrypted, public, note_type_code}
use miden_base.Notes.Tag as Tags
use miden_base.Notes.Hint as Hints

pub record NoteMetadata : Type 0 where
  pub sender : AccountId
  pub note_type : NoteType
  pub tag : Tags.NoteTag
  pub aux : Felt
  pub execution_hint : Hints.NoteExecutionHint

-- `TryFrom<u8> for NoteType`
unfoldable pub note_type_try_from : ℕ → Result NoteError NoteType
note_type_try_from code =
    if code == 2
    then ok private
    else if code == 3
    then ok encrypted
    else if code == 1
    then ok public
    else err (invalid_note_type_value code)

-- `NoteMetadata::new`
unfoldable pub new :
    AccountId
    → NoteType
    → Tags.NoteTag
    → Hints.NoteExecutionHint
    → Felt
    → Result NoteError NoteMetadata
unfolding Tags.validate
new sender note_type tag execution_hint aux = do
  tag' ← Tags.validate tag note_type
  ok (record {
    sender = sender;
    note_type = note_type;
    tag = tag';
    aux = aux;
    execution_hint = execution_hint;
  })

unfoldable pub merge_type_and_hint : NoteType → Hints.NoteExecutionHint → ℕ
unfolding Hints.into_parts
merge_type_and_hint note_type note_execution_hint =
    let (tag_nibble, payload) = Hints.into_parts note_execution_hint in
    let type_nibble = bit_and (note_type_code note_type) 3 in
    bit_or (bit_or (type_nibble << 38) (payload << 6)) (bit_and tag_nibble 63)

unfoldable pub unmerge_type_and_hint : ℕ → Result NoteError (NoteType × Hints.NoteExecutionHint)
unfolding note_type_try_from Hints.from_parts
unmerge_type_and_hint value =
    let high_nibble = u8 (bit_and (value >> 38) 3) in
    let tag_byte = u8 (bit_and value 63) in
    let payload = u32 (bit_and (value >> 6) (2 ^ 32 - 1)) in
    do
      note_type ← note_type_try_from high_nibble
      note_execution_hint ← Hints.from_parts tag_byte payload
      ok (note_type, note_execution_hint)

-- `From<NoteMetadata> for Word`
unfoldable pub to_word : ⦃F : Field⦄ → NoteMetadata → Word
unfolding merge_type_and_hint
to_word ⦃F⦄ metadata = record {
  e0 = metadata.tag;
  e1 = metadata.sender;
  e2 = F.felt_new (merge_type_and_hint metadata.note_type metadata.execution_hint);
  e3 = metadata.aux;
}

-- `TryFrom<Word> for NoteMetadata`
unfoldable pub try_from_word : Word → Result NoteError NoteMetadata
unfolding unmerge_type_and_hint new
try_from_word elements = do
  sender ← map_err invalid_note_sender (account_id_from_felt elements.e1)
  type_and_hint ← unmerge_type_and_hint elements.e2
  fail_if (ltb (2 ^ 32 - 1) elements.e0) (inconsistent_note_tag type_and_hint.0 elements.e0)
      (new sender type_and_hint.0 elements.e0 type_and_hint.1 elements.e3)

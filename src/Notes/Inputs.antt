-- ===== src/Notes/Inputs.antt =====
-- `NoteInputs`: objects/src/notes/inputs.rs. The hash is a parameter.
pub mod Laws
use miden_base.Base.{
  ℕ, ◌+◌, ◌-◌, ◌%◌, ◌^◌, Bool, true, false, List, [], ◌∷◌, ltb, ◌==◌, if◌then◌else◌, Result, ok,
  err, panic, fail_if, ◌>>=◌, length, resize,
}
use miden_base.Base.Words.{Felt, Digest}
use miden_base.Errors.{NoteError, too_many_inputs}

-- `MAX_INPUTS_PER_NOTE`
abbrev pub max_inputs_per_note : ℕ
max_inputs_per_note = 128

pub record NoteInputs : Type 0 where
  pub values : List Felt
  pub hash : Digest

-- `next_multiple_of`, for blocks of 8.
abbrev pub next_multiple : ℕ → ℕ
next_multiple n = if n % 8 == 0 then n else n + (8 - n % 8)

unfoldable pub pad_inputs : List Felt → List Felt
pad_inputs inputs = resize inputs (next_multiple (length inputs)) 0

module _ (hash_elements : List Felt → Digest) where
  unfoldable pub pad_and_build : List Felt → NoteInputs
  unfolding pad_inputs
  pad_and_build values = record { values = values; hash = hash_elements (pad_inputs values) }

  -- `NoteInputs::new`
  unfoldable pub new : List Felt → Result NoteError NoteInputs
  unfolding pad_and_build
  new values =
      fail_if (ltb max_inputs_per_note (length values)) (too_many_inputs (length values))
        (ok (pad_and_build values))

-- The panic is that of `debug_assert!`.
unfoldable pub num_values : NoteInputs → Result NoteError ℕ
num_values self =
    if ltb (length self.values) max_inputs_per_note then ok (length self.values % 2 ^ 8) else panic

unfoldable pub format_for_advice : NoteInputs → Result NoteError (List Felt)
unfolding pad_inputs num_values
format_for_advice self = do count ← num_values self; ok (count ∷ pad_inputs self.values)

-- ===== src/Notes/Inputs/Laws.antt =====
-- What holds of note inputs: objects/src/notes/inputs.rs.
use miden_base.Base.{
  ℕ, ◌+◌, ◌-◌, ◌%◌, ◌≤◌, ◌<◌, ◌≡◌, refl, ap, ◌∙◌, ◌⊎◌, inl, inr, List, ◌∷◌, ◌++◌, arith, ltb,
  Bool-cases, ok, err, panic, length, replicate, resize-pads, length-resize,
}
use miden_base.Base.Words.{Felt, Digest}
use miden_base.Errors.{too_many_inputs}
use miden_base.Notes.Inputs.{
  NoteInputs, max_inputs_per_note, next_multiple, pad_inputs, new, format_for_advice,
}

-- The padding fills the last block of 8 with zeros.
pad_inputs_lem :
    (xs : List Felt)
    → (n : ℕ) × (n < 8) × (pad_inputs xs ≡ xs ++ replicate n 0) × (length (pad_inputs xs) % 8 ≡ 0)
unfolding pad_inputs
pad_inputs_lem xs = (
  next_multiple (length xs) - length xs,
  ground arith,
  resize-pads xs _ _ 0 padded,
  ap (λ n. n % 8) (length-resize xs _ 0) ∙ ground arith,
)
  where
    padded : next_multiple (length xs) ≡ length xs + (next_multiple (length xs) - length xs)
    padded = ground arith

-- `new` accepts at most 128 values, keeps them, and commits to the padded values. What goes to the
-- advice map is the number of values before the padded ones, and it is given exactly if there are
-- fewer than 128: the debug assertion fails on 128 values, which `new` accepts.
inputs_new_lem :
    (hash : List Felt → Digest) (xs : List Felt)
    → ((max_inputs_per_note < length xs) × (new hash xs ≡ err (too_many_inputs (length xs))))
      ⊎ ((length xs ≤ max_inputs_per_note)
          × ((inputs : NoteInputs) × (new hash xs ≡ ok inputs)
              × (inputs.values ≡ xs)
              × (inputs.hash ≡ hash (pad_inputs xs))
              × (((length xs < max_inputs_per_note)
                    × (format_for_advice inputs ≡ ok (length xs ∷ pad_inputs xs)))
                  ⊎ ((length xs ≡ max_inputs_per_note) × (format_for_advice inputs ≡ panic)))))
unfolding new format_for_advice
inputs_new_lem hash xs = elim (Bool-cases (ltb max_inputs_per_note (length xs))) [
  | inl many ↦ inl (ground arith, ground arith)
  | inr few ↦ inr (
    ground arith,
    (
      record { values = xs; hash = hash (pad_inputs xs) },
      ground arith,
      refl,
      refl,
      advice (ground arith),
    ),
  )
]
  where
    advice :
        length xs ≤ max_inputs_per_note
        → ((length xs < max_inputs_per_note)
            × (format_for_advice (record { values = xs; hash = hash (pad_inputs xs) })
                ≡ ok (length xs ∷ pad_inputs xs)))
          ⊎ ((length xs ≡ max_inputs_per_note)
              × (format_for_advice (record { values = xs; hash = hash (pad_inputs xs) }) ≡ panic))
    advice h = elim (Bool-cases (ltb (length xs) max_inputs_per_note)) [
      | inl fewer ↦ inl (ground arith, ground arith)
      | inr full ↦ inr (ground arith, ground arith)
    ]

-- ===== src/Base/Trees.antt =====
-- The sparse Merkle tree of the crate `miden-crypto`, by what the code relies on: a map from
-- digests to words in which an absent key has the empty word.
use miden_base.Base.Tests.{if◌then◌else◌}
use miden_base.Base.Words.{Word, Digest, empty_word, word_eq}
use mathlib.Core.Path.{◌≡◌}
use mathlib.Core.Option.{Option, some}
use mathlib.Core.List.{List, [], ◌∷◌}

-- The value of the first entry with this key.
abbrev pub entry_value : List (Digest × Word) → Digest → Word
entry_value [] k = empty_word
entry_value ((j, v) ∷ es) k = if word_eq j k then v else entry_value es k

-- `insert` returns the old value and the new tree. `with_entries` fails on a repeated key.
pub record Smt : Type 1 where
  pub Tree : Type 0
  pub new : Tree
  pub root : Tree → Digest
  pub get_value : Tree → Digest → Word
  pub insert : Tree → Digest → Word → Word × Tree
  pub with_entries : List (Digest × Word) → Option Tree
  pub get_value-new : (k : Digest) → get_value new k ≡ empty_word
  pub insert_old : (t : Tree) (k : Digest) (v : Word) → (insert t k v).0 ≡ get_value t k
  pub get_value-insert :
      (t : Tree) (k : Digest) (v : Word) (j : Digest)
      → get_value (insert t k v).1 j ≡ (if word_eq k j then v else get_value t j)
  pub get_value-with_entries :
      (es : List (Digest × Word)) (t : Tree)
      → with_entries es ≡ some t
      → (k : Digest) → get_value t k ≡ entry_value es k

-- ===== src/Base/Hashing.antt =====
-- `Hasher` of the crate `miden-crypto`: the hash of a sequence and that of two digests.
use miden_base.Base.Words.{Felt, Digest}
use mathlib.Core.List.{List}

pub record Hasher : Type 0 where
  pub hash_elements : List Felt → Digest
  pub merge : Digest → Digest → Digest

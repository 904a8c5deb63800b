-- ===== src/Blocks/Chain.antt =====
-- `ChainMmr`: objects/src/transaction/chain_mmr.rs. The partial Merkle mountain range belongs to the
-- crate `miden-crypto`.
pub mod Laws
use miden_base.Base.{
  ℕ, suc, ◌%◌, ◌^◌, ◌≡◌, Bool, not, Option, none, some, List, [], ◌∷◌, leb, ◌==◌, if◌then◌else◌,
  Result, ok, err, panic, fail_if, ◌>>=◌,
}
use miden_base.Base.Words.{Digest}
use miden_base.Base.Maps.{Map, nat_key, lookup, insert}
use miden_base.Blocks.Header.{BlockHeader}

-- `PartialMmr`: `forest` is the number of its leaves, and `hash_peaks` stands for `peaks().hash_peaks()`.
pub record PartialMmr : Type 1 where
  pub Mmr : Type 0
  pub forest : Mmr → ℕ
  pub is_tracked : Mmr → ℕ → Bool
  pub hash_peaks : Mmr → Digest
  pub add : Mmr → Digest → Bool → Mmr
  pub forest-add : (m : Mmr) (d : Digest) (track : Bool) → forest (add m d track) ≡ suc (forest m)

pub data ChainMmrError : Type 0 where
  block_num_too_big : ℕ → ℕ → ChainMmrError
  duplicate_block : ℕ → ChainMmrError
  untracked_block : ℕ → ChainMmrError

pub record ChainMmr (Mmr : Type 0) : Type 0 where
  pub mmr : Mmr
  pub blocks : Map ℕ BlockHeader

module _ ⦃M : PartialMmr⦄ where
  -- The loop over the headers; `insert` gives the header that was there before.
  unfoldable pub add_headers :
      M.Mmr → List BlockHeader → Map ℕ BlockHeader → Result ChainMmrError (Map ℕ BlockHeader)
  add_headers mmr [] block_map = ok block_map
  add_headers mmr (block ∷ blocks) block_map =
      let num = block.block_num in
      let rest = add_headers mmr blocks (insert num block block_map) in
      fail_if (leb (M.forest mmr) num) (block_num_too_big (M.forest mmr) num)
        (elim (lookup num block_map) [
          | some _ ↦ err (duplicate_block num)
          | none ↦ fail_if (not (M.is_tracked mmr num)) (untracked_block num) rest
        ])

  -- `ChainMmr::new`
  unfoldable pub new : M.Mmr → List BlockHeader → Result ChainMmrError (ChainMmr M.Mmr)
  unfolding add_headers
  new mmr blocks = do
    block_map ← add_headers mmr blocks []
    ok (record { mmr = mmr; blocks = block_map })

  unfoldable pub chain_length : ChainMmr M.Mmr → ℕ
  chain_length self = M.forest self.mmr

  -- `peaks().hash_peaks()`
  unfoldable pub peaks_hash : ChainMmr M.Mmr → Digest
  peaks_hash self = M.hash_peaks self.mmr

  unfoldable pub get_block : ChainMmr M.Mmr → ℕ → Option BlockHeader
  get_block self block_num = lookup block_num self.blocks

  -- The panic is that of `assert_eq!`, on the length cast to `u32`.
  unfoldable pub add_block :
      BlockHeader → Bool → ChainMmr M.Mmr → Result ChainMmrError (ChainMmr M.Mmr)
  unfolding chain_length
  add_block block_header track self =
      if block_header.block_num == chain_length self % 2 ^ 32
      then ok (record self { mmr = M.add self.mmr block_header.hash track })
      else panic

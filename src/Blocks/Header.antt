-- ===== src/Blocks/Header.antt =====
-- `BlockHeader`: objects/src/block/header.rs.
use miden_base.Base.{ℕ, [], ◌∷◌, ◌++◌}
use miden_base.Base.Words.{Digest, word_elements}
use miden_base.Base.Hashing.{Hasher}

pub record BlockHeader : Type 0 where
  pub version : ℕ
  pub prev_hash : Digest
  pub block_num : ℕ
  pub chain_root : Digest
  pub account_root : Digest
  pub nullifier_root : Digest
  pub note_root : Digest
  pub tx_hash : Digest
  pub kernel_root : Digest
  pub proof_hash : Digest
  pub timestamp : ℕ
  pub sub_hash : Digest
  pub hash : Digest

module _ ⦃H : Hasher⦄ where
  unfoldable pub compute_sub_hash :
      ℕ → Digest → Digest → Digest → Digest → Digest → Digest → Digest → ℕ → ℕ → Digest
  compute_sub_hash version prev_hash chain_root account_root nullifier_root tx_hash kernel_root
        proof_hash timestamp block_num =
      H.hash_elements (
        word_elements prev_hash
        ++ (word_elements chain_root
            ++ (word_elements account_root
                ++ (word_elements nullifier_root
                    ++ (word_elements tx_hash
                        ++ (word_elements kernel_root
                            ++ (word_elements proof_hash
                                ++ (block_num ∷ version ∷ timestamp ∷ 0 ∷ []))))))))

  -- `BlockHeader::new`
  unfoldable pub new :
      ℕ
      → Digest
      → ℕ
      → Digest
      → Digest
      → Digest
      → Digest
      → Digest
      → Digest
      → Digest
      → ℕ
      → BlockHeader
  unfolding compute_sub_hash
  new version prev_hash block_num chain_root account_root nullifier_root note_root tx_hash
        kernel_root proof_hash timestamp =
      let sub_hash =
        compute_sub_hash version prev_hash chain_root account_root nullifier_root tx_hash
          kernel_root proof_hash timestamp block_num in
      record {
        version = version;
        prev_hash = prev_hash;
        block_num = block_num;
        chain_root = chain_root;
        account_root = account_root;
        nullifier_root = nullifier_root;
        note_root = note_root;
        tx_hash = tx_hash;
        kernel_root = kernel_root;
        proof_hash = proof_hash;
        timestamp = timestamp;
        sub_hash = sub_hash;
        hash = H.merge sub_hash note_root;
      }

-- ===== src/Blocks/Chain/Laws.antt =====
-- What a chain of headers holds: objects/src/transaction/chain_mmr.rs.
use miden_base.Base.{
  ℕ, zero, suc, ◌<◌, ◌≡◌, subst, true, none, some, List, [], ◌∷◌, ◌==◌, inl, inr, arith, Result, ok,
  >>=-eq-ok, get_elem?, Bool-cases, Option-cases,
}
use miden_base.Base.Maps.{Map, nat_key, lookup, insert, lookup-insert}
use miden_base.Blocks.Header.{BlockHeader}
use miden_base.Blocks.Chain.{
  PartialMmr, ChainMmr, ChainMmrError, add_headers, new, get_block, chain_length,
}

some-injective : {a b : BlockHeader} → some a ≡ some b → a ≡ b
some-injective h = cc

ok-injective :
    {a b : Map ℕ BlockHeader}
    → Path (Result ChainMmrError (Map ℕ BlockHeader)) (ok a) (ok b)
    → a ≡ b
ok-injective h = cc

module _ ⦃M : PartialMmr⦄ where
  -- Every header stands under its own number, which is below the length and tracked.
  abbrev pub IsIndexed : M.Mmr → Map ℕ BlockHeader → Type 0
  IsIndexed mmr blocks =
      (n : ℕ) (b : BlockHeader)
      → lookup n blocks ≡ some b
      → (b.block_num ≡ n) × (n < M.forest mmr) × (M.is_tracked mmr n ≡ true)

  insert-IsIndexed :
      (mmr : M.Mmr) (blocks : Map ℕ BlockHeader) (block : BlockHeader)
      → IsIndexed mmr blocks
      → block.block_num < M.forest mmr
      → M.is_tracked mmr block.block_num ≡ true
      → IsIndexed mmr (insert block.block_num block blocks)
  insert-IsIndexed mmr blocks block indexed small tracked n b h =
      elim (Bool-cases (block.block_num == n)) [
        | inl same ↦
            let is : block ≡ b =
              some-injective (ground (arith, h, lookup-insert block.block_num n block blocks)) in
            let num : block.block_num ≡ n = ground arith in
            subst (λ c. (c.block_num ≡ n) × (n < M.forest mmr) × (M.is_tracked mmr n ≡ true)) is
              (
                num,
                subst (λ k. k < M.forest mmr) num small,
                subst (λ k. M.is_tracked mmr k ≡ true) num tracked,
              )
        | inr other ↦ indexed n b (ground (arith, lookup-insert block.block_num n block blocks))
      ]

  -- The checks that the first header passed.
  headers_step :
      (mmr : M.Mmr) (block : BlockHeader) (blocks : List BlockHeader)
      (block_map final : Map ℕ BlockHeader)
      → add_headers mmr (block ∷ blocks) block_map ≡ ok final
      → (block.block_num < M.forest mmr)
        × (lookup block.block_num block_map ≡ none)
        × (M.is_tracked mmr block.block_num ≡ true)
        × (add_headers mmr blocks (insert block.block_num block block_map) ≡ ok final)
  unfolding add_headers
  headers_step mmr block blocks block_map final h =
      let small : block.block_num < M.forest mmr = ground arith in
      elim (Option-cases (lookup block.block_num block_map)) [
        | inr (b, there) ↦ absurd (ground arith)
        | inl absent ↦ elim (Bool-cases (M.is_tracked mmr block.block_num)) [
          | inl tracked ↦ (small, absent, tracked, ground arith)
          | inr untracked ↦ absurd (ground arith)
        ]
      ]

  -- The loop keeps what it has, adds every header of the list, and nothing else.
  add_headers_lem :
      (mmr : M.Mmr) (blocks : List BlockHeader) (block_map final : Map ℕ BlockHeader)
      → add_headers mmr blocks block_map ≡ ok final
      → IsIndexed mmr block_map
      → IsIndexed mmr final
        × ((n : ℕ) (b : BlockHeader) → lookup n block_map ≡ some b → lookup n final ≡ some b)
        × ((i : ℕ) (b : BlockHeader)
            → get_elem? blocks i ≡ some b
            → lookup b.block_num final ≡ some b)
  unfolding add_headers
  add_headers_lem mmr [] block_map final h indexed =
      let same : block_map ≡ final = ok-injective h in
      (
        subst (IsIndexed mmr) same indexed,
        λ n b e. subst (λ m. lookup n m ≡ some b) same e,
        λ i b e. absurd (cc),
      )
  add_headers_lem mmr (block ∷ blocks) block_map final h indexed =
      let (small, absent, tracked, rest) = headers_step mmr block blocks block_map final h in
      let (indexed', kept, added) =
        add_headers_lem mmr blocks (insert block.block_num block block_map) final rest
          (insert-IsIndexed mmr block_map block indexed small tracked) in
      (
        indexed',
        λ n b e. kept n b (still_there n b e absent),
        λ i b e.
            elim i
                as (λ k.
                  get_elem? (block ∷ blocks) k ≡ some b → lookup b.block_num final ≡ some b) [
                    | zero ↦ λ f.
                        subst (λ c. lookup c.block_num final ≡ some c) (some-injective f)
                          (kept block.block_num block (
                            ground (
                              arith,
                              lookup-insert block.block_num block.block_num block block_map,
                            )))
                    | suc k ↦ λ f. added k b f
                  ]
              e,
      )
    where
      still_there :
          (n : ℕ) (b : BlockHeader)
          → lookup n block_map ≡ some b
          → lookup block.block_num block_map ≡ none
          → lookup n (insert block.block_num block block_map) ≡ some b
      still_there n b e absent = elim (Bool-cases (block.block_num == n)) [
        | inl same ↦
            let num : block.block_num ≡ n = ground arith in
            absurd (cc (e, subst (λ k. lookup k block_map ≡ none) num absent))
        | inr other ↦ ground (arith, e, lookup-insert block.block_num n block block_map)
      ]

  -- If `new` makes a chain, each of its headers is found under its number, what is found under a
  -- number is a header with that number, below the length of the chain and tracked by its range.
  pub get_block-new :
      (mmr : M.Mmr) (blocks : List BlockHeader) (chain : ChainMmr M.Mmr)
      → new mmr blocks ≡ ok chain
      → ((i : ℕ) (b : BlockHeader)
          → get_elem? blocks i ≡ some b
          → get_block chain b.block_num ≡ some b)
        × ((n : ℕ) (b : BlockHeader)
            → get_block chain n ≡ some b
            → (b.block_num ≡ n) × (n < chain_length chain) × (M.is_tracked mmr n ≡ true))
  unfolding new get_block chain_length lookup
  get_block-new mmr blocks chain h =
      let (block_map, made, is) = >>=-eq-ok (add_headers mmr blocks []) _ h in
      let same : block_map ≡ chain.blocks = ground arith in
      let range : mmr ≡ chain.mmr = ground arith in
      let (indexed, _, added) =
        add_headers_lem mmr blocks [] chain.blocks
          (subst (λ m. add_headers mmr blocks [] ≡ ok m) same made) (λ n b e. absurd (cc)) in
      (
        added,
        λ n b e.
            let (num, small, tracked) = indexed n b e in
            (num, subst (λ m. n < M.forest m) range small, tracked),
      )

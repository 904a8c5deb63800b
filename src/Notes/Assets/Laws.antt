-- ===== src/Notes/Assets/Laws.antt =====
-- What holds of a note's assets: objects/src/notes/assets.rs.
use miden_base.Base.{
  ℕ, suc, ◌+◌, ◌≤◌, ◌≡◌, ◌≢◌, refl, sym, ap, subst, ◌∙◌, ◌⊎◌, inl, inr, true, some, List, [], ◌∷◌,
  ◌++◌, arith, ltb, ◌==◌, if◌then◌else◌, Bool-cases, Option-cases, Result, ok, err, panic, map_err,
  map_err-eq-ok, ◌>>=◌, >>=-eq-ok, length, length-append,
}
use miden_base.Base.Words.{Field, Felt, Digest}
use miden_base.Errors.{NoteError, invalid_asset_data, too_many_assets}
use miden_base.Assets.Data.{AccountId, FungibleAsset, Asset, fungible, non_fungible}
use miden_base.Assets.Fungible as FungibleOps
use miden_base.Assets.Whole
use miden_base.Notes.Assets.{
  NoteAssets, max_num_assets, combine, add_to_same, compute_asset_commitment, add_asset,
}

-- The amount of a faucet's asset.
abbrev pub amount_of : AccountId → Asset → ℕ
amount_of id (fungible a) = if a.faucet_id == id then a.amount else 0
amount_of id (non_fungible a) = 0

-- The amount of a faucet's assets in a list.
abbrev pub total : AccountId → List Asset → ℕ
total id [] = 0
total id (a ∷ rest) = amount_of id a + total id rest

add_parts :
    (a b c : FungibleAsset)
    → FungibleOps.add a b ≡ ok c
    → (c.faucet_id ≡ a.faucet_id) × (b.faucet_id ≡ a.faucet_id) × (c.amount ≡ a.amount + b.amount)
unfolding FungibleOps.add
add_parts a b c h = (ground arith, ground arith, ground arith)

combine_amount :
    (own asset sum : Asset) (id : AccountId)
    → Whole.is_same own asset ≡ true
    → combine own asset ≡ ok sum
    → amount_of id sum ≡ amount_of id own + amount_of id asset
unfolding combine Whole.is_same FungibleOps.add Whole.unwrap_fungible
combine_amount (fungible a) (fungible b) sum id same h =
    let (c, summed, last) =
      >>=-eq-ok (map_err invalid_asset_data (FungibleOps.add a b))
        (λ (c : FungibleAsset). ok (fungible c)) h in
    let added = map_err-eq-ok invalid_asset_data (FungibleOps.add a b) summed in
    let is_sum : fungible c ≡ sum = ground arith in
    let parts = add_parts a b c added in
    subst (λ (n : Asset). amount_of id n ≡ amount_of id (fungible a) + amount_of id (fungible b))
      is_sum (ground (arith, parts))
combine_amount (fungible a) (non_fungible b) sum id same h = absurd (cc)
combine_amount (non_fungible a) b sum id same h = absurd (cc)

total-append :
    (id : AccountId) (xs ys : List Asset) → total id (xs ++ ys) ≡ total id xs + total id ys
total-append id [] ys = omega arith
total-append id (x ∷ xs) ys = omega (arith, total-append id xs ys)

add_to_same-total :
    (asset : Asset) (xs ys : List Asset) (id : AccountId)
    → add_to_same asset xs ≡ some (ok ys)
    → (total id ys ≡ total id xs + amount_of id asset) × (length ys ≡ length xs)
unfolding add_to_same
add_to_same-total asset [] ys id h = absurd (cc)
add_to_same-total asset (own ∷ xs) ys id h = elim (Bool-cases (Whole.is_same own asset)) [
  | inl same ↦
      let e : (combine own asset >>= (λ a. ok (a ∷ xs))) ≡ ok ys = ground arith in
      let (new_own, combined, last) = >>=-eq-ok (combine own asset) _ e in
      let is : new_own ∷ xs ≡ ys = ground arith in
      subst
        (λ zs.
          (total id zs ≡ amount_of id own + total id xs + amount_of id asset)
          × (length zs ≡ suc (length xs)))
        is (omega (arith, combine_amount own asset new_own id same combined), refl)
  | inr other ↦ elim (Option-cases (add_to_same asset xs)) [
    | inl nothing ↦ absurd (ground arith)
    | inr (r, there) ↦
        let e : (r >>= (λ zs. ok (own ∷ zs))) ≡ ok ys = ground arith in
        let (zs, found, last) = >>=-eq-ok r _ e in
        let is : own ∷ zs ≡ ys = ground arith in
        let (sum, count) = add_to_same-total asset xs zs id (there ∙ ap some found) in
        subst
          (λ ws.
            (total id ws ≡ amount_of id own + total id xs + amount_of id asset)
            × (length ws ≡ suc (length xs)))
          is (omega (arith, sum), ap suc count)
  ]
]

module _ ⦃F : Field⦄ (hash_elements : List Felt → Digest) where
  -- What adding an asset does: the total of its faucet grows by its amount, there are at most 255
  -- assets and the commitment is up to date; or nothing changes; or, as the 256th asset, it is
  -- refused but stays in the list, and the commitment is the one from before.
  abbrev pub AddsAsset : Asset → NoteAssets → Result NoteError (Unit {0}) × NoteAssets → Type 0
  AddsAsset asset n (r, m) =
      ((r ≡ ok tt)
        × ((id : AccountId) → total id m.assets ≡ total id n.assets + amount_of id asset)
        × (length m.assets ≤ max_num_assets)
        × (m.hash ≡ compute_asset_commitment hash_elements m.assets))
      ⊎ ((r ≢ ok tt) × (m ≡ n))
      ⊎ ((length n.assets ≡ max_num_assets)
          × (r ≡ err (too_many_assets (max_num_assets + 1)))
          × (m ≡ record n { assets = n.assets ++ (asset ∷ []) }))

  -- Adding an asset to a note with at most 255 assets: it succeeds, and the total of every faucet
  -- has grown by what the asset adds, there are still at most 255 assets and the commitment is
  -- that of the assets; or it does not succeed and nothing changes; or, as the 256th asset, it is
  -- refused but stays in the list, and the commitment is the one from before.
  pub add_asset-AddsAsset :
      (asset : Asset) (n : NoteAssets)
      → length n.assets ≤ max_num_assets
      → AddsAsset asset n (add_asset hash_elements asset n)
  unfolding add_asset
  add_asset-AddsAsset asset n few = elim (Option-cases (add_to_same asset n.assets)) [
    | inr (r, there) ↦ by_outcome r there
    | inl nothing ↦ elim (Bool-cases (ltb max_num_assets (length (n.assets ++ (asset ∷ []))))) [
      | inl many ↦
          let full : length n.assets ≡ max_num_assets =
            ground (arith, length-append n.assets (asset ∷ [])) in
          let e : add_asset hash_elements asset n ≡ (
            err (too_many_assets (length (n.assets ++ (asset ∷ [])))),
            record n { assets = n.assets ++ (asset ∷ []) },
          ) =
            ground arith in
          subst (AddsAsset asset n) (sym e) (
            inr (
              inr (
                full,
                ap (λ k. err (too_many_assets k))
                    (length-append n.assets (asset ∷ []) ∙ omega arith),
                refl,
              )))
      | inr room ↦
          let ys = n.assets ++ (asset ∷ []) in
          let e : add_asset hash_elements asset n
              ≡ (ok tt, record { assets = ys; hash = compute_asset_commitment hash_elements ys }) =
            ground arith in
          subst (AddsAsset asset n) (sym e) (
            inl (
              refl,
              λ id. omega (arith, total-append id n.assets (asset ∷ [])),
              ground arith,
              refl,
            ))
    ]
  ]
    where
      by_outcome :
          (r : Result NoteError (List Asset))
          → add_to_same asset n.assets ≡ some r
          → AddsAsset asset n (add_asset hash_elements asset n)
      by_outcome (ok ys) there =
          let e : add_asset hash_elements asset n
              ≡ (ok tt, record { assets = ys; hash = compute_asset_commitment hash_elements ys }) =
            ground arith in
          subst (AddsAsset asset n) (sym e) (
            inl (
              refl,
              λ id. (add_to_same-total asset n.assets ys id there).0,
              omega (arith, (add_to_same-total asset n.assets ys 0 there).1),
              refl,
            ))
      by_outcome (err x) there =
          let e : add_asset hash_elements asset n ≡ (err x, n) = ground arith in
          subst (AddsAsset asset n) (sym e) (inr (inl (λ k. cc, refl)))
      by_outcome panic there =
          let e : add_asset hash_elements asset n ≡ (panic, n) = ground arith in
          subst (AddsAsset asset n) (sym e) (inr (inl (λ k. cc, refl)))

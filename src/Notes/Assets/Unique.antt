-- ===== src/Notes/Assets/Unique.antt =====
-- What `NoteAssets::new` accepts, and the padding: objects/src/notes/assets.rs.
use miden_base.Base.{
  ℕ, zero, suc, ◌+◌, ◌*◌, ◌%◌, ◌≤◌, ◌<◌, ◌≡◌, refl, sym, ap, subst, ◌∙◌, inl, inr, true, false,
  some, List, [], ◌∷◌, ◌++◌, arith, ltb, ◌==◌, Bool-cases, ok, ◌>>=◌, >>=-eq-ok, length,
  length-append, get_elem?, resize-pads, length-resize,
}
use miden_base.Base.Words.{Field, Felt, Digest}
use miden_base.Assets.Data.{Asset}
use miden_base.Assets.Whole
use miden_base.Notes.Assets.{
  NoteAssets, max_num_assets, any_same, check_duplicates, asset_elements, odd_padding,
  compute_asset_commitment, new, to_padded_assets,
}

-- No two assets of the list are the same.
abbrev pub Unique : List Asset → Type 0
Unique assets =
    (i j : ℕ) (a b : Asset)
    → i < j
    → get_elem? assets i ≡ some a
    → get_elem? assets j ≡ some b
    → Whole.is_same a b ≡ false

append_assoc {ℓ} : {A : Type ℓ} (xs ys zs : List A) → (xs ++ ys) ++ zs ≡ xs ++ (ys ++ zs)
append_assoc [] ys zs = refl
append_assoc (x ∷ xs) ys zs = ap (λ l. x ∷ l) (append_assoc xs ys zs)

get_elem?-append {ℓ} :
    {A : Type ℓ} (xs ys : List A) (i : ℕ) → i < length xs → get_elem? (xs ++ ys) i ≡ get_elem? xs i
get_elem?-append [] ys i h = absurd (omega arith)
get_elem?-append (x ∷ xs) ys zero h = refl
get_elem?-append (x ∷ xs) ys (suc i) h = get_elem?-append xs ys i (omega arith)

any_same-false :
    (b : Asset) (xs : List Asset) (i : ℕ) (a : Asset)
    → any_same b xs ≡ false
    → get_elem? xs i ≡ some a
    → Whole.is_same a b ≡ false
any_same-false b [] i a h k = absurd (cc)
any_same-false b (x ∷ xs) zero a h k = ground arith
any_same-false b (x ∷ xs) (suc i) a h k = any_same-false b xs i a (ground arith) k

-- Every asset of the second list differs from the earlier ones of both.
check_duplicates-differ :
    (before xs : List Asset)
    → check_duplicates before xs ≡ ok tt
    → (i j : ℕ) (a b : Asset) → i < length before + j
    → get_elem? (before ++ xs) i ≡ some a
    → get_elem? xs j ≡ some b
    → Whole.is_same a b ≡ false
unfolding check_duplicates
check_duplicates-differ before [] h i j a b k e f = absurd (cc)
check_duplicates-differ before (x ∷ xs) h i zero a b k e f =
    let fresh : any_same x before ≡ false = ground arith in
    let inside = sym (get_elem?-append before (x ∷ xs) i (omega arith)) ∙ e in
    let is : x ≡ b = ground arith in
    subst (λ c. Whole.is_same a c ≡ false) is (any_same-false x before i a fresh inside)
check_duplicates-differ before (x ∷ xs) h i (suc j) a b k e f =
    check_duplicates-differ (before ++ (x ∷ [])) xs (ground arith) i j a b
      (omega (arith, length-append before (x ∷ [])))
      (ap (λ l. get_elem? l i) (append_assoc before (x ∷ []) xs) ∙ e) f

module _ ⦃F : Field⦄ (hash_elements : List Felt → Digest) where
  -- What `new` accepts has at most 255 assets of which no two are the same, and the commitment is
  -- that of the assets.
  pub new-Unique :
      (assets : List Asset) (n : NoteAssets)
      → new hash_elements assets ≡ ok n
      → (n.assets ≡ assets)
        × (length assets ≤ max_num_assets)
        × Unique assets
        × (n.hash ≡ compute_asset_commitment hash_elements assets)
  unfolding new
  new-Unique assets n h = elim (Bool-cases (ltb max_num_assets (length assets))) [
    | inl many ↦ absurd (ground arith)
    | inr few ↦
        let made : NoteAssets = record {
          assets = assets;
          hash = compute_asset_commitment hash_elements assets;
        } in
        let e : (check_duplicates [] assets >>= (λ _. ok made)) ≡ ok n = ground arith in
        let (_, checked, last) = >>=-eq-ok (check_duplicates [] assets) _ e in
        let is : made ≡ n = ground arith in
        subst
          (λ (m : NoteAssets).
            (m.assets ≡ assets)
            × (length assets ≤ max_num_assets)
            × Unique assets
            × (m.hash ≡ compute_asset_commitment hash_elements assets))
          is
          (
            refl,
            ground arith,
            λ i j a b k. check_duplicates-differ [] assets checked i j a b (omega arith),
            refl,
          )
  ]

  length-asset_elements : (xs : List Asset) → length (asset_elements xs) ≡ length xs * 4
  unfolding asset_elements
  length-asset_elements [] = refl
  length-asset_elements (x ∷ xs) = omega (arith, length-asset_elements xs)

  append-nil {ℓ} : {A : Type ℓ} (xs : List A) → xs ++ [] ≡ xs
  append-nil [] = refl
  append-nil (x ∷ xs) = ap (λ l. x ∷ l) (append-nil xs)

  padded :
      (n : NoteAssets)
      → to_padded_assets n ≡ asset_elements n.assets ++ odd_padding (length n.assets)
  unfolding to_padded_assets
  padded n = elim (Bool-cases (length n.assets % 2 == 0)) [
    | inl even ↦
        let odd : (length n.assets % 2 == 1) ≡ false = ground arith in
        rw (even, odd)
          (resize-pads (asset_elements n.assets) 0 (length n.assets * 4) 0
            (omega (arith, length-asset_elements n.assets)))
    | inr not_even ↦
        let odd : (length n.assets % 2 == 1) ≡ true = ground arith in
        rw (not_even, odd)
          (resize-pads (asset_elements n.assets) 4 ((length n.assets + 1) * 4) 0
            (omega (arith, length-asset_elements n.assets)))
  ]

  -- The commitment of a note with assets is the hash of the padded assets, whose number of field
  -- elements is a multiple of 8.
  commitment_padded :
      (asset : Asset) (assets : List Asset) (n : NoteAssets)
      → new hash_elements (asset ∷ assets) ≡ ok n
      → (n.hash ≡ hash_elements (to_padded_assets n)) × (length (to_padded_assets n) % 8 ≡ 0)
  unfolding compute_asset_commitment to_padded_assets
  commitment_padded asset assets n h =
      let (is, _, _, hashed) = new-Unique (asset ∷ assets) n h in
      (
        hashed
            ∙ ap hash_elements
                (ap (λ l. asset_elements l ++ odd_padding (length l)) (sym is) ∙ sym (padded n)),
        ap (λ k. k % 8) (length-resize (asset_elements n.assets) _ 0) ∙ ground arith,
      )

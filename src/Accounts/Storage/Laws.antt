-- ===== src/Accounts/Storage/Laws.antt =====
-- The methods of `AccountStorage` on every branch: objects/src/accounts/storage/mod.rs.
use miden_base.Base.{
  ℕ, zero, suc, ◌<◌, ◌≤◌, ◌≡◌, refl, sym, subst, ◌≢◌, ◌⊎◌, inl, inr, none, some, List, [], ◌∷◌,
  arith, ◌==◌, ==_iff, if◌then◌else◌, Bool-cases, Option-cases, Result, ok, err, length, get_elem?,
  set, get_elem?-set_self, get_elem?-set_ne,
}
use miden_base.Base.Words.{Word, Digest, word_eq}
use miden_base.Base.Trees.{Smt}
use miden_base.Errors.{AccountError, storage_slot_not_value, storage_slot_not_map}
use miden_base.Accounts.Storage.{
  value, map, AccountStorage, out_of_bounds, get_map_item, set_item, set_map_item,
}

get_elem?-none {ℓ} : {A : Type ℓ} (xs : List A) (i : ℕ) → get_elem? xs i ≡ none → length xs ≤ i
get_elem?-none [] i h = omega arith
get_elem?-none (x ∷ xs) zero h = absurd (cc)
get_elem?-none (x ∷ xs) (suc i) h = omega (arith, get_elem?-none xs i h)

pub get_elem?-some {ℓ} :
    {A : Type ℓ} (xs : List A) (i : ℕ) (a : A) → get_elem? xs i ≡ some a → i < length xs
get_elem?-some [] i a h = absurd (cc)
get_elem?-some (x ∷ xs) zero a h = omega arith
get_elem?-some (x ∷ xs) (suc i) a h = omega (arith, get_elem?-some xs i a h)

-- The list after a write within bounds, at every index.
pub get_elem?-set {ℓ} :
    {A : Type ℓ} (xs : List A) (i : ℕ) (a b : A) (j : ℕ)
    → get_elem? xs i ≡ some a
    → get_elem? (set xs i b) j ≡ (if i == j then some b else get_elem? xs j)
get_elem?-set xs i a b j h = elim (Bool-cases (i == j)) [
  | inl same ↦
      let e = (==_iff i j).0 same in
      rw same (
        subst (λ k. get_elem? (set xs i b) k ≡ some b) e
          (get_elem?-set_self xs i b (get_elem?-some xs i a h)))
  | inr other ↦ rw other (get_elem?-set_ne xs i j b (λ e. ground (arith, ==_iff i j)))
]

module _ ⦃S : Smt⦄ where
  -- What `set_item` does to the slots: the old value comes back and only the slot of this index
  -- is written; or the slot is a map; or there is none.
  abbrev pub SetsItem :
      ℕ → Word → AccountStorage → Result AccountError Word × AccountStorage → Type 0
  SetsItem i w s (r, s') =
      ((old : Word) × (get_elem? s i ≡ some (value old))
        × (r ≡ ok old)
        × ((j : ℕ) → get_elem? s' j ≡ (if i == j then some (value w) else get_elem? s j)))
      ⊎ (((t : S.Tree) × (get_elem? s i ≡ some (map t))
            × (r ≡ err (storage_slot_not_value i))
            × (s' ≡ s))
          ⊎ ((length s ≤ i) × (r ≡ err (out_of_bounds s i)) × (s' ≡ s)))

  -- `set_item` on every branch: on a value slot it returns the old value and writes this slot
  -- only; on a map slot and out of bounds it fails with the error for it and changes nothing.
  pub set_item_lem : (i : ℕ) (w : Word) (s : AccountStorage) → SetsItem i w s (set_item i w s)
  unfolding set_item
  set_item_lem i w s = elim (Option-cases (get_elem? s i)) [
    | inl absent ↦
        let far = get_elem?-none s i absent in inr (inr (far, ground arith, ground arith))
    | inr (value old, there) ↦
        let near = get_elem?-some s i (value old) there in
        let e : set_item i w s ≡ (ok old, set s i (value w)) = ground arith in
        subst (SetsItem i w s) (sym e)
          (inl (old, there, refl, λ j. get_elem?-set s i (value old) (value w) j there))
    | inr (map t, there) ↦
        let near = get_elem?-some s i (map t) there in
        inr (inl (t, there, ground arith, ground arith))
  ]

  -- What `set_map_item` does: the old root and value come back and only this item of this slot
  -- is written; or the slot is a value; or there is none.
  abbrev pub SetsMapItem :
      ℕ
      → Digest
      → Word
      → AccountStorage
      → Result AccountError (Word × Word) × AccountStorage
      → Type 0
  SetsMapItem i key w s (r, s') =
      ((t : S.Tree) × (get_elem? s i ≡ some (map t))
        × (r ≡ ok (S.root t, S.get_value t key))
        × ((k : Digest)
            → get_map_item s' i k ≡ (if word_eq key k then ok w else get_map_item s i k))
        × ((j : ℕ) → i ≢ j → get_elem? s' j ≡ get_elem? s j))
      ⊎ (((v : Word) × (get_elem? s i ≡ some (value v))
            × (r ≡ err (storage_slot_not_map i))
            × (s' ≡ s))
          ⊎ ((length s ≤ i) × (r ≡ err (out_of_bounds s i)) × (s' ≡ s)))

  -- `set_map_item` on every branch: on a map slot it returns the old root and the old value and
  -- writes this item of this slot only; on a value slot and out of bounds it fails with the error
  -- for it and changes nothing.
  set_map_item_lem :
      (i : ℕ) (key : Digest) (w : Word) (s : AccountStorage)
      → SetsMapItem i key w s (set_map_item i key w s)
  unfolding set_map_item get_map_item
  set_map_item_lem i key w s = elim (Option-cases (get_elem? s i)) [
    | inl absent ↦
        let far = get_elem?-none s i absent in inr (inr (far, ground arith, ground arith))
    | inr (value v, there) ↦
        let near = get_elem?-some s i (value v) there in
        inr (inl (v, there, ground arith, ground arith))
    | inr (map t, there) ↦
        let near = get_elem?-some s i (map t) there in
        let t' = (S.insert t key w).1 in
        let e : set_map_item i key w s ≡ (ok (S.root t, (S.insert t key w).0), set s i (map t')) =
          ground arith in
        let written = get_elem?-set_self s i (map t') near in
        subst (SetsMapItem i key w s) (sym e) (
          inl (
            t,
            there,
            rw (S.insert_old t key w) refl,
            λ k. ground (arith, S.get_value-insert t key w k),
            λ j other. get_elem?-set_ne s i j (map t') other,
          ))
  ]

-- ===== src/Blocks/Block/Leaves.antt =====
-- The leaves of the notes of a block, in order: objects/src/block/note_tree.rs.
use miden_base.Base.{
  ℕ, zero, suc, ◌+◌, ◌*◌, ◌≤◌, ◌<◌, ◌≡◌, ◌≢◌, sym, ap, subst, ◌∙◌, some, List, [], ◌∷◌, ◌++◌, arith,
  All, length, get_elem?,
}
use miden_base.Base.Words.{Field, Digest}
use miden_base.Base.Hashing.{Hasher}
use miden_base.Notes.Note.{compute_note_hash}
use miden_base.Transactions.OutputNotes as Outputs
use miden_base.Transactions.OutputNotes.{OutputNote}
use miden_base.Blocks.Block.Laws.{SmallBatches}

-- Leaves in increasing order, from one bound up to another.
abbrev pub Within : ℕ → ℕ → List (ℕ × Digest) → Type 0
Within low high [] = Unit {0}
Within low high (l ∷ leaves) = (low ≤ l.0) × (l.0 < high) × Within (suc l.0) high leaves

Within-weaken :
    (low low' high : ℕ) (leaves : List (ℕ × Digest))
    → low ≤ low'
    → Within low' high leaves
    → Within low high leaves
Within-weaken low low' high [] h w = tt
Within-weaken low low' high (l ∷ leaves) h (a, b, w) = (omega arith, b, w)

Within-append :
    (low mid high : ℕ) (xs ys : List (ℕ × Digest))
    → low ≤ mid
    → mid ≤ high
    → Within low mid xs
    → Within mid high ys
    → Within low high (xs ++ ys)
Within-append low mid high [] ys h k wx wy = Within-weaken low mid high ys h wy
Within-append low mid high (x ∷ xs) ys h k (a, b, wx) wy =
    (a, omega arith, Within-append (suc x.0) mid high xs ys b k wx wy)

Within-get_elem? :
    (low high : ℕ) (xs : List (ℕ × Digest)) (i : ℕ) (a : ℕ × Digest)
    → Within low high xs
    → get_elem? xs i ≡ some a
    → low ≤ a.0
Within-get_elem? low high [] i a w e = absurd (cc)
Within-get_elem? low high (x ∷ xs) zero a (l, h, w) e =
    let is : x ≡ a = cc in subst (λ y. low ≤ y.0) is l
Within-get_elem? low high (x ∷ xs) (suc i) a (l, h, w) e =
    omega (arith, Within-get_elem? (suc x.0) high xs i a w e)

-- Such leaves have different indices.
pub Within-distinct :
    (low high : ℕ) (xs : List (ℕ × Digest))
    → Within low high xs
    → (i j : ℕ) (a b : ℕ × Digest) → i < j
    → get_elem? xs i ≡ some a
    → get_elem? xs j ≡ some b
    → a.0 ≢ b.0
Within-distinct low high [] w i j a b k e f same = absurd (cc (e))
Within-distinct low high (x ∷ xs) (l, h, w) i zero a b k e f same = absurd (omega arith)
Within-distinct low high (x ∷ xs) (l, h, w) zero (suc j) a b k e f same =
    let is : x ≡ a = cc (e) in
    let above = Within-get_elem? (suc x.0) high xs j b w f in
    let index : x.0 ≡ a.0 = ap (λ y. y.0) is in absurd (omega arith)
Within-distinct low high (x ∷ xs) (l, h, w) (suc i) (suc j) a b k e f same =
    Within-distinct (suc x.0) high xs w i j a b (omega arith) e f same

pub Within-All :
    (low high max : ℕ) (xs : List (ℕ × Digest))
    → high ≤ max
    → Within low high xs
    → All (λ (l : ℕ × Digest). l.0 < max) xs
Within-All low high max [] k w = tt
Within-All low high max (x ∷ xs) k (l, h, w) = (omega arith, Within-All (suc x.0) high max xs k w)

get_elem?-append_right {ℓ} :
    {A : Type ℓ} (xs ys : List A) (i : ℕ) → get_elem? (xs ++ ys) (length xs + i) ≡ get_elem? ys i
get_elem?-append_right [] ys i = ap (get_elem? ys) (omega arith)
get_elem?-append_right (x ∷ xs) ys i =
    ap (get_elem? (x ∷ (xs ++ ys))) {x = suc (length xs) + i} {y = suc (length xs + i)}
      (omega arith)
    ∙ get_elem?-append_right xs ys i

get_elem?-append_left {ℓ} :
    {A : Type ℓ} (xs ys : List A) (i : ℕ) (a : A)
    → get_elem? xs i ≡ some a
    → get_elem? (xs ++ ys) i ≡ some a
get_elem?-append_left [] ys i a e = absurd (cc)
get_elem?-append_left (x ∷ xs) ys zero a e = e
get_elem?-append_left (x ∷ xs) ys (suc i) a e = get_elem?-append_left xs ys i a e

module _ ⦃F : Field⦄ ⦃H : Hasher⦄ where
  -- The leaves of a batch from a position on, and those of the batches from a batch on.
  abbrev pub batch_leaves : ℕ → ℕ → List OutputNote → List (ℕ × Digest)
  batch_leaves b n [] = []
  batch_leaves b n (note ∷ rest) =
      (b * 1024 + n, compute_note_hash (Outputs.id note) (Outputs.metadata note))
      ∷ batch_leaves b (suc n) rest

  abbrev pub block_leaves : ℕ → List (List OutputNote) → List (ℕ × Digest)
  block_leaves b [] = []
  block_leaves b (batch ∷ batches) = batch_leaves b 0 batch ++ block_leaves (suc b) batches

  batch_leaves-Within :
      (b n : ℕ) (batch : List OutputNote)
      → n + length batch ≤ 1024
      → Within (b * 1024 + n) (suc b * 1024) (batch_leaves b n batch)
  batch_leaves-Within b n [] h = tt
  batch_leaves-Within b n (note ∷ rest) h = (
    omega arith,
    omega arith,
    Within-weaken (suc (b * 1024 + n)) (b * 1024 + suc n) (suc b * 1024)
        (batch_leaves b (suc n) rest) (omega arith)
        (batch_leaves-Within b (suc n) rest (omega arith)),
  )

  pub block_leaves-Within :
      (b : ℕ) (batches : List (List OutputNote))
      → SmallBatches batches
      → Within (b * 1024) ((b + length batches) * 1024) (block_leaves b batches)
  block_leaves-Within b [] h = tt
  block_leaves-Within b (batch ∷ batches) (h, hs) =
      Within-append (b * 1024) (suc b * 1024) ((b + suc (length batches)) * 1024)
        (batch_leaves b 0 batch) (block_leaves (suc b) batches) (omega arith) (omega arith)
        (Within-weaken (b * 1024) (b * 1024 + 0) (suc b * 1024) (batch_leaves b 0 batch)
          (omega arith) (batch_leaves-Within b 0 batch (omega arith)))
        (subst (λ high. Within (suc b * 1024) high (block_leaves (suc b) batches))
          {x = (suc b + length batches) * 1024} (omega arith)
          (block_leaves-Within (suc b) batches hs))

  batch_leaves-get_elem? :
      (b n : ℕ) (batch : List OutputNote) (j : ℕ) (note : OutputNote)
      → get_elem? batch j ≡ some note
      → get_elem? (batch_leaves b n batch) j
        ≡ some (b * 1024 + (n + j), compute_note_hash (Outputs.id note) (Outputs.metadata note))
  batch_leaves-get_elem? b n [] j note e = absurd (cc)
  batch_leaves-get_elem? b n (x ∷ rest) zero note e =
      let is : x ≡ note = cc in let index : b * 1024 + n ≡ b * 1024 + (n + 0) = omega arith in cc
  batch_leaves-get_elem? b n (x ∷ rest) (suc j) note e =
      let index : b * 1024 + (suc n + j) ≡ b * 1024 + (n + suc j) = omega arith in
      cc (batch_leaves-get_elem? b (suc n) rest j note e, index)

  -- The leaf of a note stands somewhere in the list.
  pub block_leaves-get_elem? :
      (b : ℕ) (batches : List (List OutputNote)) (i j : ℕ) (batch : List OutputNote)
      (note : OutputNote)
      → get_elem? batches i ≡ some batch
      → get_elem? batch j ≡ some note
      → (pos : ℕ) × (get_elem? (block_leaves b batches) pos
          ≡ some ((b + i) * 1024 + j, compute_note_hash (Outputs.id note) (Outputs.metadata note)))
  block_leaves-get_elem? b [] i j batch note e f = absurd (cc (e))
  block_leaves-get_elem? b (x ∷ batches) zero j batch note e f =
      let is : x ≡ batch = cc (e) in
      let inside = batch_leaves-get_elem? b 0 batch j note f in
      let index : b * 1024 + (0 + j) ≡ (b + 0) * 1024 + j = omega arith in
      (
        j,
        get_elem?-append_left (batch_leaves b 0 x) (block_leaves (suc b) batches) j _ (
            subst
              (λ y.
                get_elem? (batch_leaves b 0 y) j
                ≡ some (
                  (b + 0) * 1024 + j,
                  compute_note_hash (Outputs.id note) (Outputs.metadata note),
                ))
              (sym is) (cc (inside, index))),
      )
  block_leaves-get_elem? b (x ∷ batches) (suc i) j batch note e f =
      let (pos, there) = block_leaves-get_elem? (suc b) batches i j batch note e f in
      let index : (suc b + i) * 1024 + j ≡ (b + suc i) * 1024 + j = omega arith in
      (
        length (batch_leaves b 0 x) + pos,
        get_elem?-append_right (batch_leaves b 0 x) (block_leaves (suc b) batches) pos
            ∙ cc (there, index),
      )

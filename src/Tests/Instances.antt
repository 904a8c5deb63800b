-- ===== src/Tests/Instances.antt =====
-- The interfaces of the third-party crates as functions that compute.
use miden_base.Base.{
  ℕ, zero, suc, ◌+◌, ◌*◌, ◌<◌, ◌≡◌, ◌≢◌, refl, sym, ap, ◌∙◌, Bool, true, false, ◌||◌, ◌==◌, Option,
  none, some, List, [], ◌∷◌, arith, if◌then◌else◌, Bool-cases, inl, inr, get_elem?, ok,
}
use miden_base.Base.Words.{Felt, Digest, empty_word, word_eq}
use miden_base.Base.Hashing.{Hasher}
use miden_base.Blocks.NoteTree.{SimpleSmt}
use miden_base.Blocks.Chain.{PartialMmr}
use miden_base.Transactions.Inputs.{MerklePaths}
use miden_base.Host.Process.{AdviceProvider}

abbrev pub digest : ℕ → Digest
digest n = record empty_word { e0 = n }

abbrev weigh : List Felt → ℕ
weigh [] = 1
weigh (e ∷ es) = e + 3 * weigh es

instance abbrev pub weighing : Hasher
weighing = record {
  hash_elements = λ es. digest (weigh es);
  merge = λ a b. digest (1 + a.e0 + 2 * b.e0);
}

-- A tree is the list of its leaves.
abbrev pub Leaves : Type 0
Leaves = List (ℕ × Digest)

abbrev has_index : ℕ → Leaves → Bool
has_index i [] = false
has_index i ((j, _) ∷ ls) = (i == j) || has_index i ls

abbrev pub all_differ : Leaves → Bool
all_differ [] = true
all_differ ((i, _) ∷ ls) = if has_index i ls then false else all_differ ls

abbrev pub leaf_at : Leaves → ℕ → Digest
leaf_at [] i = empty_word
leaf_at ((j, d) ∷ ls) i = if i == j then d else leaf_at ls i

not_index :
    (i : ℕ) (ls : Leaves)
    → ((k : ℕ) (b : ℕ × Digest) → get_elem? ls k ≡ some b → i ≢ b.0)
    → has_index i ls ≡ false
not_index i [] h = refl
not_index i ((j, d) ∷ ls) h =
    let differ : i ≢ j = h 0 (j, d) refl in
    let rest = not_index i ls (λ k b e. h (suc k) b e) in ground arith

pub differ-all_differ :
    (ls : Leaves)
    → ((i j : ℕ) (a b : ℕ × Digest)
        → i < j
        → get_elem? ls i ≡ some a
        → get_elem? ls j ≡ some b
        → a.0 ≢ b.0)
    → all_differ ls ≡ true
differ-all_differ [] h = refl
differ-all_differ ((i, d) ∷ ls) h =
    let fresh = not_index i ls (λ k b e. h 0 (suc k) (i, d) b (omega arith) refl e) in
    rw fresh (differ-all_differ ls (λ j k a b lt e f. h (suc j) (suc k) a b (omega arith) e f))

has_index-get_elem? :
    (ls : Leaves) (k : ℕ) (a : ℕ × Digest) → get_elem? ls k ≡ some a → has_index a.0 ls ≡ true
has_index-get_elem? [] k a e = absurd (cc)
has_index-get_elem? ((j, d) ∷ ls) zero a e = ground arith
has_index-get_elem? ((j, d) ∷ ls) (suc k) a e = ground (arith, has_index-get_elem? ls k a e)

pub leaf_at-get_elem? :
    (ls : Leaves)
    → all_differ ls ≡ true
    → (k : ℕ) (a : ℕ × Digest) → get_elem? ls k ≡ some a
    → leaf_at ls a.0 ≡ a.1
leaf_at-get_elem? [] h k a e = absurd (cc)
leaf_at-get_elem? ((j, d) ∷ ls) h zero a e = ground arith
leaf_at-get_elem? ((j, d) ∷ ls) h (suc k) a e = elim (Bool-cases (has_index j ls)) [
  | inl repeated ↦ absurd (ground arith)
  | inr fresh ↦
      let there = has_index-get_elem? ls k a e in
      elim (Bool-cases (a.0 == j)) [
        | inl same ↦
            let is : a.0 ≡ j = ground arith in
            absurd (cc (there, fresh, ap (λ i. has_index i ls) is))
        | inr other ↦ rw other (leaf_at-get_elem? ls (ground arith) k a e)
      ]
]

pub kept :
    (ls t : Leaves)
    → (if all_differ ls then some ls else none) ≡ some t
    → (all_differ ls ≡ true) × (ls ≡ t)
kept ls t h = (ground arith, ground arith)

instance abbrev pub listed_leaves : SimpleSmt
listed_leaves = record {
  Tree = Leaves;
  with_leaves = λ ls. if all_differ ls then some ls else none;
  leaf = leaf_at;
  with_leaves_succeeds = λ ls small differ. (ls, rw (differ-all_differ ls differ) refl);
  leaf-with_leaves = λ ls t h i a e.
      let (differ, same) = kept ls t h in
      ap (λ (x : Leaves). leaf_at x a.0) (sym same) ∙ leaf_at-get_elem? ls differ i a e;
}

-- A range by the number of its leaves, which are all tracked.
instance abbrev pub counted_range : PartialMmr
counted_range = record {
  Mmr = ℕ;
  forest = λ m. m;
  is_tracked = λ m n. true;
  hash_peaks = digest;
  add = λ m d track. suc m;
  forest-add = λ m d track. refl;
}

-- A path that says whether it is one.
instance abbrev pub honest_paths : MerklePaths
honest_paths = record { MerklePath = Bool; verify = λ path index leaf root. path }

-- An advice map and an advice stack.
pub record Advice : Type 0 where
  pub map : List (Digest × List Felt)
  pub stack : List Felt

abbrev mapped : List (Digest × List Felt) → Digest → Option (List Felt)
mapped [] k = none
mapped ((j, values) ∷ m) k = if word_eq j k then some values else mapped m k

instance abbrev pub advice : AdviceProvider Advice
advice = record {
  get_mapped_values = λ a k. mapped a.map k;
  push_stack = λ v a. (ok tt, record a { stack = v ∷ a.stack });
}

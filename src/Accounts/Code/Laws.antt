-- ===== src/Accounts/Code/Laws.antt =====
-- What holds of account code: objects/src/accounts/code.
use miden_base.Base.{
  ℕ, suc, ◌+◌, ◌≤◌, ◌≡◌, refl, sym, ap, subst, ◌⊎◌, inl, inr, false, ◌||◌, none, some, List, [],
  ◌∷◌, ◌++◌, arith, ltb, ◌==◌, if◌then◌else◌, Bool-cases, ok, err, fail_if, ◌>>=◌, >>=-eq-ok,
  length, All, get_elem?,
}
use miden_base.Base.Words.{Word, Digest, Felt, word_eq, word_eq_iff}
use miden_base.Errors.{account_code_no_procedures, account_code_too_many_procedures}
use miden_base.Accounts.Kinds.{AccountType}
use miden_base.Accounts.Code.{
  AccountProcedureInfo, procedure_new, procedure_to_elements, procedure_try_from_elements,
  AccountCode, max_num_procedures, Component, contains_root, roots_of, add_procedure,
  add_procedures, add_modules, add_components, first_offset, from_components, position, is_nil,
  procedures_as_elements,
}

-- The slots that a procedure may use are slots of a storage, and none if it uses none.
pub record IsValid (p : AccountProcedureInfo) : Type 0 where
  pub within : p.storage_offset + p.storage_size ≤ 255
  pub pure : p.storage_size ≡ 0 → p.storage_offset ≡ 0

pub procedure_new_accepts :
    (root : Digest) (offset size : ℕ) (p : AccountProcedureInfo)
    → procedure_new root offset size ≡ ok p
    → IsValid p × (p ≡ record { mast_root = root; storage_offset = offset; storage_size = size })
unfolding procedure_new
procedure_new_accepts root offset size p h =
    (record { within = ground arith; pure = λ e. ground arith }, ground arith)

-- A procedure that `new` accepts survives the way to field elements and back.
pub procedure_roundtrip :
    (p : AccountProcedureInfo)
    → IsValid p
    → procedure_try_from_elements (procedure_to_elements p) ≡ ok p
unfolding procedure_try_from_elements procedure_to_elements
procedure_roundtrip p v = ground (arith, v.within)

-- No two entries of the list are equal.
abbrev pub Distinct : List Digest → Type 0
Distinct [] = Unit {0}
Distinct (root ∷ roots) = (contains_root root roots ≡ false) × Distinct roots

contains_root-append :
    (r : Digest) (xs ys : List Digest)
    → contains_root r (xs ++ ys) ≡ contains_root r xs || contains_root r ys
contains_root-append r [] ys = refl
contains_root-append r (x ∷ xs) ys = ground (arith, contains_root-append r xs ys)

roots_of-append :
    (ps qs : List AccountProcedureInfo) → roots_of (ps ++ qs) ≡ roots_of ps ++ roots_of qs
roots_of-append [] qs = refl
roots_of-append (p ∷ ps) qs = ap (λ r. p.mast_root ∷ r) (roots_of-append ps qs)

pub word_eq_comm : (a b : Word) → word_eq a b ≡ word_eq b a
word_eq_comm a b = ground arith

Distinct-snoc :
    (roots : List Digest) (r : Digest)
    → Distinct roots
    → contains_root r roots ≡ false
    → Distinct (roots ++ (r ∷ []))
Distinct-snoc [] r d h = (refl, tt)
Distinct-snoc (x ∷ xs) r (d, ds) h = (
  ground (arith, contains_root-append x xs (r ∷ []), word_eq_comm x r),
  Distinct-snoc xs r ds (ground arith),
)

All-snoc :
    (ps : List AccountProcedureInfo) (p : AccountProcedureInfo)
    → All IsValid ps
    → IsValid p
    → All IsValid (ps ++ (p ∷ []))
All-snoc [] p a v = (v, tt)
All-snoc (q ∷ ps) p (a, rest) v = (a, All-snoc ps p rest v)

-- Valid procedures with different roots.
abbrev pub Procedures : List AccountProcedureInfo → Type 0
Procedures ps = All IsValid ps × Distinct (roots_of ps)

add_procedure-Procedures :
    (offset size : ℕ) (root : Digest) (ps qs : List AccountProcedureInfo)
    → Procedures ps
    → add_procedure offset size root ps ≡ ok qs
    → Procedures qs
unfolding add_procedure
add_procedure-Procedures offset size root ps qs (a, d) h =
    elim (Bool-cases (contains_root root (roots_of ps))) [
      | inl twice ↦ absurd (ground arith)
      | inr fresh ↦
          let rest : (procedure_new root (if size == 0 then 0 else offset) size
                >>= (λ p. ok (ps ++ (p ∷ []))))
              ≡ ok qs =
            ground arith in
          let (p, made, e) =
            >>=-eq-ok (procedure_new root (if size == 0 then 0 else offset) size) _ rest in
          let (v, is) = procedure_new_accepts root _ size p made in
          let same : ps ++ (p ∷ []) ≡ qs = ground arith in
          let root_is : p.mast_root ≡ root = ap (λ (q : AccountProcedureInfo). q.mast_root) is in
          subst Procedures same (
            All-snoc ps p a v,
            subst Distinct (sym (roots_of-append ps (p ∷ [])))
                (Distinct-snoc (roots_of ps) p.mast_root d (rw root_is fresh)),
          )
    ]

add_procedures-Procedures :
    (offset size : ℕ) (roots : List Digest) (ps qs : List AccountProcedureInfo)
    → Procedures ps
    → add_procedures offset size roots ps ≡ ok qs
    → Procedures qs
unfolding add_procedures
add_procedures-Procedures offset size [] ps qs v h = subst Procedures (ground arith) v
add_procedures-Procedures offset size (root ∷ roots) ps qs v h =
    let (ps', one, rest) = >>=-eq-ok (add_procedure offset size root ps) _ h in
    add_procedures-Procedures offset size roots ps' qs
      (add_procedure-Procedures offset size root ps ps' v one) rest

add_modules-Procedures :
    (offset size : ℕ) (modules : List (List Digest)) (ps qs : List AccountProcedureInfo)
    → Procedures ps
    → add_modules offset size modules ps ≡ ok qs
    → Procedures qs
unfolding add_modules
add_modules-Procedures offset size [] ps qs v h = subst Procedures (ground arith) v
add_modules-Procedures offset size (roots ∷ modules) ps qs v h =
    let (ps', one, rest) = >>=-eq-ok (add_procedures offset size roots ps) _ h in
    add_modules-Procedures offset size modules ps' qs
      (add_procedures-Procedures offset size roots ps ps' v one) rest

add_components-Procedures :
    (offset : ℕ) (components : List Component) (ps qs : List AccountProcedureInfo)
    → Procedures ps
    → add_components offset components ps ≡ ok qs
    → Procedures qs
unfolding add_components
add_components-Procedures offset [] ps qs v h = subst Procedures (ground arith) v
add_components-Procedures offset (c ∷ components) ps qs v h =
    let (ps', one, rest) = >>=-eq-ok (add_modules offset c.storage_size c.modules ps) _ h in
    add_components-Procedures (offset + c.storage_size) components ps' qs
      (add_modules-Procedures offset c.storage_size c.modules ps ps' v one) (ground arith)

-- The code that `from_components` builds has between 1 and 256 procedures, with different roots,
-- and each of them stays within the slots of a storage.
pub from_components-IsCode :
    (hash : List Felt → Digest) (components : List Component) (type : AccountType)
    (code : AccountCode)
    → from_components hash components type ≡ ok code
    → Procedures code.procedures
      × (1 ≤ length code.procedures)
      × (length code.procedures ≤ max_num_procedures)
unfolding from_components
from_components-IsCode hash components type code h =
    let (ps, built, rest) = >>=-eq-ok (add_components (first_offset type) components []) _ h in
    let v = add_components-Procedures _ components [] ps (tt, tt) built in finish ps v rest
  where
    finish :
        (ps : List AccountProcedureInfo)
        → Procedures ps
        → (if is_nil ps
            then err account_code_no_procedures
            else fail_if
                (ltb max_num_procedures (length ps))
                (account_code_too_many_procedures max_num_procedures (length ps))
                (ok (record { commitment = hash (procedures_as_elements ps); procedures = ps })))
          ≡ ok code
        → Procedures code.procedures
          × (1 ≤ length code.procedures)
          × (length code.procedures ≤ max_num_procedures)
    finish [] v h = absurd (cc)
    finish (p ∷ ps) v h =
        let same : p ∷ ps ≡ code.procedures = ground arith in
        let few : length (p ∷ ps) ≤ max_num_procedures = ground arith in
        subst (λ qs. Procedures qs × (1 ≤ length qs) × (length qs ≤ max_num_procedures)) same
          (v, omega arith, few)

-- `position` finds the procedure with the root, and nothing exactly if no procedure has it.
pub position_lem :
    (root : Digest) (ps : List AccountProcedureInfo)
    → ((position root ps ≡ none) × (contains_root root (roots_of ps) ≡ false))
      ⊎ ((i : ℕ) × (p : AccountProcedureInfo) × (position root ps ≡ some i)
          × (get_elem? ps i ≡ some p)
          × (p.mast_root ≡ root))
unfolding position
position_lem root [] = inl (refl, refl)
position_lem root (p ∷ ps) = elim (Bool-cases (word_eq p.mast_root root)) [
  | inl same ↦ inr (0, p, rw same refl, refl, (word_eq_iff p.mast_root root).0 same)
  | inr other ↦ elim (position_lem root ps) [
    | inl (nothing, absent) ↦ inl (ground arith, ground (arith, word_eq_comm p.mast_root root))
    | inr (i, q, found, there, e) ↦ inr (suc i, q, ground arith, there, e)
  ]
]

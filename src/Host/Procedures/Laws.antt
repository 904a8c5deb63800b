-- ===== src/Host/Procedures/Laws.antt =====
-- The index of an account's procedures is that of its code: miden-tx/src/host/account_procs.rs and
-- objects/src/accounts/code.
use miden_base.Base.{
  ℕ, suc, ◌+◌, ◌*◌, ◌/◌, ◌%◌, ◌^◌, ◌≤◌, ◌≡◌, refl, ap, subst, ◌∙◌, inl, inr, true, false, List, [],
  ◌∷◌, map, arith, Bool-cases, Option, some, none, ok, ltb, ◌==◌, if◌then◌else◌, ok_or, length,
}
use miden_base.Base.Words.{Felt, Digest, word_eq, word_eq_iff}
use miden_base.Base.Maps.{Map, Key, lookup, insert, lookup-insert}
use miden_base.Kernel.Errors.{unknown_account_procedure}
use miden_base.Accounts.Code.{
  AccountProcedureInfo, AccountCode, procedure_to_elements, procedures_as_elements, contains_root,
  roots_of, position, max_num_procedures, Component, from_components,
}
use miden_base.Accounts.Code.Laws.{
  Procedures, procedure_roundtrip, word_eq_comm, from_components-IsCode,
}
use miden_base.Accounts.Kinds.{AccountType}
use miden_base.Host.Process.{ProcessState, AdviceProvider}
use miden_base.Host.Procedures.{
  is_empty, chunks, insert_procedures, index_procedures, AccountProcedureIndexMap, new,
  index_accounts, build_account_procedure_map, get_proc_index, current_code_commitment,
}

chunks-procedures :
    (ps : List AccountProcedureInfo)
    → chunks (procedures_as_elements ps) ≡ map procedure_to_elements ps
unfolding chunks procedures_as_elements procedure_to_elements
chunks-procedures [] = refl
chunks-procedures (p ∷ ps) = ap (λ l. procedure_to_elements p ∷ l) (chunks-procedures ps)

length-procedures :
    (ps : List AccountProcedureInfo) → length (procedures_as_elements ps) ≡ 8 * length ps
unfolding procedures_as_elements procedure_to_elements
length-procedures [] = refl
length-procedures (p ∷ ps) = omega (arith, length-procedures ps)

-- The position of a procedure, counted from a start, or else what was found before.
abbrev counted : ℕ → Option ℕ → Option ℕ → Option ℕ
counted start none before = before
counted start (some i) before = some (start + i)

position-absent :
    (root : Digest) (ps : List AccountProcedureInfo)
    → contains_root root (roots_of ps) ≡ false
    → position root ps ≡ none
unfolding position
position-absent root [] absent = refl
position-absent root (p ∷ ps) absent =
    ground (arith, position-absent root ps, word_eq_comm root p.mast_root)

not_empty : (elements : List Felt) → 1 ≤ length elements → is_empty elements ≡ false
not_empty [] h = absurd (omega arith)
not_empty (e ∷ es) h = refl

counted-none : (o : Option ℕ) → counted 0 o none ≡ o
counted-none none = refl
counted-none (some i) = ap some (omega arith)

module _ ⦃D : Key Digest⦄ where
  beq-word_eq : (a b : Digest) → D.beq a b ≡ word_eq a b
  beq-word_eq a b = ground (arith, D.beq_iff a b, word_eq_iff a b)

  counted-other :
      (start : ℕ) (o : Option ℕ) (before : Option ℕ)
      → counted (suc start) o before
        ≡ counted start (elim o [ none ↦ none | some i ↦ some (suc i) ]) before
  counted-other start none before = refl
  counted-other start (some i) before = ap some (omega arith)

  counted-cons :
      (start : ℕ) (p : AccountProcedureInfo) (ps : List AccountProcedureInfo) (root : Digest)
      (before : Option ℕ)
      → contains_root p.mast_root (roots_of ps) ≡ false
      → counted
          (suc start)
          (position root ps)
          (if D.beq p.mast_root root then some start else before)
        ≡ counted start (position root (p ∷ ps)) before
  unfolding position
  counted-cons start p ps root before fresh = elim (Bool-cases (word_eq p.mast_root root)) [
    | inl same ↦
        let is = (word_eq_iff p.mast_root root).0 same in
        let nothing =
          position-absent root ps (subst (λ r. contains_root r (roots_of ps) ≡ false) is fresh) in
        rw (beq-word_eq p.mast_root root, same, nothing) (ap some (omega arith))
    | inr different ↦
        rw (beq-word_eq p.mast_root root, different) (counted-other start (position root ps) before)
  ]

  insert_procedures-position :
      (start : ℕ) (ps : List AccountProcedureInfo) (m : Map Digest ℕ)
      → Procedures ps
      → start + length ps ≤ 256
      → (n : Map Digest ℕ) × (insert_procedures start (map procedure_to_elements ps) m ≡ ok n)
        × ((root : Digest) → lookup root n ≡ counted start (position root ps) (lookup root m))
  unfolding insert_procedures position lookup
  insert_procedures-position start [] m v few = (m, refl, λ root. refl)
  insert_procedures-position start (p ∷ ps) m ((v, vs), (d, ds)) few =
      let read = procedure_roundtrip p v in
      let fits : ltb start (2 ^ 8) ≡ true = ground arith in
      let (n, inserted, found) =
        insert_procedures-position (suc start) ps (insert p.mast_root start m) (vs, ds)
          (omega arith) in
      (
        n,
        rw (read, fits) inserted,
        λ root.
            found root
            ∙ (ap (counted (suc start) (position root ps)) (lookup-insert p.mast_root root start m)
                ∙ counted-cons start p ps root (lookup root m) d),
      )

  -- The map that is read from the elements of an account's code has the same procedures as the
  -- code, at the indices that the code gives them.
  pub index_procedures-position :
      (code : AccountCode)
      → Procedures code.procedures
      → 1 ≤ length code.procedures
      → length code.procedures ≤ max_num_procedures
      → (n : Map Digest ℕ) × (index_procedures (procedures_as_elements code.procedures) ≡ ok n)
        × ((root : Digest) → lookup root n ≡ position root code.procedures)
  unfolding index_procedures lookup
  index_procedures-position code v some_procedure few =
      let (n, inserted, found) = insert_procedures-position 0 code.procedures [] v (omega arith) in
      let elements = procedures_as_elements code.procedures in
      let len = length-procedures code.procedures in
      let some_element : is_empty elements ≡ false = not_empty elements (omega arith) in
      let whole : (length elements % 8 == 0) ≡ true = ground arith in
      let small : ltb 256 (length elements / 8) ≡ false = ground arith in
      (
        n,
        rw (some_element, whole, small, chunks-procedures code.procedures) inserted,
        λ root. found root ∙ counted-none (position root code.procedures),
      )

  -- The host's index of an account whose code was built from components, and is in the advice map
  -- under its commitment: the index exists, and it answers a request for the procedure on the stack
  -- with the position of the procedure in the code, or with an error exactly if the code has no such
  -- procedure.
  pub get_proc_index-position :
      {A : Type 0} ⦃P : AdviceProvider A⦄ (hash : List Felt → Digest) (components : List Component)
      (type : AccountType) (code : AccountCode) (adv : A) (process : ProcessState)
      → from_components hash components type ≡ ok code
      → P.get_mapped_values adv code.commitment ≡ some (procedures_as_elements code.procedures)
      → current_code_commitment process ≡ ok code.commitment
      → (m : AccountProcedureIndexMap) × (new (code.commitment ∷ []) adv ≡ ok m)
        × (get_proc_index m process
            ≡ ok_or
                (position (process.get_stack_word 0) code.procedures)
                (unknown_account_procedure (process.get_stack_word 0)))
  unfolding new index_accounts build_account_procedure_map get_proc_index insert lookup
  get_proc_index-position hash components type code adv process built mapped current =
      let (v, some_procedure, few) = from_components-IsCode hash components type code built in
      let (n, read, found) = index_procedures-position code v some_procedure few in
      let same : D.beq code.commitment code.commitment ≡ true = (D.beq_iff _ _).1 refl in
      (
        (code.commitment, n) ∷ [],
        rw (mapped, read) refl,
        rw (current, same, found (process.get_stack_word 0)) refl,
      )

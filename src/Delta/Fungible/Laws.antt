-- ===== src/Delta/Fungible/Laws.antt =====
-- What holds of fungible asset deltas: objects/src/accounts/delta/vault.rs.
use miden_base.Base.{
  ℕ, ◌<◌, ◌^◌, ◌≡◌, refl, sym, ap, subst, ◌∙◌, ◌⊎◌, inl, inr, true, false, none, some, [], ◌∷◌,
  arith, ◌==◌, ==_iff, if◌then◌else◌, Bool-cases, Option-cases, Result, ok, err, then_do-eq-ok, All,
}
use mathlib.Core.Bool.{false≢true}
use miden_base.Base.Ints.{
  ℤ, pos, ◌+ℤ◌, neg, is_zero, fits_i64, checked_add_i64, add_zero_ℤ, zero_add_ℤ, add_neg_cancel,
}
use miden_base.Base.Maps.{nat_key, lookup, insert, remove, lookup-insert, lookup-remove}
use miden_base.Base.Maps.Sorted.{Sorted, insert-Sorted, remove-Sorted, lookup-Above}
use miden_base.Errors.{AccountDeltaError, fungible_asset_delta_overflow}
use miden_base.Assets.Data.{AccountId, FungibleAsset}
use miden_base.Delta.Fungible.{FungibleAssetDelta, add_delta, add, subtract, merge, is_empty}

-- The change of a faucet's balance that the delta records.
abbrev pub change : FungibleAssetDelta → AccountId → ℤ
change m id = elim (lookup id m) [ none ↦ pos 0 | some d ↦ d ]

-- Every recorded change is an `i64`.
abbrev pub InRange : FungibleAssetDelta → Type 0
InRange m = (id : AccountId) → fits_i64 (change m id) ≡ true

-- What adding `d` for a faucet does: the change of the faucet grows by `d` and no other one
-- changes, or the sum is no `i64` and the delta stays as it was.
abbrev pub Shifts :
    AccountId
    → ℤ
    → FungibleAssetDelta
    → Result AccountDeltaError (Unit {0}) × FungibleAssetDelta
    → Type 0
Shifts id d m (r, m') =
    ((r ≡ ok tt)
      × (fits_i64 (change m id +ℤ d) ≡ true)
      × ((j : AccountId) → change m' j ≡ (if id == j then change m id +ℤ d else change m j)))
    ⊎ ((r ≡ err (fungible_asset_delta_overflow id (change m id) d))
        × (fits_i64 (change m id +ℤ d) ≡ false)
        × (m' ≡ m))

-- Two facts about changes that agree with others but at one faucet.
restore :
    (f g : AccountId → ℤ) (i j : AccountId) (n : ℕ)
    → ((k : AccountId) → f k ≡ (if i == k then g i +ℤ pos n else g k))
    → (if i == j then f i +ℤ neg n else f j) ≡ g j
restore f g i j n h = elim (Bool-cases (i == j)) [
  | inl same ↦ rw same (
      ap (λ (c : ℤ). c +ℤ neg n) (at_i ∙ refl)
      ∙ (add_neg_cancel (g i) n ∙ ap g ((==_iff i j).0 same)))
  | inr other ↦ rw other (h j ∙ rw other)
]
  where
    at_i : f i ≡ g i +ℤ pos n
    at_i = h i ∙ rw ((==_iff i i).1 refl)

pub regroup :
    (f g h : AccountId → ℤ) (i j : AccountId) (d : ℤ)
    → f j ≡ (if i == j then g i +ℤ d else g j)
    → h i ≡ pos 0
    → f j +ℤ h j ≡ g j +ℤ (if i == j then d else h j)
regroup f g h i j d shifted none_there = elim (Bool-cases (i == j)) [
  | inl same ↦
      let e = (==_iff i j).0 same in
      rw (shifted, same)
        (subst (λ k. g i +ℤ d +ℤ h k ≡ g k +ℤ d) e (rw none_there (add_zero_ℤ (g i +ℤ d))))
  | inr other ↦ rw (shifted, other)
]

-- A success excludes the overflow.
Shifts-ok :
    (id : AccountId) (d : ℤ) (m : FungibleAssetDelta)
    (p : Result AccountDeltaError (Unit {0}) × FungibleAssetDelta)
    → Shifts id d m p
    → p.0 ≡ ok tt
    → (j : AccountId) → change p.1 j ≡ (if id == j then change m id +ℤ d else change m j)
Shifts-ok id d m p (inl (_, _, shifted)) h j = shifted j
Shifts-ok id d m p (inr (failed, _, _)) h j = absurd (cc)

-- Nor does it overflow where the sum is an `i64`.
Shifts-fits :
    (id : AccountId) (d : ℤ) (m : FungibleAssetDelta)
    (p : Result AccountDeltaError (Unit {0}) × FungibleAssetDelta)
    → Shifts id d m p
    → fits_i64 (change m id +ℤ d) ≡ true
    → p.0 ≡ ok tt
Shifts-fits id d m p (inl (done, _, _)) h = done
Shifts-fits id d m p (inr (_, over, _)) h = absurd (false≢true (sym over ∙ h))

pub change-cons :
    (id : AccountId) (d : ℤ) (m : FungibleAssetDelta) (j : AccountId)
    → change ((id, d) ∷ m) j ≡ (if id == j then d else change m j)
unfolding lookup
change-cons id d m j = ground arith

change-insert :
    (m : FungibleAssetDelta) (id : AccountId) (d : ℤ) (j : AccountId)
    → change (insert id d m) j ≡ (if id == j then d else change m j)
change-insert m id d j = ground (arith, lookup-insert id j d m)

change-remove :
    (m : FungibleAssetDelta) (id j : AccountId)
    → change (remove id m) j ≡ (if id == j then pos 0 else change m j)
change-remove m id j = ground (arith, lookup-remove id j m)

is_zero→eq : (a : ℤ) → is_zero a ≡ true → a ≡ pos 0
is_zero→eq a h = ground arith

-- The outcome of `add_delta` on a faucet that is there, by the sum.
add_delta_present :
    (id : AccountId) (old d : ℤ) (m : FungibleAssetDelta)
    → lookup id m ≡ some old
    → Shifts id d m (add_delta id d m)
unfolding add_delta checked_add_i64
add_delta_present id old d m there = elim (Bool-cases (fits_i64 (old +ℤ d))) [
  | inr over ↦ inr (ground arith, ground arith, ground arith)
  | inl fits ↦ elim (Bool-cases (is_zero (old +ℤ d))) [
    | inl zero_sum ↦ inl (
      ground arith,
      ground arith,
      λ j. ground (arith, change-remove m id j, is_zero→eq (old +ℤ d)),
    )
    | inr some_sum ↦
        inl (ground arith, ground arith, λ j. ground (arith, change-insert m id (old +ℤ d) j))
  ]
]

-- `add_delta` of an `i64` shifts the change of one faucet and no other, if the sum is an `i64`;
-- else it reports the overflow and leaves the delta as it was.
pub add_delta-Shifts :
    (id : AccountId) (d : ℤ) (m : FungibleAssetDelta)
    → fits_i64 d ≡ true
    → Shifts id d m (add_delta id d m)
unfolding add_delta
add_delta-Shifts id d m h = elim (Option-cases (lookup id m)) [
  | inl absent ↦ inl (
    ground arith,
    ground (arith, zero_add_ℤ d),
    λ j. ground (arith, change-insert m id d j, zero_add_ℤ d),
  )
  | inr (old, there) ↦ add_delta_present id old d m there
]

pub add_delta-Sorted :
    (id : AccountId) (d : ℤ) (m : FungibleAssetDelta) → Sorted m → Sorted (add_delta id d m).1
unfolding add_delta
add_delta-Sorted id d m s = elim (Option-cases (lookup id m)) [
  | inl absent ↦ rw (absent, add_delta) (insert-Sorted id d m s)
  | inr (old, there) ↦ elim (Option-cases (checked_add_i64 old d)) [
    | inl over ↦ rw (there, add_delta, over) s
    | inr (total, fits) ↦ elim (Bool-cases (is_zero total)) [
      | inl nothing ↦ rw (there, add_delta, fits, nothing) (remove-Sorted id m s)
      | inr something ↦ rw (there, add_delta, fits, something) (insert-Sorted id total m s)
    ]
  ]
]

pub change-nil : (j : AccountId) → change [] j ≡ pos 0
unfolding lookup
change-nil j = refl

pub absent_change :
    (id : AccountId) (m : FungibleAssetDelta) → lookup id m ≡ none → change m id ≡ pos 0
absent_change id m h = rw (h, change)

-- What a merge needs of its argument: keys in order, and changes that are `i64`.
abbrev pub IsDelta : FungibleAssetDelta → Type 0
IsDelta m = Sorted m × All (λ (e : AccountId × ℤ). fits_i64 e.1 ≡ true) m

-- After a merge without an error the change of every faucet is the sum of the two. The delta that
-- is merged has its keys in order and changes that are `i64`.
pub merge_adds :
    (other self m : FungibleAssetDelta)
    → IsDelta other
    → merge other self ≡ (ok tt, m)
    → (j : AccountId) → change m j ≡ change self j +ℤ change other j
unfolding merge
merge_adds [] self m (s, fit) h j = ground (arith, add_zero_ℤ (change self j), change-nil j)
merge_adds ((id, d) ∷ other) self m (s, fit) h j =
    let (_, first, rest) = then_do-eq-ok (add_delta id d self) _ h in
    let p = add_delta id d self in
    let later = merge_adds other p.1 m (s.1, fit.1) rest j in
    let shifted = Shifts-ok id d self p (add_delta-Shifts id d self fit.0) first j in
    later
    ∙ (regroup (change p.1) (change self) (change other) id j d shifted
          (absent_change id other (lookup-Above id other s.0 s.1))
        ∙ ap (λ (c : ℤ). change self j +ℤ c) (sym (change-cons id d other j)))

-- After an asset was added to a delta with changes in range, its removal succeeds and leaves every
-- change as it was before both. The amount is below 2^63.
subtract-add :
    (a : FungibleAsset) (m m' : FungibleAssetDelta)
    → a.amount < 2 ^ 63
    → InRange m
    → add a m ≡ (ok tt, m')
    → ((subtract a m').0 ≡ ok tt) × ((j : AccountId) → change (subtract a m').1 j ≡ change m j)
unfolding add subtract
subtract-add a m m' small range h =
    let added : add_delta a.faucet_id (pos a.amount) m ≡ (ok tt, m') = ground arith in
    let up : Shifts a.faucet_id (pos a.amount) m (ok tt, m') =
      subst (Shifts a.faucet_id (pos a.amount) m) added
        (add_delta-Shifts a.faucet_id (pos a.amount) m (ground arith)) in
    let down = add_delta-Shifts a.faucet_id (neg a.amount) m' (ground arith) in
    let now = Shifts-ok a.faucet_id (pos a.amount) m (ok tt, m') up refl in
    let back = add_neg_cancel (change m a.faucet_id) a.amount in
    let here : change m' a.faucet_id ≡ change m a.faucet_id +ℤ pos a.amount =
      ground (arith, now a.faucet_id) in
    let fits : fits_i64 (change m' a.faucet_id +ℤ neg a.amount) ≡ true =
      rw (here, back) (range a.faucet_id) in
    let removed : subtract a m' ≡ add_delta a.faucet_id (neg a.amount) m' = ground arith in
    let done = Shifts-fits a.faucet_id (neg a.amount) m' _ down fits in
    rw removed (
      done,
      λ j.
          Shifts-ok a.faucet_id (neg a.amount) m' _ down done j
          ∙ restore (change m') (change m) a.faucet_id j a.amount now,
    )

insert-not-empty :
    (id : AccountId) (d : ℤ) (m : FungibleAssetDelta) → is_empty (insert id d m) ≡ false
unfolding insert is_empty
insert-not-empty id d [] = refl
insert-not-empty id d (e ∷ m) = ground arith

-- An empty change is recorded: adding an asset of amount 0 for a new faucet leaves an entry of 0,
-- and the delta counts as not empty.
add_zero_amount :
    (a : FungibleAsset) (m : FungibleAssetDelta)
    → a.amount ≡ 0
    → lookup a.faucet_id m ≡ none
    → ((add a m).0 ≡ ok tt)
      × (lookup a.faucet_id (add a m).1 ≡ some (pos 0))
      × (is_empty (add a m).1 ≡ false)
unfolding add add_delta
add_zero_amount a m nothing absent = (
  ground arith,
  ground (arith, lookup-insert a.faucet_id a.faucet_id (pos a.amount) m),
  ground (arith, insert-not-empty a.faucet_id (pos a.amount) m),
)

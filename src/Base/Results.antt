-- ===== src/Base/Results.antt =====
-- What a fallible function returns, and the methods that change an object and may fail.
use mathlib.Core.Path.{◌≡◌, refl}
use mathlib.Core.Bool.{Bool, true, false}
use mathlib.Core.Option.{Option, none, some}
use native.Mathlib.Omega.{arith}

-- `Result<A, E>`, with the outcome of an `expect`, an `unwrap` or an arithmetic overflow beside it.
pub data Result {ℓ κ} (E : Type κ) (A : Type ℓ) : Type (ℓ ⊔ κ) where
  ok : A → Result E A
  err : E → Result E A
  panic : Result E A

module _ {ℓ κ} {E : Type κ} {A : Type ℓ} where
  -- `if test { return Err(e) }`
  abbrev pub fail_if : Bool → E → Result E A → Result E A
  fail_if true e rest = err e
  fail_if false e rest = rest

  -- `o.ok_or(e)`
  abbrev pub ok_or : Option A → E → Result E A
  ok_or none e = err e
  ok_or (some a) e = ok a

-- The panic of an `expect` takes the place of a missing value.
abbrev pub expect {ℓ κ} : {E : Type κ} {A : Type ℓ} → Option A → Result E A
expect none = panic
expect (some a) = ok a

-- The panic of an `expect` takes the place of an error.
abbrev pub expect_ok {ℓ κ μ} : {E : Type κ} {F : Type μ} {A : Type ℓ} → Result E A → Result F A
expect_ok (ok a) = ok a
expect_ok (err e) = panic
expect_ok panic = panic

-- `fail_if` as a step of a chain.
abbrev pub reject_if {κ} : {E : Type κ} → Bool → E → Result E (Unit {0})
reject_if true e = err e
reject_if false e = ok tt

module _ {ℓ κ μ} {E : Type κ} {F : Type μ} {A : Type ℓ} where
  abbrev pub map_err : (E → F) → Result E A → Result F A
  map_err f (ok a) = ok a
  map_err f (err e) = err (f e)
  map_err f panic = panic

infixl 5 ◌>>=◌
abbrev pub ◌>>=◌ {ℓ κ μ} :
    {E : Type κ} {A : Type ℓ} {B : Type μ} → Result E A → (A → Result E B) → Result E B
ok a >>= f = f a
err e >>= f = err e
panic >>= f = panic

pub ok_injective {ℓ κ} :
    {E : Type κ} {A : Type ℓ} {a b : A} → ◌≡◌ {A = Result E A} (ok a) (ok b) → a ≡ b
ok_injective h = ground arith

pub some_injective {ℓ} : {A : Type ℓ} {a b : A} → some a ≡ some b → a ≡ b
some_injective h = cc

-- A chain that succeeds has a first step that succeeds.
pub >>=-eq-ok {ℓ κ μ} :
    {E : Type κ} {A : Type ℓ} {B : Type μ} (r : Result E A) (f : A → Result E B) {b : B}
    → (r >>= f) ≡ ok b
    → (a : A) × (r ≡ ok a) × (f a ≡ ok b)
>>=-eq-ok (ok a) f h = (a, refl, h)
>>=-eq-ok (err e) f h = absurd (cc)
>>=-eq-ok panic f h = absurd (cc)

pub reject_if-eq-ok {κ} :
    {E : Type κ} (test : Bool) (e : E) → reject_if test e ≡ ok tt → test ≡ false
reject_if-eq-ok true e h = absurd (cc)
reject_if-eq-ok false e h = refl

-- A check that is passed is false, and what follows it succeeds.
pub fail_if-eq-ok {ℓ κ} :
    {E : Type κ} {A : Type ℓ} (test : Bool) (e : E) (rest : Result E A) {a : A}
    → fail_if test e rest ≡ ok a
    → (test ≡ false) × (rest ≡ ok a)
fail_if-eq-ok true e rest h = absurd (cc)
fail_if-eq-ok false e rest h = (refl, h)

-- A method on `&mut self`: what was written before an error stays written, so the object comes
-- back beside the outcome.
abbrev pub Method {ℓ κ μ} : Type κ → Type μ → Type ℓ → Type (ℓ ⊔ κ ⊔ μ)
Method S E A = S → Result E A × S

module _ {ℓ κ μ ν} {S : Type κ} {E : Type μ} {A : Type ℓ} {B : Type ν} where
  -- `let a = r?;` and then the rest, on the object that the call left.
  abbrev pub then_do : Result E A × S → (A → Method S E B) → Result E B × S
  then_do (ok a, s) f = f a s
  then_do (err e, s) f = (err e, s)
  then_do (panic, s) f = (panic, s)

  -- A chain that succeeds has a first step that succeeds, and goes on from the object it left.
  pub then_do-eq-ok :
      (p : Result E A × S) (f : A → Method S E B) {b : B} {s : S}
      → then_do p f ≡ (ok b, s)
      → (a : A) × (p.0 ≡ ok a) × (f a p.1 ≡ (ok b, s))
  then_do-eq-ok (ok a, s) f h = (a, refl, h)
  then_do-eq-ok (err e, s) f h = absurd (cc)
  then_do-eq-ok (panic, s) f h = absurd (cc)

  -- What no step changes, a chain does not change.
  pub then_do-keeps {κ'} :
      {X : Type κ'} (g : S → X) (r : Result E A) (s : S) (f : A → Method S E B)
      → ((a : A) → g (f a s).1 ≡ g s)
      → g (then_do (r, s) f).1 ≡ g s
  then_do-keeps g (ok a) s f h = h a
  then_do-keeps g (err e) s f h = refl
  then_do-keeps g panic s f h = refl

  -- A chain whose first step succeeds is the rest of it.
  pub then_do-ok :
      (p : Result E A × S) (f : A → Method S E B) {a : A} → p.0 ≡ ok a → then_do p f ≡ f a p.1
  then_do-ok (ok a, s) f h = ground arith
  then_do-ok (err e, s) f h = absurd (cc)
  then_do-ok (panic, s) f h = absurd (cc)

pub map_err-eq-ok {ℓ κ μ} :
    {E : Type κ} {F : Type μ} {A : Type ℓ} (f : E → F) (r : Result E A) {a : A}
    → map_err f r ≡ ok a
    → r ≡ ok a
map_err-eq-ok f (ok b) h = ground arith
map_err-eq-ok f (err e) h = absurd (cc)
map_err-eq-ok f panic h = absurd (cc)

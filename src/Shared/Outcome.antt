-- ===== src/Shared/Outcome.antt =====
-- What an operation throws, and its result: a value, or the error that the source throws. The
-- constructors are the error classes of packages/core/src; `TypeError` carries its message.
use Prim.Native.Nat.{ℕ}
use Prim.Native.String.{String}
use mathlib.Core.Path.{◌≡◌, refl}
use mathlib.Core.Logic.{◌⊎◌, inl, inr}
use mathlib.Core.Bool.{Bool, true, false}
use mathlib.Core.Option.{Option, none, some}
use mathlib.Core.List.{List}

pub data Error : Type 0 where
  type_error : String → Error
  plain_error : String → Error
  authentication_required : Error
  constitutional_authority_denied : Error
  owner_bootstrap_conflict : Error
  authorization_denied : String → String → Error
  record_version_conflict : String → ℕ → Error
  project_version_conflict : String → ℕ → Error
  work_package_dependency_invalid : List String → Error
  quality_gate_evidence_invalid : List String → Error

-- A promise that is fulfilled, or one that is rejected.
pub data Result {ℓ} (Value : Type ℓ) : Type ℓ where
  err : (thrown : Error) → Result Value
  ok : (value : Value) → Result Value

-- `if (!test) throw error`.
abbrev pub guard : (test : Bool) (thrown : Error) → Result (Unit {0})
guard false thrown = err thrown
guard true thrown = ok tt

-- `if (!test) throw new TypeError(message)`.
abbrev pub check : (test : Bool) (message : String) → Result (Unit {0})
check test message = guard test (type_error message)

-- `await`, and a statement whose value is not used.
infixl 5 ◌>>=◌ ◌>>◌
abbrev pub ◌>>=◌ {ℓ κ} :
    {Value : Type ℓ} {Next : Type κ} → (m : Result Value) (rest : Value → Result Next) → Result Next
err thrown >>= rest = err thrown
ok value >>= rest = rest value

abbrev pub ◌>>◌ {κ} : {Next : Type κ} → Result (Unit {0}) → Result Next → Result Next
first >> rest = first >>= λ done. rest

-- `if (x === null) throw new TypeError(message)`.
abbrev pub found {ℓ} : {A : Type ℓ} → Option A → String → Result A
found none message = err (type_error message)
found (some a) message = ok a

-- A created row, or the unique violation P2002 as the caller reports it.
abbrev pub inserted {ℓ} : {A : Type ℓ} → Option A → Error → Result A
inserted none e = err e
inserted (some a) e = ok a

abbrev pub unique_violation : Error
unique_violation = plain_error "P2002"

-- What is known of the parts of a call that is fulfilled.
module _ {ℓ κ} {Value : Type ℓ} {Next : Type κ} {out : Next} where
  pub >>=-eq-ok :
      (call : Result Value) (rest : Value → Result Next)
      → (call >>= rest) ≡ ok out
      → (value : Value) × (call ≡ ok value) × (rest value ≡ ok out)
  >>=-eq-ok (err thrown) rest same = cc
  >>=-eq-ok (ok value) rest same = (value, refl, same)

  pub found-eq-ok :
      (row : Option Value) (message : String) (rest : Value → Result Next)
      → (found row message >>= rest) ≡ ok out
      → (value : Value) × (row ≡ some value) × (rest value ≡ ok out)
  found-eq-ok none message rest same = cc
  found-eq-ok (some value) message rest same = (value, refl, same)

pub guard-eq-ok {κ} :
    {Next : Type κ} (test : Bool) (thrown : Error) (rest : Result Next) {out : Next}
    → (guard test thrown >> rest) ≡ ok out
    → (test ≡ true) × (rest ≡ ok out)
guard-eq-ok false thrown rest same = cc
guard-eq-ok true thrown rest same = (refl, same)

pub Result-cases {ℓ} :
    {A : Type ℓ} (r : Result A) → ((a : A) × (r ≡ ok a)) ⊎ ((e : Error) × (r ≡ err e))
Result-cases (ok a) = inl (a, refl)
Result-cases (err e) = inr (e, refl)

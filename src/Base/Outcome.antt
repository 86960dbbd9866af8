-- ===== src/Base/Outcome.antt =====
-- What a C++ call ends in: a value, or the exception that it throws.
use mathlib.Core.Path.{◌≡◌, refl}
use mathlib.Core.Logic.{◌⊎◌, inl, inr}
use mathlib.Core.Bool.{Bool, true, false}
use mathlib.Core.Option.{Option, none, some}

-- `terminated` is a failed `COSIM_PRECONDITION` or `COSIM_PANIC`, which end the process.
-- `undefined` is a read that C++ gives no meaning to.
pub data Failure : Type 0 where
  invalid_argument out_of_range domain_error logic_error length_error : Failure
  invalid_system_structure simulation_error unsupported_feature : Failure
  bad_variant_access runtime_error terminated undefined : Failure

pub data Outcome {ℓ} (A : Type ℓ) : Type ℓ where
  ok : A → Outcome A
  err : Failure → Outcome A

abbrev pub of_option {ℓ} : {A : Type ℓ} → Failure → Option A → Outcome A
of_option e none = err e
of_option e (some a) = ok a

-- `COSIM_INPUT_CHECK` and the like.
abbrev pub guard : Bool → Failure → Outcome (Unit {0})
guard false failure = err failure
guard true failure = ok tt

infixl 5 ◌>>=◌
abbrev pub ◌>>=◌ {κ ℓ} : {B : Type κ} {A : Type ℓ} (call : Outcome B) → (B → Outcome A) → Outcome A
err failure >>= next = err failure
ok b >>= next = next b

infixl 5 ◌>>◌
abbrev pub ◌>>◌ {ℓ} : {A : Type ℓ} (check : Outcome (Unit {0})) → Outcome A → Outcome A
check >> next = check >>= λ _. next

-- A chain of calls that returns has a first call that returns.
pub >>=-eq-ok {κ ℓ} :
    {B : Type κ} {A : Type ℓ} (call : Outcome B) (next : B → Outcome A) {a : A}
    → (call >>= next) ≡ ok a
    → (b : B) × (call ≡ ok b) × (next b ≡ ok a)
>>=-eq-ok (err failure) next returns = cc
>>=-eq-ok (ok b) next returns = (b, refl, returns)

pub Outcome-cases {ℓ} :
    {A : Type ℓ} (m : Outcome A) → ((a : A) × (m ≡ ok a)) ⊎ ((e : Failure) × (m ≡ err e))
Outcome-cases (ok a) = inl (a, refl)
Outcome-cases (err e) = inr (e, refl)

pub ok_cancel {ℓ} : {A : Type ℓ} {x y : A} → ok x ≡ ok y → x ≡ y
ok_cancel e = cc

pub of_option-ok {ℓ} :
    {A : Type ℓ} (x : Failure) (o : Option A) {a : A} → of_option x o ≡ ok a → o ≡ some a
of_option-ok x none h = cc
of_option-ok x (some b) h = cc

pub guard-true : (b : Bool) (x : Failure) {u : Unit {0}} → guard b x ≡ ok u → b ≡ true
guard-true true x h = refl
guard-true false x h = cc

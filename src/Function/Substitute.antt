-- ===== src/Function/Substitute.antt =====
-- src/cosim/function/utility.cpp: the placeholders in a description replaced by parameter values.
use libcosim.Base.{ℕ, List, [], ◌∷◌, Option, none, some, get_elem?, if◌then◌else◌, ℕ_discrete}
use libcosim.Base.Int.{ℤ, pos, negsuc, lt_ℤ}
use libcosim.Base.Outcome.{
  Outcome, ok, err, out_of_range, logic_error, domain_error, bad_variant_access, of_option, ◌>>=◌,
  ◌>>◌,
}
use libcosim.Base.Assoc.{find}
use libcosim.Model.{VariableType}
use libcosim.Function.Description.{
  ParameterValue, of_integer, of_type, ParameterValues, ParameterDescription, Field, value,
  placeholder, IoDescription, IoGroupDescription, FunctionDescription, FunctionTypeDescription,
}

unfoldable pub ℤ-discrete : Discrete ℤ
ℤ-discrete = hlevel ℕ_discrete

module _ {Real : Type 0} where
  -- `std::get_if<T>`, for the two types that placeholders stand for
  abbrev pub as_integer : ParameterValue Real → Option ℤ
  as_integer (of_integer n) = some n
  as_integer _ = none

  abbrev pub as_type : ParameterValue Real → Option VariableType
  as_type (of_type t) = some t
  as_type _ = none

  -- `parameterDescriptions_[index]`, behind the check of the index
  unfoldable pub parameter_at :
      List (ParameterDescription Real) → ℤ → Outcome (ParameterDescription Real)
  parameter_at ds (pos i) = of_option out_of_range (get_elem? ds i)
  parameter_at ds (negsuc i) = err out_of_range

  -- `if (descr.min_value && value < std::get<T>(*descr.min_value)) throw`, and for `max_value`
  unfoldable pub check_min : ℤ → Option (ParameterValue Real) → Outcome (Unit {0})
  check_min n none = ok tt
  check_min n (some m) = do
    least ← of_option bad_variant_access (as_integer m)
    if lt_ℤ n least then err domain_error else ok tt

  unfoldable pub check_max : ℤ → Option (ParameterValue Real) → Outcome (Unit {0})
  check_max n none = ok tt
  check_max n (some m) = do
    greatest ← of_option bad_variant_access (as_integer m)
    if lt_ℤ greatest n then err domain_error else ok tt

  -- The bounds are checked only of a number (`if constexpr`).
  abbrev pub check_integer : ParameterDescription Real → ℤ → Outcome (Unit {0})
  check_integer d n = do check_min n d.min_value; check_max n d.max_value

  abbrev pub check_nothing : ParameterDescription Real → VariableType → Outcome (Unit {0})
  check_nothing d t = ok tt

  -- `replace_placeholder<T>`
  unfoldable pub replace_placeholder :
      {T : Type 0}
      → (ParameterValue Real → Option T)
      → (ParameterDescription Real → T → Outcome (Unit {0}))
      → ParameterValues Real
      → List (ParameterDescription Real)
      → Field T
      → Outcome T
  replace_placeholder get check vs ds (value x) = ok x
  replace_placeholder get check vs ds (placeholder i) = do
    d ← parameter_at ds i
    elim (find ℤ-discrete i vs) [
      | none ↦ of_option logic_error (get d.default_value)
      | some v ↦ of_option logic_error (get v) >>= λ x. check d x >> ok x
    ]

  unfoldable pub substitute_io :
      ParameterValues Real
      → List (ParameterDescription Real)
      → IoDescription
      → Outcome IoDescription
  substitute_io vs ds io = do
    n ← replace_placeholder as_integer check_integer vs ds io.count
    t ← replace_placeholder as_type check_nothing vs ds io.type
    ok (record io { count = value n; type = value t })

  unfoldable pub substitute_ios :
      ParameterValues Real
      → List (ParameterDescription Real)
      → List IoDescription
      → Outcome (List IoDescription)
  substitute_ios vs ds [] = ok []
  substitute_ios vs ds (io ∷ ios) = do
    x ← substitute_io vs ds io
    xs ← substitute_ios vs ds ios
    ok (x ∷ xs)

  unfoldable pub substitute_groups :
      ParameterValues Real
      → List (ParameterDescription Real)
      → List IoGroupDescription
      → Outcome (List IoGroupDescription)
  substitute_groups vs ds [] = ok []
  substitute_groups vs ds (g ∷ gs) = do
    n ← replace_placeholder as_integer check_integer vs ds g.count
    ios ← substitute_ios vs ds g.ios
    rest ← substitute_groups vs ds gs
    ok (record g { count = value n; ios = ios } ∷ rest)

  unfoldable pub substitute_function_parameters :
      FunctionTypeDescription Real → ParameterValues Real → Outcome FunctionDescription
  substitute_function_parameters d vs = do
    gs ← substitute_groups vs d.parameters d.function.io_groups
    ok (record { io_groups = gs })

  -- `get_function_parameter<T>` of utility.hpp
  unfoldable pub get_function_parameter :
      {T : Type 0}
      → (ParameterValue Real → Option T)
      → (ParameterDescription Real → T → Outcome (Unit {0}))
      → FunctionTypeDescription Real
      → ParameterValues Real
      → ℕ
      → Outcome T
  get_function_parameter get check f vs i = do
    d ← of_option out_of_range (get_elem? f.parameters i)
    elim (find ℤ-discrete (pos i) vs) [
      | none ↦ of_option bad_variant_access (get d.default_value)
      | some v ↦ of_option bad_variant_access (get v) >>= λ x. check d x >> ok x
    ]

-- ===== src/Model.antt =====
-- include/cosim/model_description.hpp: variables and models. `double` is the parameter `Real`.
use libcosim.Base.{ℕ, List, Bool, Option, ℕ_discrete}
use libcosim.Base.Int.{ℤ}

pub data VariableType : Type 0 where
  real integer boolean string enumeration : VariableType

unfoldable pub VariableType-discrete : Discrete VariableType
VariableType-discrete = hlevel

pub data Causality : Type 0 where
  parameter calculated_parameter input output local : Causality

unfoldable pub Causality-discrete : Discrete Causality
Causality-discrete = hlevel

pub data Variability : Type 0 where
  constant fixed tunable discrete continuous : Variability

unfoldable pub Variability-discrete : Discrete Variability
Variability-discrete = hlevel

abbrev pub Text : Type 0
Text = List ℕ

-- `scalar_value`
pub data Scalar (Real : Type 0) : Type 0 where
  real_value : Real → Scalar Real
  integer_value : ℤ → Scalar Real
  boolean_value : Bool → Scalar Real
  string_value : Text → Scalar Real

pub record VariableDescription (Real : Type 0) : Type 0 where
  pub name : Text
  pub reference : ℕ
  pub type : VariableType
  pub causality : Causality
  pub variability : Variability
  pub start : Option (Scalar Real)

pub record ModelDescription (Real : Type 0) : Type 0 where
  pub name : Text
  pub uuid : Text
  pub variables : List (VariableDescription Real)

pub data StepResult : Type 0 where
  complete failed canceled : StepResult

-- `function_io_reference`: a variable of a function, by the positions of its group and of itself,
-- and by the instances of both.
pub record FunctionIoReference : Type 0 where
  pub group : ℕ
  pub group_instance : ℕ
  pub io : ℕ
  pub io_instance : ℕ

unfoldable pub FunctionIoReference-discrete : Discrete FunctionIoReference
FunctionIoReference-discrete = hlevel ℕ_discrete

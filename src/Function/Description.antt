-- ===== src/Function/Description.antt =====
-- include/cosim/function/description.hpp: how a function, or a type of functions, is described.
use libcosim.Base.{List, Option}
use libcosim.Base.Int.{ℤ}
use libcosim.Model.{VariableType, Causality, Text}

pub data ParameterType : Type 0 where
  real_parameter integer_parameter type_parameter : ParameterType

-- `function_parameter_value`
pub data ParameterValue (Real : Type 0) : Type 0 where
  of_real : Real → ParameterValue Real
  of_integer : ℤ → ParameterValue Real
  of_type : VariableType → ParameterValue Real

-- `function_parameter_value_map`
abbrev pub ParameterValues : Type 0 → Type 0
ParameterValues Real = List (ℤ × ParameterValue Real)

pub record ParameterDescription (Real : Type 0) : Type 0 where
  pub name : Text
  pub type : ParameterType
  pub default_value : ParameterValue Real
  pub min_value : Option (ParameterValue Real)
  pub max_value : Option (ParameterValue Real)

-- `std::variant<T, function_parameter_placeholder>`
pub data Field (T : Type 0) : Type 0 where
  value : T → Field T
  placeholder : (parameter_index : ℤ) → Field T

pub record IoDescription : Type 0 where
  pub name : Text
  pub type : Field VariableType
  pub causality : Causality
  pub count : Field ℤ

pub record IoGroupDescription : Type 0 where
  pub name : Text
  pub count : Field ℤ
  pub ios : List IoDescription

pub record FunctionDescription : Type 0 where
  pub io_groups : List IoGroupDescription

-- `function_type_description`, which derives from `function_description`
pub record FunctionTypeDescription (Real : Type 0) : Type 0 where
  pub function : FunctionDescription
  pub parameters : List (ParameterDescription Real)

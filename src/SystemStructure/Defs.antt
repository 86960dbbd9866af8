-- ===== src/SystemStructure/Defs.antt =====
-- The class `system_structure` and the free functions beside it. The texts of the errors are not
-- modelled. Of a model or a function type, its description is used here.
use libcosim.Base.{ℕ, suc, Bool, true, false, ◌&&◌, List, [], ◌∷◌, none, some, ite, ℕ_discrete}
use libcosim.Base.Int.{ℤ}
use libcosim.Base.Outcome.{Outcome, ok, err, bad_variant_access, ◌>>=◌}
use libcosim.Base.Assoc.{find, assign, emplace}
use libcosim.Model.{
  VariableType, VariableType-discrete, real, integer, boolean, string, Causality,
  calculated_parameter, input, output, constant, fixed, Text, Scalar, real_value, integer_value,
  boolean_value, string_value, VariableDescription, ModelDescription,
}
use libcosim.Function.Description.{
  ParameterValues, value, placeholder, IoDescription, IoGroupDescription, FunctionDescription,
  FunctionTypeDescription,
}

unfoldable pub Text-discrete : Discrete Text
Text-discrete = hlevel ℕ_discrete

-- The instances count from 0.
pub record FullVariableName : Type 0 where
  pub entity_name : Text
  pub variable_group_name : Text
  pub variable_group_instance : ℕ
  pub variable_name : Text
  pub variable_instance : ℕ

-- `operator==`
unfoldable pub FullVariableName-discrete : Discrete FullVariableName
FullVariableName-discrete = hlevel (ℕ_discrete, Text-discrete)

abbrev is_empty : Text → Bool
is_empty [] = true
is_empty (c ∷ cs) = false

unfoldable pub is_simulator_variable : FullVariableName → Bool
is_simulator_variable v = is_empty v.variable_group_name

-- `system_structure::function_io_description`
pub record FunctionIo : Type 0 where
  pub group_index : ℕ
  pub io_index : ℕ
  pub description : IoDescription

abbrev pub IoTable : Type 0
IoTable = List (Text × List (Text × FunctionIo))

pub record FunctionInfo : Type 0 where
  pub description : FunctionDescription
  pub ios : IoTable

-- `entity_type`
pub data EntityType (Real : Type 0) : Type 0 where
  model : ModelDescription Real → EntityType Real
  function_type : FunctionTypeDescription Real → EntityType Real

pub record Entity (Real : Type 0) : Type 0 where
  pub name : Text
  pub type : EntityType Real
  pub step_size_hint : ℤ
  pub parameter_values : ParameterValues Real

abbrev pub ModelInfo : Type 0 → Type 0
ModelInfo Real = List (Text × VariableDescription Real)

-- A connection is an entry from its target to its source.
pub record SystemStructure (Real : Type 0) : Type 0 where
  pub entities : List (Text × Entity Real)
  pub connections : List (FullVariableName × FullVariableName)
  pub model_cache : List (Text × ModelInfo Real)
  pub function_cache : List (Text × FunctionInfo)

module _ {Real : Type 0} where
  -- The two `make_variable_lookup_table`
  unfoldable pub model_table : List (VariableDescription Real) → ModelInfo Real → ModelInfo Real
  model_table [] table = table
  model_table (v ∷ vs) table = model_table vs (emplace Text-discrete v.name v table)

  unfoldable pub make_variable_lookup_table : ModelDescription Real → ModelInfo Real
  unfolding model_table
  make_variable_lookup_table m = model_table m.variables []

-- `table[group].emplace(name, io)`
unfoldable pub emplace_io : Text → Text → FunctionIo → IoTable → IoTable
emplace_io group name io table =
    assign Text-discrete group
      (emplace Text-discrete name io
        (elim (find Text-discrete group table) [ none ↦ [] | some ios ↦ ios ]))
      table

unfoldable pub group_table : ℕ → Text → ℕ → List IoDescription → IoTable → IoTable
unfolding emplace_io
group_table g group i [] table = table
group_table g group i (io ∷ ios) table =
    group_table g group (suc i) ios
      (emplace_io group io.name (record { group_index = g; io_index = i; description = io }) table)

unfoldable pub groups_table : ℕ → List IoGroupDescription → IoTable → IoTable
unfolding group_table
groups_table g [] table = table
groups_table g (group ∷ groups) table =
    groups_table (suc g) groups (group_table g group.name 0 group.ios table)

unfoldable pub make_io_lookup_table : FunctionDescription → IoTable
unfolding groups_table
make_io_lookup_table f = groups_table 0 f.io_groups []

-- `std::get<variable_type>(io.type)`
abbrev pub type_of : IoDescription → Outcome VariableType
type_of io = elim io.type [ value t ↦ ok t | placeholder i ↦ err bad_variant_access ]

abbrev pub is_source : Causality → Bool
is_source calculated_parameter = true
is_source output = true
is_source _ = false

abbrev pub is_input : Causality → Bool
is_input input = true
is_input _ = false

abbrev pub same_type : VariableType → VariableType → Bool
same_type s t = ite (VariableType-discrete s t) true false

module _ {Real : Type 0} where
  abbrev pub is_modifiable : VariableDescription Real → Bool
  is_modifiable v = elim v.variability [ constant ↦ false | fixed ↦ false | _ ↦ true ]

  -- The three `is_valid_connection`
  unfoldable pub is_valid_ss : VariableDescription Real → VariableDescription Real → Bool
  is_valid_ss s t =
      ((same_type s.type t.type && is_source s.causality) && is_input t.causality)
      && is_modifiable t

  unfoldable pub is_valid_sf : VariableDescription Real → IoDescription → Outcome Bool
  is_valid_sf s t = do
    type ← type_of t
    ok ((same_type s.type type && is_source s.causality) && is_input t.causality)

  unfoldable pub is_valid_fs : IoDescription → VariableDescription Real → Outcome Bool
  is_valid_fs s t = do
    type ← type_of s
    ok (
        ((same_type type t.type && is_source s.causality) && is_input t.causality)
        && is_modifiable t)

  abbrev pub value_type : Scalar Real → VariableType
  value_type (real_value x) = real
  value_type (integer_value n) = integer
  value_type (boolean_value b) = boolean
  value_type (string_value s) = string

  unfoldable pub is_valid_variable_value : VariableDescription Real → Scalar Real → Bool
  is_valid_variable_value d x = same_type (value_type x) d.type

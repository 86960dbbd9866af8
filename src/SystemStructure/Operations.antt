-- ===== src/SystemStructure/Operations.antt =====
-- The methods of `system_structure`, which throw before they change anything, and `find_variable`.
use libcosim.Base.{Bool, true, false, not, List, [], ◌∷◌, Option, none, some, if◌then◌else◌, ite}
use libcosim.Base.Int.{pos, lt_ℤ}
use libcosim.Base.Outcome.{
  Outcome, ok, err, out_of_range, logic_error, invalid_system_structure, of_option, guard, ◌>>=◌,
  ◌>>◌,
}
use libcosim.Base.Assoc.{find, assign, emplace, contains}
use libcosim.Model.{Text, Scalar, VariableDescription, ModelDescription}
use libcosim.Function.Substitute.{substitute_function_parameters}
use libcosim.SystemStructure.Defs.{
  Text-discrete, FullVariableName, FullVariableName-discrete, is_simulator_variable, FunctionIo,
  EntityType, model, function_type, Entity, SystemStructure, make_variable_lookup_table,
  make_io_lookup_table, is_valid_ss, is_valid_sf, is_valid_fs, is_valid_variable_value,
}

abbrev pub is_named : Text → Bool
is_named [] = false
is_named (c ∷ cs) = true

abbrev pub empty : (Real : Type 0) → SystemStructure Real
empty Real = record { entities = []; connections = []; model_cache = []; function_cache = [] }

module _ {Real : Type 0} where
  -- `find_variable` of src/cosim/model_description.cpp
  unfoldable pub find_variable :
      List (VariableDescription Real) → Text → Option (VariableDescription Real)
  find_variable [] name = none
  find_variable (v ∷ vs) name = ite (Text-discrete v.name name) (some v) (find_variable vs name)

  -- `if (modelCache_.count(uuid) == 0) modelCache_[uuid] = …`
  unfoldable pub cache_model : ModelDescription Real → SystemStructure Real → SystemStructure Real
  cache_model m s = if contains Text-discrete m.uuid s.model_cache then s else record s {
    model_cache = assign Text-discrete m.uuid (make_variable_lookup_table m) s.model_cache;
  }

  -- The two branches on the type of the entity
  unfoldable pub cache_entity :
      EntityType Real → Entity Real → SystemStructure Real → Outcome (SystemStructure Real)
  unfolding cache_model
  cache_entity (model m) e s =
      if lt_ℤ e.step_size_hint (pos 0) then err invalid_system_structure else ok (cache_model m s)
  cache_entity (function_type f) e s = elim (substitute_function_parameters f e.parameter_values) [
    | err x ↦ err invalid_system_structure
    | ok d ↦ ok (record s {
      function_cache =
          emplace Text-discrete e.name (record { description = d; ios = make_io_lookup_table d })
            s.function_cache;
    })
  ]

  unfoldable pub enter : Entity Real → SystemStructure Real → SystemStructure Real
  enter e s = record s { entities = emplace Text-discrete e.name e s.entities }

  unfoldable pub add_entity : Entity Real → SystemStructure Real → Outcome (SystemStructure Real)
  unfolding cache_entity enter
  add_entity e s = do
    guard (is_named e.name) invalid_system_structure
    guard (not (contains Text-discrete e.name s.entities)) invalid_system_structure
    cached ← cache_entity e.type e s
    ok (enter e cached)

  unfoldable pub find_entity : Text → SystemStructure Real → Option (Entity Real)
  find_entity name s = find Text-discrete name s.entities

  -- What the two lookups give for the type of the entity found
  unfoldable pub variable_in :
      EntityType Real → Text → SystemStructure Real → Outcome (VariableDescription Real)
  variable_in (model m) name s = do
    info ← of_option out_of_range (find Text-discrete m.uuid s.model_cache)
    of_option invalid_system_structure (find Text-discrete name info)
  variable_in (function_type f) name s = err logic_error

  unfoldable pub get_variable_description :
      SystemStructure Real → FullVariableName → Outcome (VariableDescription Real)
  unfolding variable_in
  get_variable_description s v = do
    e ← of_option invalid_system_structure (find Text-discrete v.entity_name s.entities)
    variable_in e.type v.variable_name s

  unfoldable pub io_in :
      EntityType Real → FullVariableName → SystemStructure Real → Outcome FunctionIo
  io_in (model m) v s = err logic_error
  io_in (function_type f) v s = do
    info ← of_option out_of_range (find Text-discrete v.entity_name s.function_cache)
    group ← of_option invalid_system_structure (find Text-discrete v.variable_group_name info.ios)
    of_option invalid_system_structure (find Text-discrete v.variable_name group)

  unfoldable pub get_function_io_description :
      SystemStructure Real → FullVariableName → Outcome FunctionIo
  unfolding io_in
  get_function_io_description s v = do
    e ← of_option invalid_system_structure (find Text-discrete v.entity_name s.entities)
    io_in e.type v s

  -- The checks of `connect_variables`, by the kinds of the two variables
  unfoldable pub is_valid_as :
      Bool → Bool → SystemStructure Real → FullVariableName → FullVariableName → Outcome Bool
  unfolding get_variable_description get_function_io_description
  is_valid_as true true s source target = do
    a ← get_variable_description s source
    b ← get_variable_description s target
    ok (is_valid_ss a b)
  is_valid_as true false s source target = do
    a ← get_variable_description s source
    b ← get_function_io_description s target
    is_valid_sf a b.description
  is_valid_as false _ s source target = do
    a ← get_function_io_description s source
    b ← get_variable_description s target
    is_valid_fs a.description b

  unfoldable pub is_valid :
      SystemStructure Real → FullVariableName → FullVariableName → Outcome Bool
  unfolding is_valid_as
  is_valid s source target =
      is_valid_as (is_simulator_variable source) (is_simulator_variable target) s source target

  unfoldable pub connect_variables :
      FullVariableName → FullVariableName → SystemStructure Real → Outcome (SystemStructure Real)
  unfolding is_valid
  connect_variables source target s = do
    valid ← is_valid s source target
    guard valid invalid_system_structure
    guard (not (contains FullVariableName-discrete target s.connections)) invalid_system_structure
    ok (record s { connections = emplace FullVariableName-discrete target source s.connections })

  -- `variable_value_map`
  unfoldable pub add_variable_value :
      List (FullVariableName × Scalar Real)
      → SystemStructure Real
      → FullVariableName
      → Scalar Real
      → Outcome (List (FullVariableName × Scalar Real))
  unfolding get_variable_description
  add_variable_value values s v x = do
    d ← get_variable_description s v
    guard (is_valid_variable_value d x) invalid_system_structure
    ok (assign FullVariableName-discrete v x values)

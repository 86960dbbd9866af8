-- ===== src/Execution/Injection.antt =====
-- `inject_system_structure` of execution.cpp: an execution gets the entities, the connections and the
-- initial values of a system structure. What makes a slave of a model, and a function of a function
-- type, is a parameter.
pub mod Indexes
pub mod Keeping
use libcosim.Base.{
  ℕ, Bool, true, false, not, ◌||◌, List, [], ◌∷◌, Option, none, some, if◌then◌else◌, ite,
  ℕ_discrete,
}
use libcosim.Base.Int.{ℤ}
use libcosim.Base.Outcome.{Outcome, ok, err, out_of_range, invalid_system_structure, of_option}
use libcosim.Base.Method.{Method, pure, throw, lift, ◌>>=◌, ◌>>◌}
use libcosim.Base.Assoc.{find, emplace}
use libcosim.Model.{
  VariableType, Causality, Causality-discrete, parameter, input, Scalar, real_value, integer_value,
  boolean_value, string_value, VariableDescription, ModelDescription, Text,
}
use libcosim.Function.Description.{ParameterValues, FunctionTypeDescription}
use libcosim.Algorithm.Defs.{VariableId, FunctionIoId}
use libcosim.SystemStructure.Defs.{
  Text-discrete, FullVariableName, is_simulator_variable, type_of, EntityType, model, function_type,
  Entity, SystemStructure,
}
use libcosim.SystemStructure.Operations.{get_variable_description, get_function_io_description}
use libcosim.Execution.Defs.{
  Parts, Execution, E, call, add_slave, add_function, connect_variables_ss, connect_variables_sf,
  connect_variables_fs,
}
use libcosim.Execution.Step.{
  set_real_initial_value, set_integer_initial_value, set_boolean_initial_value,
  set_string_initial_value,
}
use libcosim.Execution.Ids.{EntityIndexMaps, make_variable_id, make_function_io_id}

abbrev pub no_indexes : EntityIndexMaps
no_indexes = record { simulators = []; functions = [] }

-- What initial values can be set of
abbrev pub is_settable : Causality → Bool
is_settable parameter = true
is_settable input = true
is_settable _ = false

module _ {Real : Type 0} (parts : Parts Real) where
  -- One connection, by whether its source and its target are variables of simulators
  unfoldable pub connect_as :
      Bool
      → Bool
      → SystemStructure Real
      → EntityIndexMaps
      → FullVariableName
      → FullVariableName
      → E parts (Unit {0})
  connect_as true true sys maps source target = do
    s ← lift (make_variable_id sys maps source)
    t ← lift (make_variable_id sys maps target)
    connect_variables_ss parts s t
  connect_as true false sys maps source target = do
    s ← lift (make_variable_id sys maps source)
    t ← lift (make_function_io_id sys maps target)
    connect_variables_sf parts s t
  connect_as false to_simulator sys maps source target = do
    s ← lift (make_function_io_id sys maps source)
    t ← lift (make_variable_id sys maps target)
    connect_variables_fs parts s t

  unfoldable pub inject_connections :
      SystemStructure Real
      → EntityIndexMaps
      → List (FullVariableName × FullVariableName)
      → E parts (Unit {0})
  unfolding connect_as
  inject_connections sys maps [] = pure tt
  inject_connections sys maps ((target, source) ∷ connections) = do
    connect_as (is_simulator_variable source) (is_simulator_variable target) sys maps source target
    inject_connections sys maps connections

  unfoldable pub set_initial_value : Scalar Real → ℕ → ℕ → E parts (Unit {0})
  set_initial_value (real_value x) i r = set_real_initial_value parts i r x
  set_initial_value (integer_value x) i r = set_integer_initial_value parts i r x
  set_initial_value (boolean_value x) i r = set_boolean_initial_value parts i r x
  set_initial_value (string_value x) i r = set_string_initial_value parts i r x

  unfoldable pub inject_value :
      SystemStructure Real → EntityIndexMaps → FullVariableName → Scalar Real → E parts (Unit {0})
  unfolding set_initial_value
  inject_value sys maps var val = do
    if is_simulator_variable var then pure tt else throw invalid_system_structure
    d ← lift (get_variable_description sys var)
    if is_settable d.causality then pure tt else throw invalid_system_structure
    i ← lift (of_option out_of_range (find Text-discrete var.entity_name maps.simulators))
    set_initial_value val i d.reference

  unfoldable pub inject_values :
      SystemStructure Real
      → EntityIndexMaps
      → List (FullVariableName × Scalar Real)
      → E parts (Unit {0})
  unfolding inject_value
  inject_values sys maps [] = pure tt
  inject_values sys maps ((var, val) ∷ values) = do
    inject_value sys maps var val
    inject_values sys maps values

  module _ (instantiate : ModelDescription Real → Text → Method parts.World parts.Slave)
      (instantiate_function : FunctionTypeDescription Real
        → ParameterValues Real
        → Method parts.World parts.Fun) where
    -- One entity, by its type
    unfoldable pub inject_as :
        EntityType Real → Entity Real → EntityIndexMaps → E parts EntityIndexMaps
    inject_as (model m) e maps = do
      slave ← call parts (instantiate m e.name)
      index ← add_slave parts slave e.name e.step_size_hint
      pure (record maps { simulators = emplace Text-discrete e.name index maps.simulators })
    inject_as (function_type f) e maps = do
      function ← call parts (instantiate_function f e.parameter_values)
      index ← add_function parts function
      pure (record maps { functions = emplace Text-discrete e.name index maps.functions })

    unfoldable pub inject_entities :
        List (Text × Entity Real) → EntityIndexMaps → E parts EntityIndexMaps
    unfolding inject_as
    inject_entities [] maps = pure maps
    inject_entities ((name, e) ∷ entities) maps = do
      next ← inject_as e.type e maps
      inject_entities entities next

    unfoldable pub inject_system_structure :
        SystemStructure Real → List (FullVariableName × Scalar Real) → E parts EntityIndexMaps
    unfolding inject_entities inject_connections inject_values
    inject_system_structure sys values = do
      maps ← inject_entities sys.entities no_indexes
      inject_connections sys maps sys.connections
      inject_values sys maps values
      pure maps

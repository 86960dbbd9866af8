-- ===== src/Tests/Injections.antt =====
-- A system of two simulators with one connection, put into an execution.
use libcosim.Execution.Step.{set_real_initial_value}
use libcosim.Base.Assoc.{contains, emplace, find}
use libcosim.SystemStructure.Operations.{get_variable_description}
use libcosim.SystemStructure.Defs.{Text-discrete, is_simulator_variable}
use libcosim.Execution.Defs.{add_slave, connect_variables_ss, validate_variable}
use libcosim.Base.{ℕ_discrete, ℕ, false, true, [], ◌∷◌}
use libcosim.Base.Int.{pos}
use libcosim.Base.Method.{Method, pure}
use libcosim.Model.{VariableType-discrete, Causality-discrete, ModelDescription, Text, real_value}
use libcosim.Function.Description.{ParameterValues, FunctionTypeDescription, FunctionDescription}
use libcosim.Execution.Ids.{make_variable_id, EntityIndexMaps}
use libcosim.Execution.Injection.{inject_system_structure}
use libcosim.Execution.Injection.Indexes.{AreGiven}
use libcosim.Execution.Injection.Keeping.{inject_system_structure-AreGiven}
use libcosim.Tests.Executions.{hundreds, X, running}
use libcosim.Tests.Systems.{connected, b_u}

abbrev instantiate : ModelDescription ℕ → Text → Method ℕ (Unit {0})
instantiate m name = pure tt

abbrev instantiate_function :
    FunctionTypeDescription ℕ → ParameterValues ℕ → Method ℕ FunctionDescription
instantiate_function f values = pure (record { io_groups = [] })

abbrev before : X
before = running 0 (pos 0) false true 0

-- The simulator that is there already has the index 0.
abbrev given : EntityIndexMaps
given = record { simulators = (b'a' ∷ [], 1) ∷ (b'b' ∷ [], 2) ∷ []; functions = [] }

inject_system_structure-AreGiven_example :
    AreGiven hundreds before given
      (inject_system_structure hundreds instantiate instantiate_function connected
        ((b_u, real_value 7) ∷ [])
        before).1
unfolding inject_system_structure add_slave is_simulator_variable make_variable_id
    get_variable_description find Text-discrete ℕ_discrete emplace connect_variables_ss
    validate_variable Causality-discrete VariableType-discrete contains set_real_initial_value
inject_system_structure-AreGiven_example =
    inject_system_structure-AreGiven hundreds instantiate instantiate_function connected
      ((b_u, real_value 7) ∷ []) before

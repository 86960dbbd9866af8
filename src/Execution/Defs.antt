-- ===== src/Execution/Defs.antt =====
-- The state of `execution::impl`, and its operations. What it calls is a parameter: `Parts` lists the
-- virtual functions of the algorithm, the simulators, the functions, the observers and the
-- manipulators. They share objects, the `World`. None of them calls the execution.
use libcosim.Base.{
  ℕ, suc, Bool, true, false, not, List, [], ◌∷◌, ◌++◌, Option, none, some, if◌then◌else◌, ite,
  ℕ_discrete, length, get_elem?,
}
use libcosim.Base.Int.{ℤ}
use libcosim.Base.Outcome.{Outcome, ok, err, out_of_range, logic_error, guard}
use libcosim.Base.Method.{Method, pure, read, modify, zoom, ◌>>=◌, ◌>>◌}
use libcosim.Base.Assoc.{emplace, contains}
use libcosim.Model.{
  VariableType, VariableType-discrete, Causality, Causality-discrete, input, output,
  VariableDescription, ModelDescription, Text,
}
use libcosim.Function.Description.{FunctionDescription}
use libcosim.Algorithm.Defs.{VariableId, VariableId-discrete, FunctionIoId, FunctionIoId-discrete}

pub record Parts (Real : Type 0) : Type 1 where
  pub World : Type 0
  pub Slave : Type 0
  -- Pointers to simulators, functions, observers and manipulators
  pub Sim : Type 0
  pub Fun : Type 0
  pub Observer : Type 0
  pub Manipulator : Type 0
  pub new_simulator : Slave → Text → Method World Sim
  pub model_description : Sim → World → ModelDescription Real
  pub modified_variables : VariableType → Sim → World → List ℕ
  pub expose_for_setting : Sim → VariableType → ℕ → Method World (Unit {0})
  pub set_real : Sim → ℕ → Real → Method World (Unit {0})
  pub set_integer : Sim → ℕ → ℤ → Method World (Unit {0})
  pub set_boolean : Sim → ℕ → Bool → Method World (Unit {0})
  pub set_string : Sim → ℕ → Text → Method World (Unit {0})
  pub description : Fun → World → FunctionDescription
  pub setup : ℤ → Option ℤ → Method World (Unit {0})
  pub add_simulator : ℕ → Sim → ℤ → Method World (Unit {0})
  pub algorithm_add_function : ℕ → Fun → Method World (Unit {0})
  pub connect_ss : VariableId → VariableId → Method World (Unit {0})
  pub connect_sf : VariableId → FunctionIoId → Method World (Unit {0})
  pub connect_fs : FunctionIoId → VariableId → Method World (Unit {0})
  pub initialize : Method World (Unit {0})
  pub do_step : ℤ → Method World (ℤ × List ℕ)
  pub observer_simulator_added : Observer → ℕ → Sim → ℤ → Method World (Unit {0})
  pub simulation_initialized : Observer → ℕ → ℤ → Method World (Unit {0})
  pub simulator_step_complete : Observer → ℕ → ℕ → ℤ → ℤ → Method World (Unit {0})
  pub step_complete : Observer → ℕ → ℤ → ℤ → Method World (Unit {0})
  pub manipulator_simulator_added : Manipulator → ℕ → Sim → ℤ → Method World (Unit {0})
  pub step_commencing : Manipulator → ℤ → Method World (Unit {0})

module _ {Real : Type 0} (parts : Parts Real) where
  -- `impl`, but for the timer. Times and durations are counts of ticks.
  pub record Execution : Type 0 where
    pub last_step : ℕ
    pub current_time : ℤ
    pub initialized : Bool
    pub stopped : Bool
    pub simulators : List parts.Sim
    pub functions : List parts.Fun
    pub observers : List parts.Observer
    pub manipulators : List parts.Manipulator
    pub ss_connections : List (VariableId × VariableId)
    pub sf_connections : List (FunctionIoId × VariableId)
    pub fs_connections : List (VariableId × FunctionIoId)
    pub world : parts.World

  abbrev pub E : Type 0 → Type 0
  E = Method Execution

  abbrev pub call : {B : Type 0} → Method parts.World B → E B
  call = zoom (λ e. e.world) (λ w e. record e { world = w })

  -- The constructor
  unfoldable pub make : ℤ → parts.World → Outcome (Unit {0}) × Execution
  make start w = call (parts.setup start none) (record {
    last_step = 0;
    current_time = start;
    initialized = false;
    stopped = true;
    simulators = [];
    functions = [];
    observers = [];
    manipulators = [];
    ss_connections = [];
    sf_connections = [];
    fs_connections = [];
    world = w;
  })

  -- `for (const auto& x : xs) f(x)`
  unfoldable pub for_each :
      {X : Type 0} → (X → Method parts.World (Unit {0})) → List X → E (Unit {0})
  for_each f [] = pure tt
  for_each f (x ∷ xs) = do call (f x); for_each f xs

  unfoldable pub for_each_from :
      {X : Type 0} → (ℕ → X → Method parts.World (Unit {0})) → ℕ → List X → E (Unit {0})
  for_each_from f i [] = pure tt
  for_each_from f i (x ∷ xs) = do call (f i x); for_each_from f (suc i) xs

  unfoldable pub add_slave : parts.Slave → Text → ℤ → E ℕ
  unfolding for_each
  add_slave s name hint = do
    index ← read (λ e. length e.simulators)
    sim ← call (parts.new_simulator s name)
    modify (λ e. record e { simulators = e.simulators ++ sim ∷ [] })
    call (parts.add_simulator index sim hint)
    e ← read (λ e. e)
    for_each (λ o. parts.observer_simulator_added o index sim e.current_time) e.observers
    for_each (λ m. parts.manipulator_simulator_added m index sim e.current_time) e.manipulators
    pure index

  unfoldable pub add_function : parts.Fun → E ℕ
  add_function f = do
    index ← read (λ e. length e.functions)
    modify (λ e. record e { functions = e.functions ++ f ∷ [] })
    call (parts.algorithm_add_function index f)
    pure index

  unfoldable pub add_observer : parts.Observer → E (Unit {0})
  unfolding for_each_from
  add_observer o = do
    modify (λ e. record e { observers = e.observers ++ o ∷ [] })
    e ← read (λ e. e)
    for_each_from (λ i s. parts.observer_simulator_added o i s e.current_time) 0 e.simulators
    if e.initialized
        then call (parts.simulation_initialized o e.last_step e.current_time)
        else pure tt

  unfoldable pub add_manipulator : parts.Manipulator → E (Unit {0})
  unfolding for_each_from
  add_manipulator m = do
    modify (λ e. record e { manipulators = e.manipulators ++ m ∷ [] })
    e ← read (λ e. e)
    for_each_from (λ i s. parts.manipulator_simulator_added m i s e.current_time) 0 e.simulators

  -- Whether some variable has the causality, the type and the reference
  unfoldable pub has_variable :
      Causality → VariableType → ℕ → List (VariableDescription Real) → Bool
  has_variable c t r [] = false
  has_variable c t r (v ∷ vs) =
      let rest = has_variable c t r vs in
      ite (Causality-discrete v.causality c)
        (ite (VariableType-discrete v.type t) (ite (ℕ_discrete v.reference r) true rest) rest) rest

  unfoldable pub validate_variable : VariableId → Causality → Execution → Outcome (Unit {0})
  unfolding has_variable
  validate_variable v c e = elim (get_elem? e.simulators v.simulator) [
    | none ↦ err out_of_range
    | some s ↦
        guard (has_variable c v.type v.reference (parts.model_description s e.world).variables)
          out_of_range
  ]

  -- The type and the instances of the variable are not looked at.
  unfoldable pub validate_function_io : FunctionIoId → Causality → Execution → Outcome (Unit {0})
  validate_function_io v c e = elim (get_elem? e.functions v.function) [
    | none ↦ err out_of_range
    | some f ↦ elim (get_elem? (parts.description f e.world).io_groups v.reference.group) [
      | none ↦ err out_of_range
      | some g ↦ elim (get_elem? g.ios v.reference.io) [
        | none ↦ err out_of_range
        | some io ↦ ite (Causality-discrete io.causality c) (ok tt) (err logic_error)
      ]
    ]
  ]

  abbrev pub checked : (Execution → Outcome (Unit {0})) → E (Unit {0})
  checked f e = (f e, e)

  -- The template, for the map of connections that `get` reads and `put` writes
  unfoldable pub connect_variables_impl :
      {Source Target : Type 0}
      → Discrete Target
      → (Execution → List (Target × Source))
      → (List (Target × Source) → Execution → Execution)
      → (Source → Execution → Outcome (Unit {0}))
      → (Target → Execution → Outcome (Unit {0}))
      → (Source → Target → Method parts.World (Unit {0}))
      → Source
      → Target
      → E (Unit {0})
  connect_variables_impl d get put source_valid target_valid connect source target = do
    checked (source_valid source)
    checked (target_valid target)
    checked (λ e. guard (not (contains d target (get e))) logic_error)
    call (connect source target)
    modify (λ e. put (emplace d target source (get e)) e)

  unfoldable pub connect_variables_ss : VariableId → VariableId → E (Unit {0})
  unfolding connect_variables_impl
  connect_variables_ss =
      connect_variables_impl VariableId-discrete (λ e. e.ss_connections)
        (λ m e. record e { ss_connections = m }) (λ v. validate_variable v output)
        (λ v. validate_variable v input) parts.connect_ss

  unfoldable pub connect_variables_sf : VariableId → FunctionIoId → E (Unit {0})
  unfolding connect_variables_impl
  connect_variables_sf =
      connect_variables_impl FunctionIoId-discrete (λ e. e.sf_connections)
        (λ m e. record e { sf_connections = m }) (λ v. validate_variable v output)
        (λ v. validate_function_io v input) parts.connect_sf

  unfoldable pub connect_variables_fs : FunctionIoId → VariableId → E (Unit {0})
  unfolding connect_variables_impl
  connect_variables_fs =
      connect_variables_impl VariableId-discrete (λ e. e.fs_connections)
        (λ m e. record e { fs_connections = m }) (λ v. validate_function_io v output)
        (λ v. validate_variable v input) parts.connect_fs

  unfoldable pub is_running : Execution → Bool
  is_running e = not e.stopped

  unfoldable pub stop_simulation : Execution → Execution
  stop_simulation e = record e { stopped = true }

  unfoldable pub get_model_description : ℕ → Execution → Outcome (ModelDescription Real)
  get_model_description i e = elim (get_elem? e.simulators i) [
    | none ↦ err out_of_range
    | some s ↦ ok (parts.model_description s e.world)
  ]

-- ===== src/Algorithm/Defs.antt =====
-- The state of `fixed_step_algorithm::impl`, and how entities are added and connected. Simulators
-- and functions are parameters: `EntityOps` lists the virtual functions that are called.
use mathlib.Core.Option
use libcosim.Base.{
  ℕ, zero, suc, ◌+◌, ◌-◌, ◌/◌, ◌%◌, ◌^◌, Bool, List, [], ◌∷◌, ◌++◌, Option, none, some, ◌==◌, ltb,
  if◌then◌else◌, ite, ℕ_discrete,
}
use libcosim.Base.Int.{ℤ, pos, negsuc}
use libcosim.Base.Outcome.{Outcome, ok, err, out_of_range, invalid_argument, of_option}
use libcosim.Base.Outcome as O
use libcosim.Base.Method.{Method, throw, modify, lift, ◌>>=◌, ◌>>◌}
use libcosim.Base.Assoc.{find, assign, erase}
use libcosim.Model.{
  VariableType, StepResult, complete, Text, FunctionIoReference, FunctionIoReference-discrete,
}
use libcosim.Algorithm.Lcm.{int_lcm}

pub record VariableId : Type 0 where
  pub simulator : ℕ
  pub type : VariableType
  pub reference : ℕ

pub record FunctionIoId : Type 0 where
  pub function : ℕ
  pub type : VariableType
  pub reference : FunctionIoReference

unfoldable pub VariableId-discrete : Discrete VariableId
VariableId-discrete = hlevel ℕ_discrete

unfoldable pub FunctionIoId-discrete : Discrete FunctionIoId
FunctionIoId-discrete = hlevel (ℕ_discrete, FunctionIoReference-discrete)

pub record EntityOps (Real : Type 0) : Type 1 where
  pub Sim : Type 0
  pub Fun : Type 0
  pub expose_for_getting : VariableType → ℕ → Method Sim (Unit {0})
  pub expose_for_setting : VariableType → ℕ → Method Sim (Unit {0})
  pub sim_get_real : ℕ → Sim → Outcome Real
  pub sim_get_integer : ℕ → Sim → Outcome ℤ
  pub sim_get_boolean : ℕ → Sim → Outcome Bool
  pub sim_get_string : ℕ → Sim → Outcome Text
  pub sim_set_real : ℕ → Real → Method Sim (Unit {0})
  pub sim_set_integer : ℕ → ℤ → Method Sim (Unit {0})
  pub sim_set_boolean : ℕ → Bool → Method Sim (Unit {0})
  pub sim_set_string : ℕ → Text → Method Sim (Unit {0})
  pub sim_setup : ℤ → Option ℤ → Method Sim (Unit {0})
  pub do_iteration : Method Sim (Unit {0})
  pub start_simulation : Method Sim (Unit {0})
  pub sim_do_step : ℤ → ℤ → Method Sim StepResult
  pub fun_get_real : FunctionIoReference → Fun → Outcome Real
  pub fun_get_integer : FunctionIoReference → Fun → Outcome ℤ
  pub fun_get_boolean : FunctionIoReference → Fun → Outcome Bool
  pub fun_get_string : FunctionIoReference → Fun → Outcome Text
  pub fun_set_real : FunctionIoReference → Real → Method Fun (Unit {0})
  pub fun_set_integer : FunctionIoReference → ℤ → Method Fun (Unit {0})
  pub fun_set_boolean : FunctionIoReference → Bool → Method Fun (Unit {0})
  pub fun_set_string : FunctionIoReference → Text → Method Fun (Unit {0})
  pub calculate : Method Fun (Unit {0})

-- `connection_ss`, `connection_sf` and `connection_fs`
pub record Connection (Source Target : Type 0) : Type 0 where
  pub source : Source
  pub target : Target

-- A quotient of `std::div` on 64 bits, cast to a 32-bit `int`.
abbrev pub to_int32 : ℕ → ℤ
to_int32 n = let m = n % 2 ^ 32 in if ltb m (2 ^ 31) then pos m else negsuc (2 ^ 32 - 1 - m)

-- `std::max<int>(1, n)`
abbrev pub max_one : ℤ → ℕ
max_one (pos zero) = 1
max_one (pos (suc n)) = suc n
max_one (negsuc n) = 1

-- A negative step size has a negative quotient. The warning is not modelled.
unfoldable pub calculate_decimation_factor : ℕ → ℤ → ℕ
calculate_decimation_factor base (pos n) = if n == 0 then 1 else max_one (to_int32 (n / base))
calculate_decimation_factor base (negsuc n) = max_one (to_int32 (2 ^ 32 - suc n / base % 2 ^ 32))

module _ {Real : Type 0} (ops : EntityOps Real) where
  pub record SimulatorInfo : Type 0 where
    pub sim : ops.Sim
    pub decimation_factor : ℕ
    pub step_result : StepResult
    pub outgoing_sim : List (Connection VariableId VariableId)
    pub outgoing_fun : List (Connection VariableId FunctionIoId)

  pub record FunctionInfo : Type 0 where
    pub fun : ops.Fun
    pub decimation_factor : ℕ
    pub outgoing_sim : List (Connection FunctionIoId VariableId)

  -- `impl`, with the number of threads of its pool. Durations and times are counts of ticks.
  pub record Algorithm : Type 0 where
    pub base_step_size : ℕ
    pub start_time : ℤ
    pub stop_time : Option ℤ
    pub simulators : List (ℕ × SimulatorInfo)
    pub functions : List (ℕ × FunctionInfo)
    pub step_counter : ℕ
    pub worker_count : ℕ

  abbrev pub A : Type 0 → Type 0
  A = Method Algorithm

  -- `simulators_.at(i)` and `functions_.at(i)`
  abbrev pub simulator_at : ℕ → A SimulatorInfo
  simulator_at i a = (of_option out_of_range (find ℕ_discrete i a.simulators), a)

  abbrev pub function_at : ℕ → A FunctionInfo
  function_at i a = (of_option out_of_range (find ℕ_discrete i a.functions), a)

  abbrev pub put_simulator : ℕ → SimulatorInfo → A (Unit {0})
  put_simulator i s = modify (λ a. record a { simulators = assign ℕ_discrete i s a.simulators })

  abbrev pub put_function : ℕ → FunctionInfo → A (Unit {0})
  put_function i f = modify (λ a. record a { functions = assign ℕ_discrete i f a.functions })

  -- A method of the simulator `i`, which stays changed if the method throws.
  unfoldable pub on_simulator : {B : Type 0} → ℕ → Method ops.Sim B → A B
  on_simulator i m = do
    s ← simulator_at i
    let r = m s.sim
    put_simulator i (record s { sim = r.1 })
    lift r.0

  unfoldable pub on_function : {B : Type 0} → ℕ → Method ops.Fun B → A B
  on_function i m = do
    f ← function_at i
    let r = m f.fun
    put_function i (record f { fun = r.1 })
    lift r.0

  -- `std::min(workerThreadCount.value_or(max_threads_), max_threads_)`, on `unsigned int`, where
  -- `hardware` is `hardware_concurrency()`
  abbrev pub pool_size : ℕ → Option ℕ → ℕ
  pool_size hardware requested =
      let most = (hardware + 2 ^ 32 - 1) % 2 ^ 32 in
      elim requested [ none ↦ most | some n ↦ if ltb most n then most else n ]

  -- The constructor; the base step size is positive.
  unfoldable pub make : ℕ → Option ℕ → ℤ → Outcome Algorithm
  make hardware requested (pos (suc n)) = ok (record {
    base_step_size = suc n;
    start_time = pos 0;
    stop_time = none;
    simulators = [];
    functions = [];
    step_counter = 0;
    worker_count = pool_size hardware requested;
  })
  make _ _ _ = err invalid_argument

  unfoldable pub add_simulator : ℕ → ops.Sim → ℤ → Algorithm → Algorithm
  add_simulator i s hint a = record a {
    simulators =
        assign ℕ_discrete i
          (record {
            sim = s;
            decimation_factor = calculate_decimation_factor a.base_step_size hint;
            step_result = complete;
            outgoing_sim = [];
            outgoing_fun = [];
          })
          a.simulators;
  }

  unfoldable pub add_function : ℕ → ops.Fun → Algorithm → Algorithm
  add_function i f a = record a {
    functions =
        assign ℕ_discrete i (record { fun = f; decimation_factor = 1; outgoing_sim = [] })
          a.functions;
  }

  -- `remove_if` on the simulator of the target
  unfoldable pub without_target :
      {Source : Type 0}
      → ℕ
      → List (Connection Source VariableId)
      → List (Connection Source VariableId)
  without_target i [] = []
  without_target i (c ∷ cs) =
      let rest = without_target i cs in ite (ℕ_discrete c.target.simulator i) rest (c ∷ rest)

  unfoldable pub disconnect_simulators : ℕ → List (ℕ × SimulatorInfo) → List (ℕ × SimulatorInfo)
  disconnect_simulators i [] = []
  disconnect_simulators i ((j, s) ∷ m) =
      (j, record s { outgoing_sim = without_target i s.outgoing_sim }) ∷ disconnect_simulators i m

  unfoldable pub disconnect_functions : ℕ → List (ℕ × FunctionInfo) → List (ℕ × FunctionInfo)
  disconnect_functions i [] = []
  disconnect_functions i ((j, f) ∷ m) =
      (j, record f { outgoing_sim = without_target i f.outgoing_sim }) ∷ disconnect_functions i m

  unfoldable pub remove_simulator : ℕ → Algorithm → Algorithm
  unfolding disconnect_simulators disconnect_functions
  remove_simulator i a = record a {
    simulators = disconnect_simulators i (erase ℕ_discrete i a.simulators);
    functions = disconnect_functions i a.functions;
  }

  -- The three `connect_variables`.
  unfoldable pub connect_ss : VariableId → VariableId → A (Unit {0})
  connect_ss output input = do
    source ← simulator_at output.simulator
    target ← simulator_at input.simulator
    on_simulator output.simulator (ops.expose_for_getting output.type output.reference)
    on_simulator input.simulator (ops.expose_for_setting input.type input.reference)
    s ← simulator_at output.simulator
    put_simulator output.simulator (record s {
      outgoing_sim = s.outgoing_sim ++ record { source = output; target = input } ∷ [];
    })

  unfoldable pub connect_sf : VariableId → FunctionIoId → A (Unit {0})
  connect_sf output input = do
    on_simulator output.simulator (ops.expose_for_getting output.type output.reference)
    s ← simulator_at output.simulator
    put_simulator output.simulator (record s {
      outgoing_fun = s.outgoing_fun ++ record { source = output; target = input } ∷ [];
    })

  -- `update_function_decimation_factor`: the least common multiple over the targets
  unfoldable pub accumulate_factor :
      ℕ → List (Connection FunctionIoId VariableId) → List (ℕ × SimulatorInfo) → Outcome ℕ
  accumulate_factor current [] sims = ok current
  accumulate_factor current (c ∷ cs) sims = elim (find ℕ_discrete c.target.simulator sims) [
    | none ↦ err out_of_range
    | some s ↦ O.◌>>=◌ (int_lcm current s.decimation_factor) (λ n. accumulate_factor n cs sims)
  ]

  unfoldable pub connect_fs : FunctionIoId → VariableId → A (Unit {0})
  connect_fs output input = do
    f ← function_at output.function
    on_simulator input.simulator (ops.expose_for_setting input.type input.reference)
    let conns = f.outgoing_sim ++ record { source = output; target = input } ∷ []
    put_function output.function (record f { outgoing_sim = conns })
    factor ← λ a. (accumulate_factor 1 conns a.simulators, a)
    put_function output.function (record f { outgoing_sim = conns; decimation_factor = factor })

  -- The first connection to the target goes; `none` if there is none.
  unfoldable pub remove_first :
      {Source Target : Type 0}
      → Discrete Target
      → Target
      → List (Connection Source Target)
      → Option (List (Connection Source Target))
  remove_first d t [] = none
  remove_first d t (c ∷ cs) =
      let rest = Option.map (◌∷◌ c) (remove_first d t cs) in ite (d c.target t) (some cs) rest

  -- The two `disconnect_variable`. Only simulators are searched for the source of the connection.
  unfoldable pub disconnect_in : VariableId → List (ℕ × SimulatorInfo) → List (ℕ × SimulatorInfo)
  disconnect_in t [] = []
  disconnect_in t ((i, s) ∷ m) =
      let rest = disconnect_in t m in
      elim (remove_first VariableId-discrete t s.outgoing_sim) [
        | some cs ↦ (i, record s { outgoing_sim = cs }) ∷ m
        | none ↦ (i, s) ∷ rest
      ]

  unfoldable pub disconnect_io_in :
      FunctionIoId → List (ℕ × SimulatorInfo) → List (ℕ × SimulatorInfo)
  disconnect_io_in t [] = []
  disconnect_io_in t ((i, s) ∷ m) =
      let rest = disconnect_io_in t m in
      elim (remove_first FunctionIoId-discrete t s.outgoing_fun) [
        | some cs ↦ (i, record s { outgoing_fun = cs }) ∷ m
        | none ↦ (i, s) ∷ rest
      ]

  unfoldable pub disconnect_variable : VariableId → Algorithm → Algorithm
  unfolding disconnect_in
  disconnect_variable t a = record a { simulators = disconnect_in t a.simulators }

  unfoldable pub disconnect_io : FunctionIoId → Algorithm → Algorithm
  unfolding disconnect_io_in
  disconnect_io t a = record a { simulators = disconnect_io_in t a.simulators }

  unfoldable pub setup : ℤ → Option ℤ → Algorithm → Algorithm
  setup start stop a = record a { start_time = start; stop_time = stop }

  unfoldable pub set_stepsize_decimation_factor : ℕ → ℤ → A (Unit {0})
  set_stepsize_decimation_factor i (pos (suc n)) = do
    s ← simulator_at i
    put_simulator i (record s { decimation_factor = suc n })
  set_stepsize_decimation_factor i _ = throw invalid_argument

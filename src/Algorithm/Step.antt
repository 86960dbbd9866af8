-- ===== src/Algorithm/Step.antt =====
-- `transfer_variables`, `initialize` and `do_step` of `fixed_step_algorithm::impl`. The tasks given
-- to the thread pool between two waits touch one simulator each; they are run in the map's order.
use libcosim.Base.{
  ℕ, zero, suc, ◌+◌, ◌*◌, ◌%◌, Bool, true, false, not, ◌||◌, List, [], ◌∷◌, ◌==◌, if◌then◌else◌,
  length,
}
use libcosim.Base.Int.{ℤ, pos}
use libcosim.Base.Outcome.{Outcome, ok, err, terminated, simulation_error}
use libcosim.Base.Outcome as O
use libcosim.Base.Method.{Method, pure, throw, lift, ◌>>=◌, ◌>>◌}
use libcosim.Model.{
  VariableType, real, integer, boolean, string, enumeration, complete, failed, canceled,
}
use libcosim.Algorithm.Lcm.{int_lcm}
use libcosim.Algorithm.Defs.{
  VariableId, FunctionIoId, EntityOps, Connection, SimulatorInfo, FunctionInfo, A, simulator_at,
  function_at, on_simulator, on_function,
}

-- `stepCounter_ % std::lcm(sdf, tdf) == 0`
unfoldable pub is_due : ℕ → ℕ → ℕ → Outcome Bool
is_due counter sdf tdf = O.◌>>=◌ (int_lcm sdf tdf) (λ m. ok (counter % m == 0))

module _ {Real : Type 0} (ops : EntityOps Real) where
  abbrev pub from_simulator : {B : Type 0} → ℕ → (ops.Sim → Outcome B) → A ops B
  from_simulator i get = do s ← simulator_at ops i; lift (get s.sim)

  abbrev pub from_function : {B : Type 0} → ℕ → (ops.Fun → Outcome B) → A ops B
  from_function i get = do f ← function_at ops i; lift (get f.fun)

  -- The three `transfer_variable`, by the type of the target.
  unfoldable pub transfer_ss_as : VariableType → VariableId → VariableId → A ops (Unit {0})
  transfer_ss_as real s t = do
    v ← from_simulator s.simulator (ops.sim_get_real s.reference)
    on_simulator ops t.simulator (ops.sim_set_real t.reference v)
  transfer_ss_as integer s t = do
    v ← from_simulator s.simulator (ops.sim_get_integer s.reference)
    on_simulator ops t.simulator (ops.sim_set_integer t.reference v)
  transfer_ss_as boolean s t = do
    v ← from_simulator s.simulator (ops.sim_get_boolean s.reference)
    on_simulator ops t.simulator (ops.sim_set_boolean t.reference v)
  transfer_ss_as string s t = do
    v ← from_simulator s.simulator (ops.sim_get_string s.reference)
    on_simulator ops t.simulator (ops.sim_set_string t.reference v)
  transfer_ss_as enumeration s t = throw terminated

  unfoldable pub transfer_sf_as : VariableType → VariableId → FunctionIoId → A ops (Unit {0})
  transfer_sf_as real s t = do
    v ← from_simulator s.simulator (ops.sim_get_real s.reference)
    on_function ops t.function (ops.fun_set_real t.reference v)
  transfer_sf_as integer s t = do
    v ← from_simulator s.simulator (ops.sim_get_integer s.reference)
    on_function ops t.function (ops.fun_set_integer t.reference v)
  transfer_sf_as boolean s t = do
    v ← from_simulator s.simulator (ops.sim_get_boolean s.reference)
    on_function ops t.function (ops.fun_set_boolean t.reference v)
  transfer_sf_as string s t = do
    v ← from_simulator s.simulator (ops.sim_get_string s.reference)
    on_function ops t.function (ops.fun_set_string t.reference v)
  transfer_sf_as enumeration s t = throw terminated

  unfoldable pub transfer_fs_as : VariableType → FunctionIoId → VariableId → A ops (Unit {0})
  transfer_fs_as real s t = do
    v ← from_function s.function (ops.fun_get_real s.reference)
    on_simulator ops t.simulator (ops.sim_set_real t.reference v)
  transfer_fs_as integer s t = do
    v ← from_function s.function (ops.fun_get_integer s.reference)
    on_simulator ops t.simulator (ops.sim_set_integer t.reference v)
  transfer_fs_as boolean s t = do
    v ← from_function s.function (ops.fun_get_boolean s.reference)
    on_simulator ops t.simulator (ops.sim_set_boolean t.reference v)
  transfer_fs_as string s t = do
    v ← from_function s.function (ops.fun_get_string s.reference)
    on_simulator ops t.simulator (ops.sim_set_string t.reference v)
  transfer_fs_as enumeration s t = throw terminated

  abbrev pub when_due : ℕ → ℕ → A ops (Unit {0}) → A ops (Unit {0})
  when_due sdf tdf m a =
      (lift (is_due a.step_counter sdf tdf) >>= λ due. if due then m else pure tt) a

  unfoldable pub transfer_ss : List (Connection VariableId VariableId) → A ops (Unit {0})
  unfolding transfer_ss_as
  transfer_ss [] = pure tt
  transfer_ss (c ∷ cs) = do
    s ← simulator_at ops c.source.simulator
    t ← simulator_at ops c.target.simulator
    when_due s.decimation_factor t.decimation_factor
        (transfer_ss_as c.target.type c.source c.target)
    transfer_ss cs

  unfoldable pub transfer_sf : List (Connection VariableId FunctionIoId) → A ops (Unit {0})
  unfolding transfer_sf_as
  transfer_sf [] = pure tt
  transfer_sf (c ∷ cs) = do
    s ← simulator_at ops c.source.simulator
    t ← function_at ops c.target.function
    when_due s.decimation_factor t.decimation_factor
        (transfer_sf_as c.target.type c.source c.target)
    transfer_sf cs

  unfoldable pub transfer_fs : List (Connection FunctionIoId VariableId) → A ops (Unit {0})
  unfolding transfer_fs_as
  transfer_fs [] = pure tt
  transfer_fs (c ∷ cs) = do
    s ← function_at ops c.source.function
    t ← simulator_at ops c.target.simulator
    when_due s.decimation_factor t.decimation_factor
        (transfer_fs_as c.target.type c.source c.target)
    transfer_fs cs

  abbrev Sims : Type 0
  Sims = List (ℕ × SimulatorInfo ops)

  -- The tasks of one round of `initialize`. An exception in a task ends the process, but if there are
  -- no threads: then tasks run where they are submitted, and it leaves the others out.
  unfoldable pub each_simulator :
      Bool → Method ops.Sim (Unit {0}) → Sims → Outcome (Unit {0}) × Sims
  each_simulator threads m [] = (ok tt, [])
  each_simulator threads m ((i, s) ∷ sims) =
      let r = m s.sim in
      let rest = each_simulator threads m sims in
      elim r.0 [
        | ok _ ↦ (rest.0, (i, record s { sim = r.1 }) ∷ rest.1)
        | err x ↦
            if threads
            then (err terminated, (i, record s { sim = r.1 }) ∷ rest.1)
            else (err x, (i, record s { sim = r.1 }) ∷ sims)
      ]

  abbrev pub in_pool : Method ops.Sim (Unit {0}) → A ops (Unit {0})
  in_pool m a =
      let r = each_simulator (not (a.worker_count == 0)) m a.simulators in
      (r.0, record a { simulators = r.1 })

  abbrev pub keys : {B : Type 0} → List (ℕ × B) → List ℕ
  keys [] = []
  keys ((i, b) ∷ m) = i ∷ keys m

  -- The transfers of the outputs of the simulators listed.
  unfoldable pub transfer_outputs : List ℕ → A ops (Unit {0})
  transfer_outputs [] = pure tt
  transfer_outputs (i ∷ is) = do
    s ← simulator_at ops i
    transfer_ss s.outgoing_sim
    transfer_sf s.outgoing_fun
    transfer_outputs is

  unfoldable pub calculate_function : ℕ → A ops (Unit {0})
  calculate_function i = do
    on_function ops i ops.calculate
    f ← function_at ops i
    transfer_fs f.outgoing_sim

  unfoldable pub calculate_all : List ℕ → A ops (Unit {0})
  calculate_all [] = pure tt
  calculate_all (i ∷ is) = do calculate_function i; calculate_all is

  unfoldable pub iterate : ℕ → A ops (Unit {0})
  iterate zero = pure tt
  iterate (suc n) = do
    in_pool ops.do_iteration
    λ a. transfer_outputs (keys a.simulators) a
    λ a. calculate_all (keys a.functions) a
    iterate n

  unfoldable pub initialize : A ops (Unit {0})
  initialize = do
    λ a. in_pool (ops.sim_setup a.start_time a.stop_time) a
    λ a. iterate (length a.simulators + length a.functions) a
    in_pool ops.start_simulation

  -- `info.stepResult = …`, and whether the task sets `failed`
  unfoldable pub step_simulator : ℤ → ℕ → SimulatorInfo ops → Bool × SimulatorInfo ops
  step_simulator t base s =
      let r = ops.sim_do_step t (pos (base * s.decimation_factor)) s.sim in
      elim r.0 [
        | err _ ↦ (true, record s { sim = r.1 })
        | ok complete ↦ (false, record s { sim = r.1; step_result = complete })
        | ok failed ↦ (true, record s { sim = r.1; step_result = failed })
        | ok canceled ↦ (true, record s { sim = r.1; step_result = canceled })
      ]

  -- Whether any task failed, and the simulators after the tasks.
  unfoldable pub step_due : ℤ → ℕ → ℕ → Sims → Bool × Sims
  step_due t base counter [] = (false, [])
  step_due t base counter ((i, s) ∷ sims) =
      let rest = step_due t base counter sims in
      if counter % s.decimation_factor == 0
      then (let r = step_simulator t base s in (r.0 || rest.0, (i, r.1) ∷ rest.1))
      else (rest.0, (i, s) ∷ rest.1)

  -- The set `finished`.
  unfoldable pub finished_at : ℕ → Sims → List ℕ
  finished_at counter [] = []
  finished_at counter ((i, s) ∷ sims) =
      let rest = finished_at counter sims in
      if counter % s.decimation_factor == 0 then i ∷ rest else rest

  unfoldable pub due_functions : ℕ → List (ℕ × FunctionInfo ops) → List ℕ
  due_functions counter [] = []
  due_functions counter ((i, f) ∷ funs) =
      let rest = due_functions counter funs in
      if counter % f.decimation_factor == 0 then i ∷ rest else rest

  -- The transfers at the end of a step.
  unfoldable pub propagate : List ℕ → A ops (Unit {0})
  propagate finished = do
    transfer_outputs finished
    λ a. calculate_all (due_functions a.step_counter a.functions) a

  unfoldable pub do_step : ℤ → A ops (ℕ × List ℕ)
  do_step t a =
      let r = step_due t a.base_step_size a.step_counter a.simulators in
      let counter = suc a.step_counter in
      let finished = finished_at counter r.1 in
      let b = record a { simulators = r.1; step_counter = counter } in
      if r.0
      then (err simulation_error, b)
      else (do propagate finished; pure (a.base_step_size, finished)) b

-- ===== src/Tests/Algorithms.antt =====
-- Theorems on fixed_step_algorithm.cpp at two simulators, one of which steps every other time.
use mathlib.Core.Option
use libcosim.Base.{
  ℕ, zero, suc, true, List, [], ◌∷◌, none, some, ◌≡◌, ◌≢◌, refl, sym, ◌∙◌, arith, ℕ_discrete, ltb,
}
use libcosim.Base.Positions.{is_in}
use libcosim.Base.Int.{pos}
use libcosim.Base.Assoc.{find, assign}
use libcosim.Base.Outcome.{Outcome, Failure, ok, err, undefined}
use libcosim.Base.Method.{pure}
use libcosim.Model.{StepResult, complete, failed}
use libcosim.Algorithm.Defs.{
  make, add_simulator, EntityOps, SimulatorInfo, Algorithm, calculate_decimation_factor,
}
use libcosim.Algorithm.Factors.{HasFactors}
use libcosim.Algorithm.Reach.{
  AlgorithmReach, made, next_call, adds_simulator, takes_step, AlgorithmReach-HasFactors,
}
use libcosim.Algorithm.Connections.{FactorFits, calculate_decimation_factor_lem}
use libcosim.Algorithm.Step.{
  do_step, step_due, step_simulator, finished_at, propagate, transfer_outputs, transfer_ss,
  transfer_sf, due_functions, calculate_all,
}
use libcosim.Algorithm.Schedule.{Distinct, do_step_tiles}

calculate_decimation_factor_lem_example :
    FactorFits 10 35 (calculate_decimation_factor 10 (pos 35)) (ltb 35 10)
calculate_decimation_factor_lem_example =
    calculate_decimation_factor_lem 10 35 (omega arith) (omega arith)

-- A simulator is its number of steps; the third fails.
abbrev counted : ℕ → Outcome StepResult × ℕ
counted (suc (suc zero)) = (ok failed, 3)
counted n = (ok complete, suc n)

abbrev counters : EntityOps ℕ
counters = record {
  Sim = ℕ;
  Fun = ℕ;
  expose_for_getting = λ t r. pure tt;
  expose_for_setting = λ t r. pure tt;
  sim_get_real = λ r n. ok n;
  sim_get_integer = λ r n. ok (pos n);
  sim_get_boolean = λ r n. ok true;
  sim_get_string = λ r n. ok [];
  sim_set_real = λ r v. pure tt;
  sim_set_integer = λ r v. pure tt;
  sim_set_boolean = λ r v. pure tt;
  sim_set_string = λ r v. pure tt;
  sim_setup = λ start stop. pure tt;
  do_iteration = pure tt;
  start_simulation = pure tt;
  sim_do_step = λ t dt n. counted n;
  fun_get_real = λ r n. ok n;
  fun_get_integer = λ r n. ok (pos n);
  fun_get_boolean = λ r n. ok true;
  fun_get_string = λ r n. ok [];
  fun_set_real = λ r v. pure tt;
  fun_set_integer = λ r v. pure tt;
  fun_set_boolean = λ r v. pure tt;
  fun_set_string = λ r v. pure tt;
  calculate = pure tt;
}

abbrev info : ℕ → ℕ → SimulatorInfo counters
info n factor = record {
  sim = n;
  decimation_factor = factor;
  step_result = complete;
  outgoing_sim = [];
  outgoing_fun = [];
}

-- The simulator 4 has a factor of 1, and the simulator 5 one of 2.
abbrev two_simulators : ℕ → ℕ → Algorithm counters
two_simulators n steps = record {
  base_step_size = 10;
  start_time = pos 0;
  stop_time = none;
  simulators = (4, info n 1) ∷ (5, info 0 2) ∷ [];
  functions = [];
  step_counter = steps;
  worker_count = 3;
}

both-Distinct : Distinct counters (two_simulators 0 1).simulators
unfolding find ℕ_discrete
both-Distinct = (refl, (refl, tt))

fifth_found : find ℕ_discrete 5 (two_simulators 0 1).simulators ≡ some (info 0 2)
unfolding find ℕ_discrete
fifth_found = refl

abbrev stepped : Algorithm counters
stepped = (do_step counters (pos 10) (two_simulators 0 1)).1

abbrev reported : ℕ × List ℕ
reported = (10, 4 ∷ 5 ∷ [])

steps_ok : do_step counters (pos 10) (two_simulators 0 1) ≡ (ok reported, stepped)
unfolding do_step step_due step_simulator finished_at propagate transfer_outputs transfer_ss
    transfer_sf due_functions calculate_all find ℕ_discrete
steps_ok = refl

do_step_tiles_example : (reported.0 ≡ 10) × (is_in 5 reported.1 ≡ true)
do_step_tiles_example =
    do_step_tiles counters (pos 10) (two_simulators 0 1) stepped reported 5 0 1 (info 0 2) steps_ok
      both-Distinct fifth_found refl (omega arith) refl

abbrev without_simulators : Algorithm counters
without_simulators = record {
  base_step_size = 10;
  start_time = pos 0;
  stop_time = none;
  simulators = [];
  functions = [];
  step_counter = 0;
  worker_count = 3;
}

made_at_ten : make counters 4 none (pos 10) ≡ ok without_simulators
unfolding make
made_at_ten = refl

ok-ne-err : {A : Type 0} {a : A} {x : Failure} → ok a ≢ err x
ok-ne-err e = cc

abbrev with_simulator : Algorithm counters
with_simulator = add_simulator counters 4 0 (pos 35) without_simulators

first_step : (do_step counters (pos 0) with_simulator).0 ≡ ok (10, [])
unfolding do_step step_due step_simulator finished_at propagate transfer_outputs transfer_ss
    transfer_sf due_functions calculate_all find assign ℕ_discrete add_simulator
    calculate_decimation_factor
first_step = refl

step-defined : (do_step counters (pos 0) with_simulator).0 ≢ err undefined
step-defined e = ok-ne-err (sym first_step ∙ e)

-- One simulator is added, and a step is taken.
one_step-AlgorithmReach :
    AlgorithmReach counters
      (do_step counters (pos 0) (add_simulator counters 4 0 (pos 35) without_simulators)).1
one_step-AlgorithmReach =
    next_call
      (next_call (made 4 none (pos 10) made_at_ten)
        (adds_simulator 4 0 (pos 35) without_simulators))
      (takes_step (pos 0) _ step-defined)

AlgorithmReach-HasFactors_example :
    HasFactors counters
      (do_step counters (pos 0) (add_simulator counters 4 0 (pos 35) without_simulators)).1
AlgorithmReach-HasFactors_example = AlgorithmReach-HasFactors counters one_step-AlgorithmReach

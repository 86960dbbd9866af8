-- ===== src/Tests/Executions.antt =====
-- An execution of one simulator and one function, whose algorithm takes steps of 100 ticks.
use mathlib.Core.Path.{subst}
use libcosim.Base.{
  ℕ, zero, suc, ◌*◌, ◌≤◌, Bool, true, false, [], ◌∷◌, none, some, ◌≡◌, refl, sym, ap, ltb, arith,
}
use libcosim.Base.Int.{ℤ, pos, negsuc, add_ℤ, sub_ℤ}
use libcosim.Base.Outcome.{ok}
use libcosim.Base.Method.{pure}
use libcosim.Model.{real, input, output, continuous, VariableDescription, ModelDescription}
use libcosim.Function.Description.{FunctionDescription, value}
use libcosim.Function.VectorSum.{vector_sum_groups}
use libcosim.Algorithm.Defs.{VariableId}
use libcosim.Execution.Defs.{Parts, Execution, is_running, for_each}
use libcosim.Execution.Step.{step, initialize_once, start, commence, advance, tell, simulate_until}
use libcosim.Execution.Steps.{StepEnds, step_lem}
use libcosim.Execution.Runs.{to_ℕ, put_stopped, NearEnd, simulate_until_lem}

abbrev pub a_variable : ℕ → VariableDescription ℕ
a_variable zero = record {
  name = b'y' ∷ [];
  reference = 0;
  type = real;
  causality = output;
  variability = continuous;
  start = none;
}
a_variable (suc n) = record {
  name = b'u' ∷ [];
  reference = 1;
  type = real;
  causality = input;
  variability = continuous;
  start = none;
}

abbrev pub a_model : ModelDescription ℕ
a_model = record {
  name = b'm' ∷ [];
  uuid = b'1' ∷ [];
  variables = a_variable 0 ∷ a_variable 1 ∷ [];
}

-- The shared objects are a count of the steps.
abbrev pub hundreds : Parts ℕ
hundreds = record {
  World = ℕ;
  Slave = Unit {0};
  Sim = Unit {0};
  Fun = FunctionDescription;
  Observer = Unit {0};
  Manipulator = Unit {0};
  new_simulator = λ s name. pure tt;
  model_description = λ s w. a_model;
  modified_variables = λ t s w. [];
  expose_for_setting = λ s t r. pure tt;
  set_real = λ s r v. pure tt;
  set_integer = λ s r v. pure tt;
  set_boolean = λ s r v. pure tt;
  set_string = λ s r v. pure tt;
  description = λ f w. f;
  setup = λ s e. pure tt;
  add_simulator = λ i s h. pure tt;
  algorithm_add_function = λ i f. pure tt;
  connect_ss = λ s t. pure tt;
  connect_sf = λ s t. pure tt;
  connect_fs = λ s t. pure tt;
  initialize = pure tt;
  do_step = λ t w. (ok (pos 100, 0 ∷ []), suc w);
  observer_simulator_added = λ o i s t. pure tt;
  simulation_initialized = λ o n t. pure tt;
  simulator_step_complete = λ o i n d t. pure tt;
  step_complete = λ o n d t. pure tt;
  manipulator_simulator_added = λ m i s t. pure tt;
  step_commencing = λ m t. pure tt;
}

abbrev pub X : Type 0
X = Execution hundreds

abbrev pub running : ℕ → ℤ → Bool → Bool → ℕ → X
running n t b s w = record {
  last_step = n;
  current_time = t;
  initialized = b;
  stopped = s;
  simulators = tt ∷ [];
  functions = vector_sum_groups (value (pos 1)) (value real) (value (pos 1)) ∷ [];
  observers = [];
  manipulators = [];
  ss_connections = [];
  sf_connections = [];
  fs_connections = [];
  world = w;
}

step_lem_example :
    StepEnds hundreds
      (running 0 (pos 0) false true 0)
      (step hundreds (running 0 (pos 0) false true 0)).0
      (step hundreds (running 0 (pos 0) false true 0)).1
step_lem_example = step_lem hundreds (running 0 (pos 0) false true 0)

step_returns :
    (n : ℕ) (t : ℤ) (b s : Bool) (w : ℕ)
    → step hundreds (running n t b s w)
      ≡ (ok (pos 100), running (suc n) (add_ℤ t (pos 100)) true s (suc w))
unfolding step initialize_once start commence advance tell for_each
step_returns n t true s w = refl
step_returns n t false s w = refl

-- A hundredth of a step, compared exactly
abbrev near : ℤ → ℤ → Bool
near (pos l) (pos d) = ltb (l * 100) d
near (pos l) (negsuc d) = false
near (negsuc l) d = true

near_passed : (n : ℕ) (left : ℤ) → to_ℕ left ≡ 0 → near left (pos (suc n)) ≡ true
near_passed n (pos l) h = ground arith
near_passed n (negsuc l) h = refl

abbrev Runs : X → Type 0
Runs e = (n : ℕ) × (t : ℤ) × (b : Bool) × (s : Bool) × (w : ℕ) × (e ≡ running n t b s w)

abbrev Goes : X → Type 0
Goes e = (n : ℕ) × ((step hundreds e).0 ≡ ok (pos (suc n))) × Runs (step hundreds e).1

goes : (e : X) → Runs e → Goes e
goes e (n, t, b, s, w, p) = subst Goes (sym p) (
  99,
  ap (λ r. r.0) (step_returns n t b s w),
  (suc n, add_ℤ t (pos 100), true, s, suc w, ap (λ r. r.1) (step_returns n t b s w)),
)

flagged : (e : X) (b : Bool) → Runs e → Runs (put_stopped hundreds near e b)
flagged e b (n, t, i, s, w, p) = (n, t, i, b, w, ap (λ (y : X). put_stopped hundreds near y b) p)

left_at_start : to_ℕ (sub_ℤ (pos 250) (pos 0)) ≤ 250
unfolding sub_ℤ
left_at_start = ground arith

simulate_until_lem_example :
    (let r =
        simulate_until hundreds near 251
          (λ _. false)
          false
          (some (pos 250))
          (running 0 (pos 0) false true 0) in
      (r.0 ≡ ok (some true))
      × (is_running hundreds r.1 ≡ false)
      × NearEnd hundreds near (pos 250) true r.1)
simulate_until_lem_example =
    simulate_until_lem hundreds near Runs goes flagged near_passed (pos 250) 250
      (running 0 (pos 0) false true 0) (0, pos 0, false, true, 0, refl) left_at_start

abbrev at_start : X
at_start = running 0 (pos 0) false true 0

abbrev y : VariableId
y = record { simulator = 0; type = real; reference = 0 }

abbrev u : VariableId
u = record { simulator = 0; type = real; reference = 1 }

-- ===== src/Tests/Scenarios.antt =====
-- A scenario of two events on a simulator with one output, and an override of that output.
use libcosim.Simulator.GetCache.{expose, put_modifier, index_or_insert}
use libcosim.Simulator.GetCache
use libcosim.Simulator.Impl.{set_output_modifier}
use libcosim.Manipulator.Causality.{find_variable_causality, is_input, variable_is_input}
use libcosim.Simulator.Variables.{model_description, set_real_output_modifier}
use libcosim.Base.Assoc.{assign, contains, find}
use mathlib.Core.List.Memᴰ.{Memᴰ}
use libcosim.Base.{
  ℕ_discrete, ℕ, zero, suc, true, false, get_elem?, List, [], ◌∷◌, none, some, ◌≡◌, refl, sym, ap,
}
use libcosim.Base.Int.{sub_ℤ, ℤ, pos}
use libcosim.Base.Positions.{some_cancel, none-ne-some}
use libcosim.Base.Outcome.{ok, Outcome}
use libcosim.Base.Method.{◌>>◌}
use libcosim.Model.{VariableType-discrete}
use libcosim.Simulator.Slave.{expose_for_getting, SlaveState-discrete, SlaveSimulator}
use libcosim.Manipulator.Actions.{on_sim, execute_action, real_modifier, Event, Scenario}
use libcosim.Manipulator.Override.{override_real_variable}
use libcosim.Manipulator.Override
use libcosim.Manipulator.Override.Queue.{idle, Shows, get-override_real_variable}
use libcosim.Manipulator.Scenario.{
  load, Events, State, load_scenario, step_commencing, abort_scenario, is_scenario_running,
  empty_events,
}
use libcosim.Manipulator.Scenario.Moves.{Entry, IsSplit, due}
use libcosim.Manipulator.Scenario.Steps.{After, step_commencing_lem}
use libcosim.Manipulator.Scenario.Reach.{
  ManagerReach, loads, steps, ManagerReach-IsSplit, is_scenario_running-step_commencing,
}
use libcosim.Manipulator.Scenario.Abort.{Aborted, abort_scenario-IsReset}
use libcosim.Simulator.GetCache.Laws.{CacheReach-IsAligned, fresh}
use libcosim.Tests.Executions.{a_model}
use libcosim.Tests.Simulators.{counting, counter}

abbrev sim : SlaveSimulator ℕ 0 counting
sim = record counter { description = a_model }

abbrev world : List (SlaveSimulator ℕ 0 counting)
world = sim ∷ []

abbrev Q : Type 0
Q = State ℕ 0 counting

-- The output 0 of the simulator 4 becomes 9.
abbrev nine : ℤ → Event ℕ
nine t = record {
  time = t;
  action = record {
    simulator = 4;
    variable = 0;
    modifier = real_modifier (some (λ v dt. 9));
    is_input = false;
  };
}

abbrev scenario : Scenario ℕ
scenario = record { events = nine (pos 3) ∷ nine (pos 5) ∷ []; end = some (pos 8) }

abbrev unloaded : Q
unloaded = record {
  state = record {
    remaining_events = [];
    executed_events = [];
    start_time = pos 0;
    end_time = none;
    running = false;
  };
  simulators = (4, some 0) ∷ [];
  world = world;
}

abbrev in_order : Events ℕ → Events ℕ
in_order m = m

visits :
    (m : Events ℕ) (x : Entry ℕ)
    → (Memᴰ x (in_order m) → Memᴰ x m) × (Memᴰ x m → Memᴰ x (in_order m))
visits m x = (λ h. h, λ h. h)

abbrev loaded : Q
loaded = load_scenario ℕ 0 counting scenario (pos 100) unloaded

abbrev halfway : Q
halfway = (step_commencing ℕ 0 counting in_order (pos 104) loaded).1

-- The first event has been executed.
halfway-ManagerReach : ManagerReach ℕ 0 counting in_order visits scenario halfway
halfway-ManagerReach = steps (pos 104) (loads unloaded (pos 100))

ManagerReach-IsSplit_example : IsSplit scenario.events halfway.state
ManagerReach-IsSplit_example =
    ManagerReach-IsSplit ℕ 0 counting in_order visits halfway-ManagerReach

loaded-IsSplit : IsSplit scenario.events loaded.state
loaded-IsSplit = ManagerReach-IsSplit ℕ 0 counting in_order visits (loads unloaded (pos 100))

step_commencing_lem_example :
    After ℕ 0 counting
      (pos 4)
      loaded
      true
      false
      (step_commencing ℕ 0 counting in_order (pos 104) loaded).0
      halfway
unfolding step_commencing load_scenario load assign ℕ_discrete sub_ℤ
step_commencing_lem_example =
    step_commencing_lem ℕ 0 counting in_order visits (pos 104) loaded loaded-IsSplit

abbrev late : Q
late = (step_commencing ℕ 0 counting in_order (pos 106) loaded).1

runs :
    ◌≡◌ {A = Outcome (Unit {0}) × Q}
      (step_commencing ℕ 0 counting in_order (pos 106) loaded)
      (ok tt, late)
unfolding step_commencing load_scenario load assign ℕ_discrete sub_ℤ find on_sim execute_action
    expose_for_getting set_real_output_modifier set_output_modifier GetCache.set_modifier
    index_or_insert expose contains put_modifier
runs = refl

all_due : (i : ℕ) (e : Event ℕ) → get_elem? scenario.events i ≡ some e → due (pos 6) (i, e) ≡ true
all_due zero e h = ap (λ (x : Event ℕ). due (pos 6) (0, x)) (sym (some_cancel h))
all_due (suc zero) e h = ap (λ (x : Event ℕ). due (pos 6) (1, x)) (sym (some_cancel h))
all_due (suc (suc i)) e h = absurd (none-ne-some h)

is_scenario_running-step_commencing_example :
    (empty_events ℕ 0 counting late.state.remaining_events ≡ true)
    × (is_scenario_running ℕ 0 counting (step_commencing ℕ 0 counting in_order (pos 108) late).1
        ≡ false)
unfolding is_scenario_running load_scenario load assign ℕ_discrete sub_ℤ
is_scenario_running-step_commencing_example =
    is_scenario_running-step_commencing ℕ 0 counting in_order visits {c = scenario} {s = loaded}
      (pos 106) (pos 108) (loads unloaded (pos 100)) refl refl all_due runs refl

abort_scenario-IsReset_example :
    let r = abort_scenario ℕ 0 counting in_order halfway in
    Aborted ℕ 0 counting in_order visits halfway r.0 r.1
abort_scenario-IsReset_example = abort_scenario-IsReset ℕ 0 counting in_order visits halfway

get-override_real_variable_example : Shows ℕ 0 counting 0 0 9 (5 ∷ []) (pos 1) (
    (override_real_variable ℕ 0 counting 4 0 9 >> Override.step_commencing ℕ 0 counting)
      (idle ℕ 0 counting ((4, some 0) ∷ []) world))
unfolding find ℕ_discrete variable_is_input on_sim model_description SlaveState-discrete
    find_variable_causality VariableType-discrete is_input expose contains
get-override_real_variable_example =
    get-override_real_variable ℕ 0 counting ((4, some 0) ∷ []) world 4 0 0 9 sim (5 ∷ []) (pos 1)
      refl refl refl (CacheReach-IsAligned fresh) refl

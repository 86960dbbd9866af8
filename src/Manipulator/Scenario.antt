-- ===== src/Manipulator/Scenario.antt =====
-- src/cosim/manipulator/scenario_manager.cpp: the events of a scenario, each run once when its time
-- has come. `visit` is the order in which a `std::unordered_map` is visited.
pub mod Moves
pub mod Steps
pub mod Reach
pub mod Cleanup
pub mod Abort
use libcosim.Base.{
  ℕ, Bool, true, false, not, ◌&&◌, List, [], ◌∷◌, Option, none, some, if◌then◌else◌, ℕ_discrete,
  length,
}
use libcosim.Base.Int.{ℤ, le_ℤ, sub_ℤ}
use libcosim.Base.Outcome.{Outcome, ok, err, undefined, of_option}
use libcosim.Base.Method.{Method, pure, read, modify, zoom, ◌>>=◌, ◌>>◌}
use libcosim.Base.Assoc.{find, assign, erase}
use libcosim.Simulator.Impl.{SlaveOps}
use libcosim.Manipulator.Actions.{
  VariableAction, Event, Scenario, Sim, execute_action, cleanup_action, on_sim,
}

abbrev pub Events : Type 0 → Type 0
Events Real = List (ℕ × Event Real)

-- `scenario_state`
pub record ScenarioState (Real : Type 0) : Type 0 where
  pub remaining_events : Events Real
  pub executed_events : Events Real
  pub start_time : ℤ
  pub end_time : Option ℤ
  pub running : Bool

-- `impl`, and the simulators that it points to
pub record Manager (Real : Type 0) (World : Type 0) : Type 0 where
  pub state : ScenarioState Real
  pub simulators : List (ℕ × Option ℕ)
  pub world : World

-- `state.remainingEvents[index] = event`, where `index` is the size of the map
unfoldable pub number_events : {E : Type 0} → List E → List (ℕ × E) → List (ℕ × E)
number_events [] m = m
number_events (e ∷ es) m = number_events es (assign ℕ_discrete (length m) e m)

-- `relativeTime >= time`
abbrev pub is_over : ℤ → Option ℤ → Bool
is_over now none = true
is_over now (some end) = le_ℤ end now

module _ {Real : Type 0} where
  -- `executedEvents[index] = event`, if the event was run
  abbrev pub keep : Bool → ℕ × Event Real → Events Real → Events Real
  keep b (i, e) es = if b then assign ℕ_discrete i e es else es

  -- The loop over the events that were executed in this step
  unfoldable pub record_executed : Events Real → ScenarioState Real → ScenarioState Real
  record_executed [] s = s
  record_executed ((i, e) ∷ es) s = record_executed es (record s {
    remaining_events = erase ℕ_discrete i s.remaining_events;
    executed_events = assign ℕ_discrete i e s.executed_events;
  })

  unfoldable pub load : Scenario Real → ℤ → ScenarioState Real
  unfolding number_events
  load c now = record {
    remaining_events = number_events c.events [];
    executed_events = [];
    start_time = now;
    end_time = c.end;
    running = true;
  }

module _ (Real : Type 0) (zero_real : Real) (ops : SlaveOps Real) where
  abbrev pub State : Type 0
  State = Manager Real (List (Sim Real zero_real ops))

  abbrev pub P : Type 0 → Type 0
  P = Method State

  abbrev pub on_world : {A : Type 0} → Method (List (Sim Real zero_real ops)) A → P A
  on_world = zoom (λ s. s.world) (λ w s. record s { world = w })

  abbrev pub change : (ScenarioState Real → ScenarioState Real) → P (Unit {0})
  change f = modify (λ s. record s { state = f s.state })

  abbrev pub put_running : Bool → ScenarioState Real → ScenarioState Real
  put_running b s = record s { running = b }

  unfoldable pub load_scenario : Scenario Real → ℤ → State → State
  load_scenario c now s = record s { state = load c now }

  unfoldable pub simulator_added : ℕ → Option ℕ → State → State
  simulator_added i sim s = record s { simulators = assign ℕ_discrete i sim s.simulators }

  unfoldable pub simulator_removed : ℕ → State → State
  simulator_removed i s = record s { simulators = erase ℕ_discrete i s.simulators }

  unfoldable pub is_scenario_running : State → Bool
  is_scenario_running s = s.state.running

  -- `simulators_[index]`, which inserts a null pointer under an index that is not there
  unfoldable pub simulator_or_insert : ℕ → P (Option ℕ)
  simulator_or_insert i s = elim (find ℕ_discrete i s.simulators) [
    | some p ↦ (ok p, s)
    | none ↦ (ok none, record s { simulators = assign ℕ_discrete i none s.simulators })
  ]

  unfoldable pub execute_event : Event Real → P (Unit {0})
  unfolding simulator_or_insert
  execute_event e = do
    sim ← simulator_or_insert e.action.simulator
    on_world (on_sim Real zero_real ops sim (execute_action Real zero_real ops e.action))

  unfoldable pub maybe_run_event : ℤ → Event Real → P Bool
  unfolding execute_event
  maybe_run_event now e = if le_ℤ e.time now then (do execute_event e; pure true) else pure false

  -- The events that were run, in the order of their numbers: `executed` is a `std::map`, whose order
  -- is not seen in what is done with it.
  unfoldable pub run_events : ℤ → Events Real → Events Real → P (Events Real)
  unfolding maybe_run_event
  run_events now [] executed = pure executed
  run_events now (entry ∷ es) executed = do
    b ← maybe_run_event now entry.1
    run_events now es (keep b entry executed)

  unfoldable pub cleanup_event : Event Real → P (Unit {0})
  unfolding simulator_or_insert
  cleanup_event e = do
    sim ← simulator_or_insert e.action.simulator
    on_world (on_sim Real zero_real ops sim (cleanup_action Real zero_real ops e.action))

  unfoldable pub cleanup : Events Real → P (Unit {0})
  unfolding cleanup_event
  cleanup [] = pure tt
  cleanup (entry ∷ es) = do cleanup_event entry.1; cleanup es

  abbrev pub empty_events : List (ℕ × Event Real) → Bool
  empty_events [] = true
  empty_events (e ∷ es) = false

  module _ (visit : Events Real → Events Real) where
    unfoldable pub finish : P (Unit {0})
    unfolding cleanup
    finish = do
      change (put_running false)
      s ← read (λ s. s)
      cleanup (visit s.state.executed_events)

    unfoldable pub run_due : ℤ → P (Unit {0})
    unfolding run_events record_executed
    run_due now = do
      s ← read (λ s. s)
      executed ← run_events now (visit s.state.remaining_events) []
      change (record_executed executed)

    unfoldable pub step_commencing : ℤ → P (Unit {0})
    unfolding finish run_due
    step_commencing now s =
        if not s.state.running
        then (ok tt, s)
        else let relative = sub_ℤ now s.state.start_time in
          (if empty_events s.state.remaining_events && is_over relative s.state.end_time
              then finish
              else run_due relative)
            s

    unfoldable pub abort_scenario : P (Unit {0})
    unfolding cleanup
    abort_scenario = do
      finish
      change (λ s. record s { remaining_events = []; executed_events = [] })

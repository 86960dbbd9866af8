-- ===== src/Execution/Step.antt =====
-- `step` and `simulate_until` of `execution::impl`, the initial values and the modified variables.
use libcosim.Base.{
  ℕ, zero, suc, Bool, true, false, not, ◌||◌, List, [], ◌∷◌, ◌++◌, Option, none, some, map,
  if◌then◌else◌, get_elem?,
}
use libcosim.Base.Int.{ℤ, add_ℤ, sub_ℤ}
use libcosim.Base.Outcome.{ok, out_of_range, unsupported_feature, of_option}
use libcosim.Base.Method.{Method, pure, throw, read, modify, lift, ◌>>=◌, ◌>>◌}
use libcosim.Model.{VariableType, real, integer, boolean, string, Text}
use libcosim.Algorithm.Defs.{VariableId}
use libcosim.Execution.Defs.{Parts, Execution, E, call, for_each}

module _ {Real : Type 0} (parts : Parts Real) where
  -- The parts of `step`, before, in and after the algorithm's step
  unfoldable pub start : ℕ → ℤ → List parts.Observer → E parts (Unit {0})
  start n t observers = do
    call parts parts.initialize
    modify (λ e. record e { initialized = true })
    for_each parts (λ o. parts.simulation_initialized o n t) observers

  unfoldable pub initialize_once : E parts (Unit {0})
  unfolding start
  initialize_once e =
      (if e.initialized then pure tt else start e.last_step e.current_time e.observers) e

  unfoldable pub notify_steps : parts.Observer → List ℕ → ℕ → ℤ → ℤ → Method parts.World (Unit {0})
  notify_steps o [] n d t = pure tt
  notify_steps o (i ∷ is) n d t = do
    parts.simulator_step_complete o i n d t
    notify_steps o is n d t

  unfoldable pub notify : parts.Observer → List ℕ → ℕ → ℤ → ℤ → Method parts.World (Unit {0})
  unfolding notify_steps
  notify o finished n d t = do notify_steps o finished n d t; parts.step_complete o n d t

  unfoldable pub commence : E parts (Unit {0})
  commence e = for_each parts (λ m. parts.step_commencing m e.current_time) e.manipulators e

  unfoldable pub advance : E parts (ℤ × List ℕ)
  advance = do
    now ← read (λ e. e.current_time)
    result ← call parts (parts.do_step now)
    modify (λ e. record e {
      current_time = add_ℤ e.current_time result.0;
      last_step = suc e.last_step;
    })
    pure result

  unfoldable pub tell : ℤ × List ℕ → E parts (Unit {0})
  unfolding notify
  tell result e =
      for_each parts (λ o. notify o result.1 e.last_step result.0 e.current_time) e.observers e

  unfoldable pub step : E parts ℤ
  unfolding initialize_once commence advance tell
  step = do initialize_once; commence; result ← advance; tell result; pure result.0

  -- The loop of `simulate_until`. `near` compares what is left of the time with a hundredth of the
  -- step, in doubles. `stops k` says whether another thread calls `stop_simulation` in round `k`,
  -- after the flag is reset or read before the round and until it is read behind it or the step
  -- throws; `late` says so of the time until the flag is read after the loop. The sleep is not
  -- modelled.
  module _ (near : ℤ → ℤ → Bool) where
    unfoldable pub timed_out : Option ℤ → ℤ → ℤ → Bool
    timed_out none now d = false
    timed_out (some end) now d = near (sub_ℤ end now) d

    -- A call of `stop_simulation` by another thread
    abbrev pub stopping : Bool → Execution parts → Execution parts
    stopping b e = record e { stopped = e.stopped || b }

    -- A step that another thread may stop meanwhile, whether the step returns or throws
    unfoldable pub stoppable_step : Bool → E parts ℤ
    stoppable_step b e = let r = step e in (r.0, stopping b r.1)

    unfoldable pub run : ℕ → (ℕ → Bool) → Option ℤ → E parts (Option (Unit {0}))
    unfolding stoppable_step timed_out
    run zero stops end = pure none
    run (suc fuel) stops end = stoppable_step (stops 0) >>= λ d e.
        (if e.stopped || timed_out end e.current_time d
            then pure (some tt)
            else run fuel (λ k. stops (suc k)) end)
          e

    unfoldable pub conclude : Bool → Option (Unit {0}) → E parts (Option Bool)
    conclude late none e = (ok none, e)
    conclude late (some u) e = (ok (some (not (e.stopped || late))), record e { stopped = true })

    unfoldable pub simulate_until : ℕ → (ℕ → Bool) → Bool → Option ℤ → E parts (Option Bool)
    unfolding run conclude
    simulate_until fuel stops late end e =
        (run fuel stops end >>= conclude late) (record e { stopped = false })

  -- The four `set_…_initial_value`
  abbrev pub initial_value :
      ℕ → VariableType → ℕ → (parts.Sim → Method parts.World (Unit {0})) → E parts (Unit {0})
  initial_value i t r put = do
    e ← read (λ e. e)
    if e.initialized then throw unsupported_feature else pure tt
    s ← lift (of_option out_of_range (get_elem? e.simulators i))
    call parts (parts.expose_for_setting s t r)
    call parts (put s)

  unfoldable pub set_real_initial_value : ℕ → ℕ → Real → E parts (Unit {0})
  set_real_initial_value i r v = initial_value i real r (λ s. parts.set_real s r v)

  unfoldable pub set_integer_initial_value : ℕ → ℕ → ℤ → E parts (Unit {0})
  set_integer_initial_value i r v = initial_value i integer r (λ s. parts.set_integer s r v)

  unfoldable pub set_boolean_initial_value : ℕ → ℕ → Bool → E parts (Unit {0})
  set_boolean_initial_value i r v = initial_value i boolean r (λ s. parts.set_boolean s r v)

  unfoldable pub set_string_initial_value : ℕ → ℕ → Text → E parts (Unit {0})
  set_string_initial_value i r v = initial_value i string r (λ s. parts.set_string s r v)

  -- `get_modified_variables`
  abbrev as_ids : ℕ → VariableType → List ℕ → List VariableId
  as_ids i t rs = map (λ r. record { simulator = i; type = t; reference = r }) rs

  unfoldable pub modified_from : ℕ → List parts.Sim → parts.World → List VariableId
  modified_from i [] w = []
  modified_from i (s ∷ ss) w =
      as_ids i real (parts.modified_variables real s w)
      ++ as_ids i integer (parts.modified_variables integer s w)
      ++ as_ids i boolean (parts.modified_variables boolean s w)
      ++ as_ids i string (parts.modified_variables string s w)
      ++ modified_from (suc i) ss w

  unfoldable pub get_modified_variables : Execution parts → List VariableId
  unfolding modified_from
  get_modified_variables e = modified_from 0 e.simulators e.world

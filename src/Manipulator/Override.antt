-- ===== src/Manipulator/Override.antt =====
-- src/cosim/manipulator/override_manipulator.cpp: actions are queued by the caller, and run when a
-- step commences.
pub mod Queue
use libcosim.Base.{
  ℕ, Bool, true, false, List, [], ◌∷◌, ◌++◌, Option, none, some, if◌then◌else◌, ite, ℕ_discrete,
}
use libcosim.Base.Int.{ℤ}
use libcosim.Base.Outcome.{
  Outcome, ok, err, invalid_argument, out_of_range, terminated, undefined, of_option,
}
use libcosim.Base.Method.{Method, pure, throw, read, modify, lift, zoom, ◌>>=◌, ◌>>◌}
use libcosim.Base.Assoc.{find, assign, erase}
use libcosim.Model.{
  VariableType, real, integer, boolean, string, enumeration, VariableType-discrete, Causality,
  parameter, calculated_parameter, input, output, local, VariableDescription, ModelDescription,
  Text,
}
use libcosim.Simulator.Impl.{SlaveOps}
use libcosim.Simulator.Variables.{model_description}
use libcosim.Manipulator.Actions.{
  ActionModifier, real_modifier, integer_modifier, boolean_modifier, string_modifier,
  VariableAction, Sim, execute_action, on_sim,
}
use libcosim.Manipulator.Causality.{variable_is_input}

-- The manipulator, and the simulators that it points to.
pub record Override (Real : Type 0) (World : Type 0) : Type 0 where
  pub simulators : List (ℕ × Option ℕ)
  pub actions : List (VariableAction Real)
  pub world : World

module _ (Real : Type 0) (zero_real : Real) (ops : SlaveOps Real) where
  abbrev pub State : Type 0
  State = Override Real (List (Sim Real zero_real ops))

  abbrev pub O : Type 0
  O = Method State (Unit {0})

  abbrev pub on_world : {A : Type 0} → Method (List (Sim Real zero_real ops)) A → Method State A
  on_world = zoom (λ s. s.world) (λ w s. record s { world = w })

  unfoldable pub simulator_added : ℕ → Option ℕ → State → State
  simulator_added i sim s = record s { simulators = assign ℕ_discrete i sim s.simulators }

  unfoldable pub simulator_removed : ℕ → State → State
  simulator_removed i s = record s { simulators = erase ℕ_discrete i s.simulators }

  -- `simulators_.at(a.simulator)`, and the visitor, which is that of `execute_action`
  unfoldable pub run_action : VariableAction Real → O
  run_action a = do
    sim ← (λ s. (of_option out_of_range (find ℕ_discrete a.simulator s.simulators), s))
    on_world (on_sim Real zero_real ops sim (execute_action Real zero_real ops a))

  unfoldable pub run_actions : List (VariableAction Real) → O
  unfolding run_action
  run_actions [] = pure tt
  run_actions (a ∷ more) = do run_action a; run_actions more

  unfoldable pub step_commencing : O
  unfolding run_actions
  step_commencing s = (do run_actions s.actions; modify (λ t. record t { actions = [] })) s

  unfoldable pub add_action : ℕ → ℕ → VariableType → ActionModifier Real → O
  unfolding variable_is_input
  add_action i r t m = do
    b ← (λ s. (variable_is_input Real zero_real ops i r t s.simulators s.world, s))
    modify (λ s. record s {
      actions =
          s.actions ++ record { simulator = i; variable = r; modifier = m; is_input = b } ∷ [];
    })

  unfoldable pub override_real_variable : ℕ → ℕ → Real → O
  override_real_variable i r v = add_action i r real (real_modifier (some (λ original dt. v)))

  unfoldable pub override_integer_variable : ℕ → ℕ → ℤ → O
  override_integer_variable i r v =
      add_action i r integer (integer_modifier (some (λ original dt. v)))

  unfoldable pub override_boolean_variable : ℕ → ℕ → Bool → O
  override_boolean_variable i r v =
      add_action i r boolean (boolean_modifier (some (λ original dt. v)))

  unfoldable pub override_string_variable : ℕ → ℕ → Text → O
  override_string_variable i r v = add_action i r string (string_modifier (some (λ original dt. v)))

  unfoldable pub reset_variable : ℕ → VariableType → ℕ → O
  reset_variable i real r = add_action i r real (real_modifier none)
  reset_variable i integer r = add_action i r integer (integer_modifier none)
  reset_variable i boolean r = add_action i r boolean (boolean_modifier none)
  reset_variable i string r = add_action i r string (string_modifier none)
  reset_variable i enumeration r = throw terminated

-- ===== src/Manipulator/Actions.antt =====
-- include/cosim/scenario.hpp, and what an action does to a simulator. The simulators are those of
-- Simulator/Slave, in a store that the manipulators and the execution share; a `manipulable*` is a
-- position in the store, or none for a null pointer.
use libcosim.Base.{ℕ, Bool, List, Option, none, some, if◌then◌else◌, get_elem?, set}
use libcosim.Base.Int.{ℤ}
use libcosim.Base.Outcome.{err, undefined}
use libcosim.Base.Method.{Method, ◌>>◌}
use libcosim.Model.{real, integer, boolean, string, Text}
use libcosim.Simulator.GetCache.{Modifier}
use libcosim.Simulator.Impl.{SlaveOps}
use libcosim.Simulator.Slave.{SlaveSimulator, S, expose_for_getting, expose_for_setting}
use libcosim.Simulator.Variables.{
  set_real_input_modifier, set_integer_input_modifier, set_boolean_input_modifier,
  set_string_input_modifier, set_real_output_modifier, set_integer_output_modifier,
  set_boolean_output_modifier, set_string_output_modifier,
}

-- The variant of `real_modifier`, `integer_modifier`, `boolean_modifier` and `string_modifier`. No
-- function is `nullptr`.
pub data ActionModifier (Real : Type 0) : Type 0 where
  real_modifier : Option (Modifier Real) → ActionModifier Real
  integer_modifier : Option (Modifier ℤ) → ActionModifier Real
  boolean_modifier : Option (Modifier Bool) → ActionModifier Real
  string_modifier : Option (Modifier Text) → ActionModifier Real

pub record VariableAction (Real : Type 0) : Type 0 where
  pub simulator : ℕ
  pub variable : ℕ
  pub modifier : ActionModifier Real
  pub is_input : Bool

pub record Event (Real : Type 0) : Type 0 where
  pub time : ℤ
  pub action : VariableAction Real

pub record Scenario (Real : Type 0) : Type 0 where
  pub events : List (Event Real)
  pub end : Option ℤ

module _ (Real : Type 0) (zero_real : Real) (ops : SlaveOps Real) where
  abbrev pub Sim : Type 0
  Sim = SlaveSimulator Real zero_real ops

  abbrev pub M : Type 0
  M = S Real zero_real ops (Unit {0})

  -- The visitor of `execute_action`
  unfoldable pub install : ActionModifier Real → Bool → ℕ → M
  install (real_modifier f) is_input r =
      if is_input
      then (do
        expose_for_setting Real zero_real ops real r
        set_real_input_modifier Real zero_real ops r f)
      else (do
        expose_for_getting Real zero_real ops real r
        set_real_output_modifier Real zero_real ops r f)
  install (integer_modifier f) is_input r =
      if is_input
      then (do
        expose_for_setting Real zero_real ops integer r
        set_integer_input_modifier Real zero_real ops r f)
      else (do
        expose_for_getting Real zero_real ops integer r
        set_integer_output_modifier Real zero_real ops r f)
  install (boolean_modifier f) is_input r =
      if is_input
      then (do
        expose_for_setting Real zero_real ops boolean r
        set_boolean_input_modifier Real zero_real ops r f)
      else (do
        expose_for_getting Real zero_real ops boolean r
        set_boolean_output_modifier Real zero_real ops r f)
  install (string_modifier f) is_input r =
      if is_input
      then (do
        expose_for_setting Real zero_real ops string r
        set_string_input_modifier Real zero_real ops r f)
      else (do
        expose_for_getting Real zero_real ops string r
        set_string_output_modifier Real zero_real ops r f)

  unfoldable pub execute_action : VariableAction Real → M
  unfolding install
  execute_action a = install a.modifier a.is_input a.variable

  -- The visitor of `cleanup_action`
  unfoldable pub uninstall : ActionModifier Real → Bool → ℕ → M
  uninstall (real_modifier f) is_input r =
      if is_input
      then set_real_input_modifier Real zero_real ops r none
      else set_real_output_modifier Real zero_real ops r none
  uninstall (integer_modifier f) is_input r =
      if is_input
      then set_integer_input_modifier Real zero_real ops r none
      else set_integer_output_modifier Real zero_real ops r none
  uninstall (boolean_modifier f) is_input r =
      if is_input
      then set_boolean_input_modifier Real zero_real ops r none
      else set_boolean_output_modifier Real zero_real ops r none
  uninstall (string_modifier f) is_input r =
      if is_input
      then set_string_input_modifier Real zero_real ops r none
      else set_string_output_modifier Real zero_real ops r none

  unfoldable pub cleanup_action : VariableAction Real → M
  unfolding uninstall
  cleanup_action a = uninstall a.modifier a.is_input a.variable

  -- A call through a pointer; through a null pointer it has no meaning.
  unfoldable pub on_sim : {A : Type 0} → Option ℕ → S Real zero_real ops A → Method (List Sim) A
  on_sim none m w = (err undefined, w)
  on_sim (some p) m w = elim (get_elem? w p) [
    | none ↦ (err undefined, w)
    | some s ↦ let r = m s in (r.0, set w p r.1)
  ]

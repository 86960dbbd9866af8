-- ===== src/Simulator/Variables.antt =====
-- The variables of a `slave_simulator`: its methods that read and set them, type by type, and those
-- that set modifiers of them.
use libcosim.Base.{ℕ, Bool, List, Option, ite}
use libcosim.Base.Int.{ℤ}
use libcosim.Base.Outcome.{Outcome, ok, err, terminated}
use libcosim.Model.{ModelDescription, Text}
use libcosim.Simulator.GetCache.{Modifier}
use libcosim.Simulator.Impl.{
  SlaveOps, get_value, set_value, set_input_modifier, set_output_modifier,
}
use libcosim.Simulator.Slave.{
  SlaveState-discrete, error, SlaveSimulator, S, on_reals, on_integers, on_booleans, on_strings,
}

module _ (Real : Type 0) (zero_real : Real) (ops : SlaveOps Real) where
  abbrev Sim : Type 0
  Sim = SlaveSimulator Real zero_real ops

  abbrev M : Type 0
  M = S Real zero_real ops (Unit {0})

  unfoldable pub model_description : Sim → Outcome (ModelDescription Real)
  model_description s = ite (SlaveState-discrete s.state error) (err terminated) (ok s.description)

  unfoldable pub get_real : ℕ → Sim → Outcome Real
  get_real r s = get_value r s.reals

  unfoldable pub get_integer : ℕ → Sim → Outcome ℤ
  get_integer r s = get_value r s.integers

  unfoldable pub get_boolean : ℕ → Sim → Outcome Bool
  get_boolean r s = get_value r s.booleans

  unfoldable pub get_string : ℕ → Sim → Outcome Text
  get_string r s = get_value r s.strings

  unfoldable pub set_real : ℕ → Real → M
  set_real r v = on_reals Real zero_real ops (set_value r v)

  unfoldable pub set_integer : ℕ → ℤ → M
  set_integer r v = on_integers Real zero_real ops (set_value r v)

  unfoldable pub set_boolean : ℕ → Bool → M
  set_boolean r v = on_booleans Real zero_real ops (set_value r v)

  unfoldable pub set_string : ℕ → Text → M
  set_string r v = on_strings Real zero_real ops (set_value r v)

  unfoldable pub set_real_input_modifier : ℕ → Option (Modifier Real) → M
  set_real_input_modifier r m = on_reals Real zero_real ops (set_input_modifier r m)

  unfoldable pub set_integer_input_modifier : ℕ → Option (Modifier ℤ) → M
  set_integer_input_modifier r m = on_integers Real zero_real ops (set_input_modifier r m)

  unfoldable pub set_boolean_input_modifier : ℕ → Option (Modifier Bool) → M
  set_boolean_input_modifier r m = on_booleans Real zero_real ops (set_input_modifier r m)

  unfoldable pub set_string_input_modifier : ℕ → Option (Modifier Text) → M
  set_string_input_modifier r m = on_strings Real zero_real ops (set_input_modifier r m)

  unfoldable pub set_real_output_modifier : ℕ → Option (Modifier Real) → M
  set_real_output_modifier r m = on_reals Real zero_real ops (set_output_modifier r m)

  unfoldable pub set_integer_output_modifier : ℕ → Option (Modifier ℤ) → M
  set_integer_output_modifier r m = on_integers Real zero_real ops (set_output_modifier r m)

  unfoldable pub set_boolean_output_modifier : ℕ → Option (Modifier Bool) → M
  set_boolean_output_modifier r m = on_booleans Real zero_real ops (set_output_modifier r m)

  unfoldable pub set_string_output_modifier : ℕ → Option (Modifier Text) → M
  set_string_output_modifier r m = on_strings Real zero_real ops (set_output_modifier r m)

  unfoldable pub get_modified_real_variables : Sim → List ℕ
  get_modified_real_variables s = s.reals.modified

  unfoldable pub get_modified_integer_variables : Sim → List ℕ
  get_modified_integer_variables s = s.integers.modified

  unfoldable pub get_modified_boolean_variables : Sim → List ℕ
  get_modified_boolean_variables s = s.booleans.modified

  unfoldable pub get_modified_string_variables : Sim → List ℕ
  get_modified_string_variables s = s.strings.modified

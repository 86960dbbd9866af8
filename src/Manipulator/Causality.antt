-- ===== src/Manipulator/Causality.antt =====
-- src/cosim/manipulator/override_manipulator.cpp: whether a variable can be changed, and as what.
use libcosim.Base.{ℕ, Bool, true, false, List, [], ◌∷◌, Option, ite, ℕ_discrete}
use libcosim.Base.Outcome.{Outcome, ok, err, invalid_argument, out_of_range, of_option, ◌>>=◌}
use libcosim.Base.Assoc.{find}
use libcosim.Model.{
  VariableType, VariableType-discrete, Causality, parameter, calculated_parameter, input, output,
  local, VariableDescription,
}
use libcosim.Simulator.Impl.{SlaveOps}
use libcosim.Simulator.Variables.{model_description}
use libcosim.Manipulator.Actions.{Sim, on_sim}

module _ {Real : Type 0} where
  -- `find_variable_causality`
  unfoldable pub find_variable_causality :
      List (VariableDescription Real) → VariableType → ℕ → Outcome Causality
  find_variable_causality [] t r = err invalid_argument
  find_variable_causality (vd ∷ vs) t r =
      let rest = find_variable_causality vs t r in
      ite (ℕ_discrete vd.reference r) (ite (VariableType-discrete vd.type t) (ok vd.causality) rest)
        rest

unfoldable pub is_input : Causality → Outcome Bool
is_input input = ok true
is_input parameter = ok true
is_input calculated_parameter = ok false
is_input output = ok false
is_input local = err invalid_argument

module _ (Real : Type 0) (zero_real : Real) (ops : SlaveOps Real) where
  -- The causality of the variable, from the model description of the simulator
  unfoldable pub variable_is_input :
      ℕ → ℕ → VariableType → List (ℕ × Option ℕ) → List (Sim Real zero_real ops) → Outcome Bool
  variable_is_input i r t simulators world = do
    sim ← of_option out_of_range (find ℕ_discrete i simulators)
    md ← (on_sim Real zero_real ops sim (λ m. (model_description Real zero_real ops m, m)) world).0
    c ← find_variable_causality md.variables t r
    is_input c

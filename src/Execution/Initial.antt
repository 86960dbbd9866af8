-- ===== src/Execution/Initial.antt =====
-- Initial values are refused once a step has returned.
use libcosim.Base.{ℕ, Bool, true, ◌≡◌, refl, ap}
use libcosim.Base.Int.{ℤ}
use libcosim.Base.Outcome.{ok, err, unsupported_feature}
use libcosim.Model.{Text}
use libcosim.Execution.Defs.{Parts, Execution}
use libcosim.Execution.Step.{
  step, set_real_initial_value, set_integer_initial_value, set_boolean_initial_value,
  set_string_initial_value,
}
use libcosim.Execution.Steps.{step_ok}

module _ {Real : Type 0} (parts : Parts Real) where
  refused :
      (f : Execution parts) (i r : ℕ) (x : Real) (n : ℤ) (b : Bool) (s : Text)
      → f.initialized ≡ true
      → (set_real_initial_value parts i r x f ≡ (err unsupported_feature, f))
        × (set_integer_initial_value parts i r n f ≡ (err unsupported_feature, f))
        × (set_boolean_initial_value parts i r b f ≡ (err unsupported_feature, f))
        × (set_string_initial_value parts i r s f ≡ (err unsupported_feature, f))
  unfolding set_real_initial_value set_integer_initial_value set_boolean_initial_value
      set_string_initial_value
  refused f i r x n b s h = rw (h) (refl, refl, refl, refl)

  -- After a step that returned, each of the four functions for initial values throws
  -- `unsupported_feature` and changes nothing, whatever its arguments.
  pub set_initial_value-step :
      (e : Execution parts) {d : ℤ} (i r : ℕ) (x : Real) (n : ℤ) (b : Bool) (s : Text)
      → (step parts e).0 ≡ ok d
      → (let f : Execution parts = (step parts e).1 in
          (set_real_initial_value parts i r x f ≡ (err unsupported_feature, f))
          × (set_integer_initial_value parts i r n f ≡ (err unsupported_feature, f))
          × (set_boolean_initial_value parts i r b f ≡ (err unsupported_feature, f))
          × (set_string_initial_value parts i r s f ≡ (err unsupported_feature, f)))
  set_initial_value-step e i r x n b s h =
      let (w, p) = step_ok parts e h in
      refused (step parts e).1 i r x n b s (ap (λ (y : Execution parts). y.initialized) p)

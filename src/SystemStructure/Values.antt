-- ===== src/SystemStructure/Values.antt =====
-- Values for variables: `add_variable_value`.
use libcosim.Base.{true, false, List, ◌≡◌, ◌≢◌, some, ite}
use libcosim.Base.Outcome.{guard-true, ok_cancel, ok, invalid_system_structure, guard, >>=-eq-ok}
use libcosim.Base.Assoc.{find, find-assign_self, find-assign_ne}
use libcosim.Model.{VariableType, VariableType-discrete, Scalar, VariableDescription}
use libcosim.SystemStructure.Defs.{
  FullVariableName, FullVariableName-discrete, SystemStructure, same_type, value_type,
  is_valid_variable_value,
}
use libcosim.SystemStructure.Operations.{get_variable_description, add_variable_value}

same_type-eq : (s t : VariableType) → same_type s t ≡ true → s ≡ t
same_type-eq s t h = go (VariableType-discrete s t) h
  where
    go : (d : Dec (s ≡ t)) → ite d true false ≡ true → s ≡ t
    go (yes e) h = e
    go (no n) h = cc

module _ {Real : Type 0} where
  -- A value that is accepted is of the type that the variable of its name is declared with. It is the
  -- one that is found under that name, and every other name keeps its value.
  pub add_variable_value_lem :
      (values : List (FullVariableName × Scalar Real)) (s : SystemStructure Real)
      (v other : FullVariableName) (x : Scalar Real) {r : List (FullVariableName × Scalar Real)}
      → add_variable_value values s v x ≡ ok r
      → v ≢ other
      → (find FullVariableName-discrete v r ≡ some x)
        × (find FullVariableName-discrete other r ≡ find FullVariableName-discrete other values)
        × ((d : VariableDescription Real) × (get_variable_description s v ≡ ok d)
            × (value_type x ≡ d.type))
  unfolding add_variable_value is_valid_variable_value
  add_variable_value_lem values s v other x h n =
      let (d, e, h₁) = >>=-eq-ok (get_variable_description s v) _ h in
      let (_, valid, h₂) =
        >>=-eq-ok (guard (is_valid_variable_value d x) invalid_system_structure) _ h₁ in
      rw (← ok_cancel h₂) (
        find-assign_self FullVariableName-discrete v x values,
        find-assign_ne FullVariableName-discrete v other x values n,
        (
          d,
          e,
          same_type-eq (value_type x) d.type
              (guard-true (is_valid_variable_value d x) invalid_system_structure valid),
        ),
      )

-- ===== src/Tests/Systems.antt =====
-- A system of two simulators of one model and a sum of vectors.
use libcosim.Base.{
  ℕ_discrete, ℕ, zero, suc, true, false, List, [], ◌∷◌, some, ◌≡◌, ◌≢◌, refl, sym, ap, ◌⊎◌,
  get_elem?, arith,
}
use libcosim.Base.Positions.{some_cancel}
use libcosim.Base.Int.{pos}
use libcosim.Base.Outcome.{Failure, ok, err, out_of_range}
use libcosim.Base.Assoc.{emplace, contains, assign, find}
use libcosim.Model.{
  VariableType-discrete, real, input, output, calculated_parameter, Text, Scalar, real_value,
  VariableDescription,
}
use libcosim.Algorithm.Defs.{VariableId}
use libcosim.Execution.Defs.{validate_variable}
use libcosim.SystemStructure.Defs.{
  is_simulator_variable, is_valid_variable_value, Text-discrete, FullVariableName,
  FullVariableName-discrete, model, Entity, SystemStructure, make_variable_lookup_table,
  model_table, value_type, is_valid_ss,
}
use libcosim.SystemStructure.Operations.{
  empty, add_entity, cache_entity, cache_model, enter, connect_variables, is_valid, is_valid_as,
  get_variable_description, variable_in, add_variable_value,
}
use libcosim.SystemStructure.Invariant.{
  IsWellFormed, start, adding, connecting, Built-IsWellFormed, connect_variables_lem,
}
use libcosim.SystemStructure.Values.{add_variable_value_lem}
use libcosim.SystemStructure.Compose.{validate_variable-is_valid_ss}
use libcosim.Tests.Executions.{a_variable, a_model, hundreds, X, running}

abbrev entity : Text → Entity ℕ
entity name = record {
  name = name;
  type = model a_model;
  step_size_hint = pos 0;
  parameter_values = [];
}

abbrev one : SystemStructure ℕ
one = record {
  entities = (b'a' ∷ [], entity (b'a' ∷ [])) ∷ [];
  connections = [];
  model_cache = (b'1' ∷ [], (b'y' ∷ [], a_variable 0) ∷ (b'u' ∷ [], a_variable 1) ∷ []) ∷ [];
  function_cache = [];
}

abbrev pub two : SystemStructure ℕ
two = record one {
  entities = (b'a' ∷ [], entity (b'a' ∷ [])) ∷ (b'b' ∷ [], entity (b'b' ∷ [])) ∷ [];
}

abbrev variable_of : Text → Text → FullVariableName
variable_of e v = record {
  entity_name = e;
  variable_group_name = [];
  variable_group_instance = 0;
  variable_name = v;
  variable_instance = 0;
}

abbrev a_y : FullVariableName
a_y = variable_of (b'a' ∷ []) (b'y' ∷ [])

abbrev b_y : FullVariableName
b_y = variable_of (b'b' ∷ []) (b'y' ∷ [])

abbrev pub b_u : FullVariableName
b_u = variable_of (b'b' ∷ []) (b'u' ∷ [])

abbrev pub connected : SystemStructure ℕ
connected = record two { connections = (b_u, a_y) ∷ [] }

adds_one : add_entity (entity (b'a' ∷ [])) (empty ℕ) ≡ ok one
unfolding add_entity cache_entity cache_model enter make_variable_lookup_table model_table contains
    emplace assign Text-discrete ℕ_discrete
adds_one = refl

adds_two : add_entity (entity (b'b' ∷ [])) one ≡ ok two
unfolding add_entity cache_entity cache_model enter make_variable_lookup_table model_table contains
    Text-discrete ℕ_discrete emplace
adds_two = refl

connects : connect_variables a_y b_u two ≡ ok connected
unfolding connect_variables is_valid is_valid_as is_valid_ss get_variable_description variable_in
    is_simulator_variable find Text-discrete ℕ_discrete VariableType-discrete contains emplace
connects = refl

Built-IsWellFormed_example : IsWellFormed connected
Built-IsWellFormed_example = Built-IsWellFormed connected (
    connecting a_y b_u
      (adding (entity (b'b' ∷ [])) (adding (entity (b'a' ∷ [])) start adds_one) adds_two) connects)

abbrev first : FullVariableName → ℕ
first v = elim v.variable_name [ [] ↦ 0 | c ∷ cs ↦ c ]

b_u_ne : b_u ≢ b_y
b_u_ne e = omega (arith, ap first e)

connect_variables_lem_example :
    (find FullVariableName-discrete b_u connected.connections ≡ some a_y)
    × (find FullVariableName-discrete b_y connected.connections
        ≡ find FullVariableName-discrete b_y two.connections)
    × ((x : Failure) × (connect_variables b_y b_u connected ≡ err x))
connect_variables_lem_example = connect_variables_lem a_y b_u two b_y b_y connects b_u_ne

abbrev set_values : List (FullVariableName × Scalar ℕ)
set_values = (b_u, real_value 3) ∷ []

sets : add_variable_value [] two b_u (real_value 3) ≡ ok set_values
unfolding add_variable_value get_variable_description variable_in find Text-discrete ℕ_discrete
    is_valid_variable_value VariableType-discrete assign
sets = refl

add_variable_value_lem_example :
    (find FullVariableName-discrete b_u set_values ≡ some (real_value 3))
    × (find FullVariableName-discrete b_y set_values ≡ find FullVariableName-discrete b_y [])
    × ((d : VariableDescription ℕ) × (get_variable_description two b_u ≡ ok d)
        × (value_type {Real = ℕ} (real_value 3) ≡ d.type))
add_variable_value_lem_example = add_variable_value_lem [] two b_u b_y (real_value 3) sets b_u_ne

abbrev at_start : X
at_start = running 0 (pos 0) false true 0

valid_y_u : is_valid_ss (a_variable 0) (a_variable 1) ≡ true
unfolding is_valid_ss VariableType-discrete
valid_y_u = refl

only_y :
    (n : ℕ) (v : VariableDescription ℕ)
    → get_elem? a_model.variables n ≡ some v
    → v.type ≡ (a_variable 0).type
    → v.reference ≡ (a_variable 0).reference
    → v ≡ a_variable 0
only_y zero v at t r = sym (some_cancel at)
only_y (suc zero) v at t r =
    absurd (omega (arith, ap (λ (x : VariableDescription ℕ). x.reference) (some_cancel at), r))
only_y (suc (suc n)) v at t r = cc

validate_variable-is_valid_ss_example :
    (let out : VariableId = record { simulator = 0; type = real; reference = 0 } in
      let inp : VariableId = record { simulator = 0; type = real; reference = 1 } in
      (validate_variable hundreds inp input at_start ≡ ok tt)
      × ((((a_variable 0).causality ≡ output)
            × (validate_variable hundreds out output at_start ≡ ok tt))
          ⊎ (((a_variable 0).causality ≡ calculated_parameter)
              × (validate_variable hundreds out output at_start ≡ err out_of_range))))
validate_variable-is_valid_ss_example =
    validate_variable-is_valid_ss hundreds at_start 0 0 (a_variable 0) (a_variable 1) 0 1 valid_y_u
      refl refl refl refl only_y

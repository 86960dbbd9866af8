-- ===== src/Tests/Functions.antt =====
-- Functions at concrete parameters and values.
use libcosim.Base.{ℕ, ◌+◌, List, [], ◌∷◌, ◌≡◌, refl, ℕ_discrete}
use libcosim.Base.Assoc.{find}
use libcosim.Base.Int.{ℤ, pos}
use libcosim.Base.Outcome.{ok}
use libcosim.Model.{integer}
use libcosim.Function.Description.{
  of_integer, of_type, ParameterValues, ParameterDescription, value, FunctionDescription,
}
use libcosim.Function.Substitute.{
  substitute_function_parameters, check_min, check_max, ℤ-discrete, get_function_parameter,
}
use libcosim.Function.Parameters.{GroupsConcrete, shape, substitute_function_parameters_lem}
use libcosim.Function.VectorSum.{
  VectorSum, make, calculate, get_value, vector_sum_groups, vector_sum_parameters, type_description,
  of_integers, description, instantiate_as, instantiate,
}
use libcosim.Function.Sums.{output_io, get_value-calculate}
use libcosim.Function.Instances.{description-instantiate}

-- Two inputs of three integers
abbrev values : ParameterValues ℕ
values = (pos 0, of_integer (pos 2)) ∷ (pos 1, of_type integer) ∷ (pos 2, of_integer (pos 3)) ∷ []

abbrev described : FunctionDescription
described = vector_sum_groups (value (pos 2)) (value integer) (value (pos 3))

abbrev zeros : VectorSum ℤ
zeros = record {
  inputs = (pos 0 ∷ pos 0 ∷ pos 0 ∷ []) ∷ (pos 0 ∷ pos 0 ∷ pos 0 ∷ []) ∷ [];
  output = pos 0 ∷ pos 0 ∷ pos 0 ∷ [];
}

instance_of_values : instantiate ℕ 0 values ≡ ok (of_integers zeros)
unfolding instantiate instantiate_as make get_function_parameter check_min check_max ℤ-discrete
    type_description vector_sum_parameters find ℕ_discrete
instance_of_values = refl

description-instantiate_example :
    substitute_function_parameters (type_description ℕ) values
    ≡ ok (description ℕ (of_integers zeros))
description-instantiate_example = description-instantiate 0 values instance_of_values

substituted : substitute_function_parameters (type_description ℕ) values ≡ ok described
unfolding description
substituted = description-instantiate 0 values instance_of_values

substitute_function_parameters_lem_example :
    GroupsConcrete described.io_groups
    × (shape described.io_groups ≡ shape (type_description ℕ).function.io_groups)
    × ((ps : List (ParameterDescription ℕ)) (ws : ParameterValues ℕ)
        → substitute_function_parameters (record { function = described; parameters = ps }) ws
          ≡ ok described)
substitute_function_parameters_lem_example =
    substitute_function_parameters_lem (type_description ℕ) values substituted

abbrev three : VectorSum ℕ
three = record {
  inputs = (1 ∷ 2 ∷ []) ∷ (10 ∷ 20 ∷ []) ∷ (100 ∷ 200 ∷ []) ∷ [];
  output = 0 ∷ 0 ∷ [];
}

get_value-calculate_example : get_value (output_io 1) (calculate (λ a b. a + b) three) ≡ ok 222
get_value-calculate_example = get_value-calculate (λ a b. a + b) three 1 refl

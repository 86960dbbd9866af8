-- ===== src/Function/VectorSum.antt =====
-- include/cosim/function/vector_sum.hpp and src/cosim/function/vector_sum.cpp: the sum of vectors of
-- doubles or integers. The addition of two elements is a parameter. The rows have one length.
use libcosim.Base.{
  ℕ, zero, suc, List, [], ◌∷◌, none, some, get_elem?, set, length, ◌==◌, ◌&&◌, if◌then◌else◌,
}
use libcosim.Base.Int.{ℤ, pos}
use libcosim.Base.Outcome.{
  Outcome, ok, err, out_of_range, invalid_argument, length_error, domain_error, of_option, ◌>>=◌,
}
use libcosim.Model.{VariableType, real, integer, Causality, input, output, FunctionIoReference}
use libcosim.Function.Description.{
  of_integer, of_type, integer_parameter, type_parameter, ParameterValues, ParameterDescription,
  Field, value, placeholder, IoDescription, FunctionDescription, FunctionTypeDescription,
}
use libcosim.Function.Substitute.{
  as_integer, as_type, check_integer, check_nothing, get_function_parameter,
}

pub record VectorSum (T : Type 0) : Type 0 where
  pub inputs : List (List T)
  pub output : List T

abbrev pub replicate : {T : Type 0} → ℕ → T → List T
replicate zero x = []
replicate (suc n) x = x ∷ replicate n x

-- The constructor: the vectors are made before the counts are checked.
unfoldable pub make : {T : Type 0} → T → ℤ → ℤ → Outcome (VectorSum T)
make start (pos (suc n)) (pos (suc m)) = ok (record {
  inputs = replicate (suc n) (replicate (suc m) start);
  output = replicate (suc m) start;
})
make start (pos zero) (pos m) = err invalid_argument
make start (pos (suc n)) (pos zero) = err invalid_argument
make start _ _ = err length_error

module _ {T : Type 0} where
  -- `inputs_.at(i).at(j)`
  unfoldable pub input_at : VectorSum T → ℕ → ℕ → Outcome T
  input_at f i j = do
    row ← of_option out_of_range (get_elem? f.inputs i)
    of_option out_of_range (get_elem? row j)

  unfoldable pub put_input : VectorSum T → ℕ → ℕ → T → Outcome (VectorSum T)
  put_input f i j v = do
    row ← of_option out_of_range (get_elem? f.inputs i)
    old ← of_option out_of_range (get_elem? row j)
    ok (record f { inputs = set f.inputs i (set row j v) })

  -- `set_real` of doubles and `set_integer` of integers; the other setters always throw.
  unfoldable pub set_value : FunctionIoReference → T → VectorSum T → Outcome (VectorSum T)
  unfolding put_input
  set_value r v f =
      if r.group == 0 && r.io == 0
      then put_input f r.group_instance r.io_instance v
      else err out_of_range

  -- `get_real` of doubles and `get_integer` of integers; the other getters always throw.
  unfoldable pub get_value : FunctionIoReference → VectorSum T → Outcome T
  unfolding input_at
  get_value r f =
      if r.group == 0 && r.io == 0
      then input_at f r.group_instance r.io_instance
      else if (r.group == 1 && r.group_instance == 0) && r.io == 0
      then of_option out_of_range (get_elem? f.output r.io_instance)
      else err out_of_range

module _ {T : Type 0} (add : T → T → T) where
  -- `output_[j] += inputs_[i][j]`, for all `j`
  unfoldable pub add_row : List T → List T → List T
  add_row [] row = []
  add_row (x ∷ xs) [] = x ∷ xs
  add_row (x ∷ xs) (y ∷ row) = add x y ∷ add_row xs row

  unfoldable pub add_rows : List T → List (List T) → List T
  add_rows out [] = out
  add_rows out (row ∷ rows) = add_rows (add_row out row) rows

  unfoldable pub calculate : VectorSum T → VectorSum T
  calculate f = elim f.inputs [ [] ↦ f | first ∷ rows ↦ record f { output = add_rows first rows } ]

abbrev unnamed : Field VariableType → Causality → Field ℤ → IoDescription
unnamed t c n = record { name = []; type = t; causality = c; count = n }

-- `detail::vector_sum_description`, without the parameters
unfoldable pub vector_sum_groups : Field ℤ → Field VariableType → Field ℤ → FunctionDescription
vector_sum_groups input_count numeric_type dimension = record {
  io_groups =
      record {
        name = b'i' ∷ b'n' ∷ [];
        count = input_count;
        ios = unnamed numeric_type input dimension ∷ [];
      }
      ∷ record {
        name = b'o' ∷ b'u' ∷ b't' ∷ [];
        count = value (pos 1);
        ios = unnamed numeric_type output dimension ∷ [];
      }
      ∷ [];
}

abbrev pub rows_of : {T : Type 0} → VectorSum T → Field ℤ
rows_of f = value (pos (length f.inputs))

abbrev pub columns_of : {T : Type 0} → VectorSum T → Field ℤ
columns_of f = elim f.inputs [ [] ↦ value (pos 0) | row ∷ rows ↦ value (pos (length row)) ]

module _ (Real : Type 0) where
  unfoldable pub vector_sum_parameters : List (ParameterDescription Real)
  vector_sum_parameters =
      record {
        name = b'i' ∷ b'n' ∷ b'p' ∷ b'u' ∷ b't' ∷ b'C' ∷ b'o' ∷ b'u' ∷ b'n' ∷ b't' ∷ [];
        type = integer_parameter;
        default_value = of_integer (pos 1);
        min_value = some (of_integer (pos 1));
        max_value = none;
      }
      ∷ record {
        name = b'n' ∷ b'u' ∷ b'm' ∷ b'e' ∷ b'r' ∷ b'i' ∷ b'c' ∷ b'T' ∷ b'y' ∷ b'p' ∷ b'e' ∷ [];
        type = type_parameter;
        default_value = of_type real;
        min_value = none;
        max_value = none;
      }
      ∷ record {
        name = b'd' ∷ b'i' ∷ b'm' ∷ b'e' ∷ b'n' ∷ b's' ∷ b'i' ∷ b'o' ∷ b'n' ∷ [];
        type = integer_parameter;
        default_value = of_integer (pos 1);
        min_value = some (of_integer (pos 1));
        max_value = none;
      }
      ∷ []

  -- `vector_sum_function_type::description`
  unfoldable pub type_description : FunctionTypeDescription Real
  unfolding vector_sum_groups vector_sum_parameters
  type_description = record {
    function = vector_sum_groups (placeholder (pos 0)) (placeholder (pos 1)) (placeholder (pos 2));
    parameters = vector_sum_parameters;
  }

  -- `vector_sum_function<double>` or `vector_sum_function<int>`
  pub data Instance : Type 0 where
    of_reals : VectorSum Real → Instance
    of_integers : VectorSum ℤ → Instance

  -- `vector_sum_function::description`
  unfoldable pub description : Instance → FunctionDescription
  unfolding vector_sum_groups
  description (of_reals f) = vector_sum_groups (rows_of f) (value real) (columns_of f)
  description (of_integers f) = vector_sum_groups (rows_of f) (value integer) (columns_of f)

  unfoldable pub instantiate_as : Real → VariableType → ℤ → ℤ → Outcome Instance
  instantiate_as start real n m = make start n m >>= λ f. ok (of_reals f)
  instantiate_as start integer n m = make (pos 0) n m >>= λ f. ok (of_integers f)
  instantiate_as start _ n m = err domain_error

  -- `start` is `double()`.
  unfoldable pub instantiate : Real → ParameterValues Real → Outcome Instance
  unfolding instantiate_as type_description
  instantiate start vs = do
    n ← get_function_parameter as_integer check_integer type_description vs 0
    t ← get_function_parameter as_type check_nothing type_description vs 1
    m ← get_function_parameter as_integer check_integer type_description vs 2
    instantiate_as start t n m

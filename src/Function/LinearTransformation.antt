-- ===== src/Function/LinearTransformation.antt =====
-- src/cosim/function/linear_transformation.cpp: `offset + factor * input`, over doubles. The two
-- operations of `double` are parameters.
use libcosim.Base.{[], ◌∷◌, Option, none, some, ite}
use libcosim.Base.Int.{pos}
use libcosim.Base.Outcome.{Outcome, ok, err, out_of_range, ◌>>=◌}
use libcosim.Model.{FunctionIoReference, FunctionIoReference-discrete, real, input, output}
use libcosim.Function.Description.{
  ParameterValue, of_real, ParameterValues, ParameterDescription, real_parameter, value,
  FunctionTypeDescription,
}
use libcosim.Function.Substitute.{get_function_parameter}

abbrev pub in_io_reference : FunctionIoReference
in_io_reference = record { group = 0; group_instance = 0; io = 0; io_instance = 0 }

abbrev pub out_io_reference : FunctionIoReference
out_io_reference = record { group = 1; group_instance = 0; io = 0; io_instance = 0 }

pub record Linear (Real : Type 0) : Type 0 where
  pub offset : Real
  pub factor : Real
  pub input_value : Real
  pub output_value : Real

module _ {Real : Type 0} where
  unfoldable pub make : Real → Real → Real → Linear Real
  make zero_real offset factor = record {
    offset = offset;
    factor = factor;
    input_value = zero_real;
    output_value = zero_real;
  }

  -- The setters of the other types always throw.
  unfoldable pub set_real : FunctionIoReference → Real → Linear Real → Outcome (Linear Real)
  set_real r v f =
      ite (FunctionIoReference-discrete r in_io_reference) (ok (record f { input_value = v }))
        (err out_of_range)

  -- The getters of the other types always throw.
  unfoldable pub get_real : FunctionIoReference → Linear Real → Outcome Real
  get_real r f =
      ite (FunctionIoReference-discrete r in_io_reference) (ok f.input_value) (
        ite (FunctionIoReference-discrete r out_io_reference) (ok f.output_value)
          (err out_of_range))

  unfoldable pub calculate : (Real → Real → Real) → (Real → Real → Real) → Linear Real → Linear Real
  calculate add mul f = record f { output_value = add f.offset (mul f.factor f.input_value) }

  abbrev as_real : ParameterValue Real → Option Real
  as_real (of_real x) = some x
  as_real _ = none

  -- `zero` and `one` are 0.0 and 1.0. The bounds of both parameters are empty.
  unfoldable pub linear_description : Real → Real → FunctionTypeDescription Real
  linear_description zero_real one_real = record {
    function = record {
      io_groups =
          record {
            name = b'i' ∷ b'n' ∷ [];
            count = value (pos 1);
            ios =
                record { name = []; type = value real; causality = input; count = value (pos 1) }
                ∷ [];
          }
          ∷ record {
            name = b'o' ∷ b'u' ∷ b't' ∷ [];
            count = value (pos 1);
            ios =
                record { name = []; type = value real; causality = output; count = value (pos 1) }
                ∷ [];
          }
          ∷ [];
    };
    parameters =
        record {
          name = b'o' ∷ b'f' ∷ b'f' ∷ b's' ∷ b'e' ∷ b't' ∷ [];
          type = real_parameter;
          default_value = of_real zero_real;
          min_value = none;
          max_value = none;
        }
        ∷ record {
          name = b'f' ∷ b'a' ∷ b'c' ∷ b't' ∷ b'o' ∷ b'r' ∷ [];
          type = real_parameter;
          default_value = of_real one_real;
          min_value = none;
          max_value = none;
        }
        ∷ [];
  }

  -- With no bounds to check.
  abbrev unbounded : ParameterDescription Real → Real → Outcome (Unit {0})
  unbounded d x = ok tt

  unfoldable pub instantiate : Real → Real → ParameterValues Real → Outcome (Linear Real)
  unfolding linear_description
  instantiate zero_real one_real vs = do
    offset ← get_function_parameter as_real unbounded (linear_description zero_real one_real) vs 0
    factor ← get_function_parameter as_real unbounded (linear_description zero_real one_real) vs 1
    ok (make zero_real offset factor)

-- ===== src/Function/Lines.antt =====
-- What the linear transformation gives at its output.
use libcosim.Base.{◌≡◌, refl, ite}
use libcosim.Base.Outcome.{ok_cancel, ok, err, out_of_range}
use libcosim.Model.{FunctionIoReference, FunctionIoReference-discrete}
use libcosim.Base.{ℕ_discrete}
use libcosim.Function.LinearTransformation.{
  in_io_reference, out_io_reference, Linear, set_real, get_real, calculate,
}

module _ {Real : Type 0} where
  -- Only the input can be set. After it is set and the function is calculated, the output is the offset
  -- plus the factor times the value set, and the input reads that value.
  pub get_real-calculate :
      (add mul : Real → Real → Real) (r : FunctionIoReference) (v : Real) (f : Linear Real)
      {g : Linear Real}
      → set_real r v f ≡ ok g
      → (r ≡ in_io_reference)
        × (get_real out_io_reference (calculate add mul g) ≡ ok (add f.offset (mul f.factor v)))
        × (get_real in_io_reference (calculate add mul g) ≡ ok v)
  unfolding set_real get_real calculate FunctionIoReference-discrete ℕ_discrete
  get_real-calculate add mul r v f {g} h = go (FunctionIoReference-discrete r in_io_reference) h
    where
      go :
          (d : Dec (r ≡ in_io_reference))
          → ite d (ok (record f { input_value = v })) (err out_of_range) ≡ ok g
          → (r ≡ in_io_reference)
            × (get_real out_io_reference (calculate add mul g) ≡ ok (add f.offset (mul f.factor v)))
            × (get_real in_io_reference (calculate add mul g) ≡ ok v)
      go (yes p) k = rw (← ok_cancel k) (p, refl, refl)
      go (no n) k = cc

-- ===== src/Function/Instances.antt =====
-- A sum of vectors describes itself as its type does for the parameters that it was made of.
use libcosim.Base.{
  ℕ, zero, suc, List, Option, none, some, ◌≡◌, refl, sym, ap, ◌∙◌, get_elem?, length,
}
use libcosim.Base.Int.{ℤ, pos, negsuc}
use libcosim.Base.Outcome.{
  ok_cancel, Outcome, ok, out_of_range, bad_variant_access, logic_error, of_option, >>=-eq-ok,
  ◌>>=◌, ◌>>◌,
}
use libcosim.Base.Assoc.{find}
use libcosim.Model.{VariableType, real, integer, boolean, string, enumeration}
use libcosim.Function.Description.{
  ParameterValue, ParameterValues, ParameterDescription, Field, value, placeholder,
  FunctionTypeDescription,
}
use libcosim.Function.Substitute.{
  ℤ-discrete, as_integer, as_type, check_integer, check_nothing, parameter_at, replace_placeholder,
  substitute_io, substitute_ios, substitute_groups, substitute_function_parameters,
  get_function_parameter,
}
use libcosim.Function.VectorSum.{
  VectorSum, replicate, make, vector_sum_groups, type_description, Instance, rows_of, columns_of,
  description, instantiate_as, instantiate,
}

length-replicate : {T : Type 0} (n : ℕ) (x : T) → length (replicate n x) ≡ n
length-replicate zero x = refl
length-replicate (suc n) x = ap suc (length-replicate n x)

of_option-ok :
    {A : Type 0} (e d : _) (o : Option A) {x : A} → of_option e o ≡ ok x → of_option d o ≡ ok x
of_option-ok e d none h = cc
of_option-ok e d (some y) h = h

make-counts :
    {T : Type 0} (start : T) (n m : ℤ) {f : VectorSum T}
    → make start n m ≡ ok f
    → (rows_of f ≡ value n) × (columns_of f ≡ value m)
unfolding make
make-counts start (pos zero) (pos m) h = cc
make-counts start (pos zero) (negsuc m) h = cc
make-counts start (pos (suc n)) (pos zero) h = cc
make-counts start (pos (suc n)) (pos (suc m)) h =
    rw (← ok_cancel h, length-replicate n (replicate (suc m) start), length-replicate m start)
      (refl, refl)
make-counts start (pos (suc n)) (negsuc m) h = cc
make-counts start (negsuc n) m h = cc

module _ {Real : Type 0} where
  -- A parameter that can be read as a type replaces its placeholder, under the same checks.
  replace-get :
      {T : Type 0} (get : ParameterValue Real → Option T)
      (check : ParameterDescription Real → T → Outcome (Unit {0}))
      (f : FunctionTypeDescription Real) (vs : ParameterValues Real) (i : ℕ) {x : T}
      → get_function_parameter get check f vs i ≡ ok x
      → replace_placeholder get check vs f.parameters (placeholder (pos i)) ≡ ok x
  unfolding get_function_parameter replace_placeholder parameter_at
  replace-get get check f vs i {x} h =
      let (d, e, h₁) = >>=-eq-ok (of_option out_of_range (get_elem? f.parameters i)) _ h in
      rw (e) (go d (find ℤ-discrete (pos i) vs) h₁)
    where
      go :
          (d : ParameterDescription Real) (o : Option (ParameterValue Real))
          → elim o [
            | none ↦ of_option bad_variant_access (get d.default_value)
            | some v ↦ of_option bad_variant_access (get v) >>= λ y. check d y >> ok y
          ]
            ≡ ok x
          → elim o [
            | none ↦ of_option logic_error (get d.default_value)
            | some v ↦ of_option logic_error (get v) >>= λ y. check d y >> ok y
          ]
            ≡ ok x
      go d none k = of_option-ok bad_variant_access logic_error (get d.default_value) k
      go d (some v) k =
          let (y, e, k₁) = >>=-eq-ok (of_option bad_variant_access (get v)) _ k in
          rw (of_option-ok bad_variant_access logic_error (get v) e) k₁

  described :
      (start : Real) (t : VariableType) (n m : ℤ) {f : Instance Real}
      → instantiate_as Real start t n m ≡ ok f
      → description Real f ≡ vector_sum_groups (value n) (value t) (value m)
  unfolding instantiate_as description
  described start real n m h =
      let (f, e, k) = >>=-eq-ok (make start n m) _ h in
      let (r, c) = make-counts start n m e in rw (← ok_cancel k, r, c) refl
  described start integer n m h =
      let (f, e, k) = >>=-eq-ok (make (pos 0) n m) _ h in
      let (r, c) = make-counts (pos 0) n m e in rw (← ok_cancel k, r, c) refl
  described start boolean n m h = cc
  described start string n m h = cc
  described start enumeration n m h = cc

  replace-value :
      (vs : ParameterValues Real) (ds : List (ParameterDescription Real)) (n : ℤ)
      → replace_placeholder as_integer check_integer vs ds (value n) ≡ ok n
  unfolding replace_placeholder
  replace-value vs ds n = refl

  substituted :
      (vs : ParameterValues Real) (ds : List (ParameterDescription Real)) (a : Field ℤ)
      (b : Field VariableType) (c : Field ℤ) {n : ℤ} {t : VariableType} {m : ℤ}
      → replace_placeholder as_integer check_integer vs ds a ≡ ok n
      → replace_placeholder as_type check_nothing vs ds b ≡ ok t
      → replace_placeholder as_integer check_integer vs ds c ≡ ok m
      → substitute_function_parameters
          (record { function = vector_sum_groups a b c; parameters = ds })
          vs
        ≡ ok (vector_sum_groups (value n) (value t) (value m))
  unfolding substitute_function_parameters substitute_groups substitute_ios substitute_io
      vector_sum_groups
  substituted vs ds a b c {n} {t} {m} e u w = rw (e, u, w, replace-value vs ds (pos 1)) refl

  -- If parameters give an instance, the description of that instance is the one that substituting
  -- the same parameters in the description of the function type gives, also where parameters are left
  -- out and have their defaults.
  pub description-instantiate :
      (start : Real) (vs : ParameterValues Real) {f : Instance Real}
      → instantiate Real start vs ≡ ok f
      → substitute_function_parameters (type_description Real) vs ≡ ok (description Real f)
  unfolding instantiate type_description
  description-instantiate start vs h =
      let (n, e, h₁) =
        >>=-eq-ok (get_function_parameter as_integer check_integer (type_description Real) vs 0) _
          h in
      let (t, u, h₂) =
        >>=-eq-ok (get_function_parameter as_type check_nothing (type_description Real) vs 1) _
          h₁ in
      let (m, w, h₃) =
        >>=-eq-ok (get_function_parameter as_integer check_integer (type_description Real) vs 2) _
          h₂ in
      let f = type_description Real in
      substituted vs f.parameters (placeholder (pos 0)) (placeholder (pos 1)) (placeholder (pos 2))
        (replace-get as_integer check_integer f vs 0 e) (replace-get as_type check_nothing f vs 1 u)
        (replace-get as_integer check_integer f vs 2 w)
      ∙ ap ok (sym (described start t n m h₃))

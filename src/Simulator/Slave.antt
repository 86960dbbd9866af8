-- ===== src/Simulator/Slave.antt =====
-- `slave_simulator` and its `impl`: the methods, and the state that guards them.
pub mod States
use libcosim.Base.{
  ℕ, Bool, true, false, List, [], ◌∷◌, Option, none, some, if◌then◌else◌, ◌&&◌, ite, ◌==◌,
}
use libcosim.Base.Int.{ℤ, pos}
use libcosim.Base.Outcome.{Outcome, ok, err, out_of_range, bad_variant_access, terminated}
use libcosim.Base.Method.{Method, pure, throw, read, modify, lift, zoom, ◌>>=◌, ◌>>◌}
use libcosim.Model.{
  VariableType, real, integer, boolean, string, enumeration, VariableType-discrete, Scalar,
  real_value, integer_value, boolean_value, string_value, VariableDescription, ModelDescription,
  StepResult, Text,
}
use libcosim.Simulator.GetCache.{Modifier, GetCache}
use libcosim.Simulator.GetCache
use libcosim.Simulator.SetCache.{SetCache}
use libcosim.Simulator.SetCache
use libcosim.Simulator.Impl.{SlaveOps, Channel, modify_and_get, reset, refresh}
use libcosim.Simulator.Impl

-- `slave_state`
pub data SlaveState : Type 0 where
  created initialisation simulation error indeterminate : SlaveState

unfoldable pub SlaveState-discrete : Discrete SlaveState
SlaveState-discrete = hlevel

module _ (Real : Type 0) (zero_real : Real) (ops : SlaveOps Real) where
  -- The fields of `impl`, and `state_`.
  pub record SlaveSimulator : Type 0 where
    pub slave : ops.Handle
    pub description : ModelDescription Real
    pub reals : Channel Real
    pub integers : Channel ℤ
    pub booleans : Channel Bool
    pub strings : Channel Text
    pub state : SlaveState

  abbrev pub S : Type 0 → Type 0
  S A = Method SlaveSimulator A

  abbrev on_slave : {A : Type 0} → Method ops.Handle A → S A
  on_slave = zoom (λ s. s.slave) (λ h s. record s { slave = h })

  abbrev pub on_reals : {A : Type 0} → Method (Channel Real) A → S A
  on_reals = zoom (λ s. s.reals) (λ c s. record s { reals = c })

  abbrev pub on_integers : {A : Type 0} → Method (Channel ℤ) A → S A
  on_integers = zoom (λ s. s.integers) (λ c s. record s { integers = c })

  abbrev pub on_booleans : {A : Type 0} → Method (Channel Bool) A → S A
  on_booleans = zoom (λ s. s.booleans) (λ c s. record s { booleans = c })

  abbrev pub on_strings : {A : Type 0} → Method (Channel Text) A → S A
  on_strings = zoom (λ s. s.strings) (λ c s. record s { strings = c })

  abbrev expose_get : {T : Type 0} → T → ℕ → Method (Channel T) (Unit {0})
  expose_get start r = modify (λ c. record c { get_cache = GetCache.expose start r c.get_cache })

  unfoldable pub expose_for_getting : VariableType → ℕ → S (Unit {0})
  expose_for_getting real r = on_reals (expose_get zero_real r)
  expose_for_getting integer r = on_integers (expose_get (pos 0) r)
  expose_for_getting boolean r = on_booleans (expose_get false r)
  expose_for_getting string r = on_strings (expose_get [] r)
  expose_for_getting enumeration r = throw terminated

  -- `find_if` over the variables of the model description
  unfoldable pub find_variable :
      ℕ → VariableType → List (VariableDescription Real) → Option (VariableDescription Real)
  find_variable r t [] = none
  find_variable r t (v ∷ vs) =
      ite (VariableType-discrete v.type t)
        (if v.reference == r then some v else find_variable r t vs) (find_variable r t vs)

  abbrev start_or :
      {T : Type 0} → T → (Scalar Real → Option T) → VariableDescription Real → Outcome T
  start_or default as_type vd = elim vd.start [
    | none ↦ ok default
    | some v ↦ elim (as_type v) [ some x ↦ ok x | none ↦ err bad_variant_access ]
  ]

  -- `std::get<T>(*vd.start)`: the alternative that the type asks for, or an exception
  as_real : Scalar Real → Option Real
  as_real (real_value x) = some x
  as_real _ = none

  as_integer : Scalar Real → Option ℤ
  as_integer (integer_value x) = some x
  as_integer _ = none

  as_boolean : Scalar Real → Option Bool
  as_boolean (boolean_value x) = some x
  as_boolean _ = none

  as_string : Scalar Real → Option Text
  as_string (string_value x) = some x
  as_string _ = none

  abbrev expose_set : {T : Type 0} → ℕ → Outcome T → Method (Channel T) (Unit {0})
  expose_set r start = do
    v ← lift start
    modify (λ c. record c { set_cache = SetCache.expose r v c.set_cache })

  expose_variable : VariableType → ℕ → VariableDescription Real → S (Unit {0})
  unfolding as_real as_integer as_boolean as_string
  expose_variable real r vd = on_reals (expose_set r (start_or zero_real as_real vd))
  expose_variable integer r vd = on_integers (expose_set r (start_or (pos 0) as_integer vd))
  expose_variable boolean r vd = on_booleans (expose_set r (start_or false as_boolean vd))
  expose_variable string r vd = on_strings (expose_set r (start_or [] as_string vd))
  expose_variable enumeration r vd = throw terminated

  unfoldable pub expose_for_setting : VariableType → ℕ → S (Unit {0})
  unfolding expose_variable
  expose_for_setting t r s = elim (find_variable r t s.description.variables) [
    | none ↦ (err out_of_range, s)
    | some vd ↦ expose_variable t r vd s
  ]

  -- The four calls of `slave::set_variables`, on what the caches hold.
  unfoldable pub send : S (Unit {0})
  send s =
      (do
        on_slave (ops.set_real_variables s.reals.set_cache.references s.reals.set_cache.values)
        on_slave
            (ops.set_integer_variables s.integers.set_cache.references s.integers.set_cache.values)
        on_slave
            (ops.set_boolean_variables s.booleans.set_cache.references s.booleans.set_cache.values)
        on_slave
            (ops.set_string_variables s.strings.set_cache.references s.strings.set_cache.values))
        s

  unfoldable pub set_variables : ℤ → S (Unit {0})
  unfolding send
  set_variables dt = do
    on_reals (modify_and_get dt)
    on_integers (modify_and_get dt)
    on_booleans (modify_and_get dt)
    on_strings (modify_and_get dt)
    send
    on_reals reset
    on_integers reset
    on_booleans reset
    on_strings reset

  abbrev fetch : {A : Type 0} → (ops.Handle → List ℕ → Outcome A) → (SlaveSimulator → List ℕ) → S A
  fetch get refs s = (get s.slave (refs s), s)

  unfoldable pub get_variables : ℤ → S (Unit {0})
  get_variables dt = do
    xs ← fetch ops.get_real_variables (λ s. s.reals.get_cache.references)
    ns ← fetch ops.get_integer_variables (λ s. s.integers.get_cache.references)
    bs ← fetch ops.get_boolean_variables (λ s. s.booleans.get_cache.references)
    ts ← fetch ops.get_string_variables (λ s. s.strings.get_cache.references)
    on_reals (modify (refresh xs dt))
    on_integers (modify (refresh ns dt))
    on_booleans (modify (refresh bs dt))
    on_strings (modify (refresh ts dt))

  unfoldable pub do_iteration : S (Unit {0})
  do_iteration = do set_variables (pos 0); get_variables (pos 0)

  abbrev put_state : SlaveState → SlaveSimulator → SlaveSimulator
  put_state st s = record s { state = st }

  -- `state_guard`: the state is indeterminate during the call, then `final`, or `error` after an
  -- exception.
  unfoldable pub guarded : {A : Type 0} → SlaveState → S A → S A
  guarded final m s =
      let r = m (put_state SlaveState.indeterminate s) in
      (r.0, put_state (elim r.0 [ ok a ↦ final | err e ↦ SlaveState.error ]) r.1)

  -- `COSIM_PRECONDITION(state_ == required)`
  unfoldable pub require : {A : Type 0} → SlaveState → S A → S A
  require required m s = ite (SlaveState-discrete s.state required) (m s) (err terminated, s)

  unfoldable pub setup : ℤ → Option ℤ → Option Real → S (Unit {0})
  setup start stop tolerance =
      require created (guarded initialisation (on_slave (ops.setup start stop tolerance)))

  unfoldable pub start_simulation : S (Unit {0})
  start_simulation =
      require initialisation
        (guarded simulation (do on_slave ops.start_simulation; get_variables (pos 0)))

  unfoldable pub do_step : ℤ → ℤ → S StepResult
  do_step t dt = require simulation (
      guarded simulation
        (do set_variables dt; r ← on_slave (ops.do_step t dt); get_variables dt; pure r))

-- ===== src/Algorithm/Transfers.antt =====
-- The transfers of variables, and the calculation of functions, keep the factors positive.
use libcosim.Base.{ℕ, ◌<◌, Bool, true, false, if◌then◌else◌, List, [], ◌∷◌}
use libcosim.Base.Outcome.{Outcome, Failure}
use libcosim.Base.Method.{pure, throw}
use libcosim.Model.{VariableType, real, integer, boolean, string, enumeration}
use libcosim.Algorithm.Defs.{
  VariableId, FunctionIoId, EntityOps, Connection, SimulatorInfo, FunctionInfo, A,
}
use libcosim.Algorithm.Step.{
  from_simulator, from_function, when_due, is_due, transfer_ss_as, transfer_sf_as, transfer_fs_as,
  transfer_ss, transfer_sf, transfer_fs, transfer_outputs, calculate_function, calculate_all,
  due_functions, propagate,
}
use libcosim.Algorithm.Factors.{
  Keeps, Any, bind-Keeps, lift-Keeps, simulator_at-Keeps, function_at-Keeps, on_simulator-Keeps,
  on_function-Keeps,
}

module _ {Real : Type 0} (ops : EntityOps Real) where
  abbrev pub SimPos : SimulatorInfo ops → Type 0
  SimPos s = 0 < s.decimation_factor

  abbrev pub FunPos : FunctionInfo ops → Type 0
  FunPos f = 0 < f.decimation_factor

  pub throw-Keeps : {B : Type 0} (e : Failure) → Keeps ops {B = B} (throw e) (Any ops)
  throw-Keeps e a h = (h, λ r q. tt)

  pub pure-Keeps : {B : Type 0} (b : B) → Keeps ops (pure b) (Any ops)
  pure-Keeps b a h = (h, λ r q. tt)

  pub from_simulator-Keeps :
      {T : Type 0} (i : ℕ) (get : ops.Sim → Outcome T)
      → Keeps ops (from_simulator ops i get) (Any ops)
  from_simulator-Keeps i get =
      bind-Keeps ops SimPos (simulator_at-Keeps ops i) (λ s p. lift-Keeps ops (get s.sim))

  pub from_function-Keeps :
      {T : Type 0} (i : ℕ) (get : ops.Fun → Outcome T)
      → Keeps ops (from_function ops i get) (Any ops)
  from_function-Keeps i get =
      bind-Keeps ops FunPos (function_at-Keeps ops i) (λ f p. lift-Keeps ops (get f.fun))

  pub transfer_ss_as-Keeps :
      (t : VariableType) (s : VariableId) (d : VariableId)
      → Keeps ops (transfer_ss_as ops t s d) (Any ops)
  unfolding transfer_ss_as
  transfer_ss_as-Keeps real s d =
      bind-Keeps ops (Any ops) (from_simulator-Keeps s.simulator _)
        (λ v q. on_simulator-Keeps ops d.simulator _)
  transfer_ss_as-Keeps integer s d =
      bind-Keeps ops (Any ops) (from_simulator-Keeps s.simulator _)
        (λ v q. on_simulator-Keeps ops d.simulator _)
  transfer_ss_as-Keeps boolean s d =
      bind-Keeps ops (Any ops) (from_simulator-Keeps s.simulator _)
        (λ v q. on_simulator-Keeps ops d.simulator _)
  transfer_ss_as-Keeps string s d =
      bind-Keeps ops (Any ops) (from_simulator-Keeps s.simulator _)
        (λ v q. on_simulator-Keeps ops d.simulator _)
  transfer_ss_as-Keeps enumeration s d = throw-Keeps _

  pub transfer_sf_as-Keeps :
      (t : VariableType) (s : VariableId) (d : FunctionIoId)
      → Keeps ops (transfer_sf_as ops t s d) (Any ops)
  unfolding transfer_sf_as
  transfer_sf_as-Keeps real s d =
      bind-Keeps ops (Any ops) (from_simulator-Keeps s.simulator _)
        (λ v q. on_function-Keeps ops d.function _)
  transfer_sf_as-Keeps integer s d =
      bind-Keeps ops (Any ops) (from_simulator-Keeps s.simulator _)
        (λ v q. on_function-Keeps ops d.function _)
  transfer_sf_as-Keeps boolean s d =
      bind-Keeps ops (Any ops) (from_simulator-Keeps s.simulator _)
        (λ v q. on_function-Keeps ops d.function _)
  transfer_sf_as-Keeps string s d =
      bind-Keeps ops (Any ops) (from_simulator-Keeps s.simulator _)
        (λ v q. on_function-Keeps ops d.function _)
  transfer_sf_as-Keeps enumeration s d = throw-Keeps _

  pub transfer_fs_as-Keeps :
      (t : VariableType) (s : FunctionIoId) (d : VariableId)
      → Keeps ops (transfer_fs_as ops t s d) (Any ops)
  unfolding transfer_fs_as
  transfer_fs_as-Keeps real s d =
      bind-Keeps ops (Any ops) (from_function-Keeps s.function _)
        (λ v q. on_simulator-Keeps ops d.simulator _)
  transfer_fs_as-Keeps integer s d =
      bind-Keeps ops (Any ops) (from_function-Keeps s.function _)
        (λ v q. on_simulator-Keeps ops d.simulator _)
  transfer_fs_as-Keeps boolean s d =
      bind-Keeps ops (Any ops) (from_function-Keeps s.function _)
        (λ v q. on_simulator-Keeps ops d.simulator _)
  transfer_fs_as-Keeps string s d =
      bind-Keeps ops (Any ops) (from_function-Keeps s.function _)
        (λ v q. on_simulator-Keeps ops d.simulator _)
  transfer_fs_as-Keeps enumeration s d = throw-Keeps _

  pub when_due-Keeps :
      (x y : ℕ) {m : A ops (Unit {0})}
      → Keeps ops m (Any ops)
      → Keeps ops (when_due ops x y m) (Any ops)
  when_due-Keeps x y {m} hm a h =
      bind-Keeps ops (Any ops) (lift-Keeps ops (is_due a.step_counter x y))
        (λ due u. if_due-Keeps due) a h
    where
      if_due-Keeps : (due : Bool) → Keeps ops (if due then m else pure tt) (Any ops)
      if_due-Keeps true = hm
      if_due-Keeps false = pure-Keeps tt

  pub transfer_ss-Keeps :
      (cs : List (Connection VariableId VariableId)) → Keeps ops (transfer_ss ops cs) (Any ops)
  unfolding transfer_ss
  transfer_ss-Keeps [] = pure-Keeps tt
  transfer_ss-Keeps (c ∷ cs) =
      bind-Keeps ops SimPos (simulator_at-Keeps ops c.source.simulator) (λ s p.
        bind-Keeps ops SimPos (simulator_at-Keeps ops c.target.simulator) (λ t q.
          bind-Keeps ops (Any ops)
            (when_due-Keeps s.decimation_factor t.decimation_factor
              (transfer_ss_as-Keeps c.target.type c.source c.target))
            (λ u r. transfer_ss-Keeps cs)))

  pub transfer_sf-Keeps :
      (cs : List (Connection VariableId FunctionIoId)) → Keeps ops (transfer_sf ops cs) (Any ops)
  unfolding transfer_sf
  transfer_sf-Keeps [] = pure-Keeps tt
  transfer_sf-Keeps (c ∷ cs) =
      bind-Keeps ops SimPos (simulator_at-Keeps ops c.source.simulator) (λ s p.
        bind-Keeps ops FunPos (function_at-Keeps ops c.target.function) (λ t q.
          bind-Keeps ops (Any ops)
            (when_due-Keeps s.decimation_factor t.decimation_factor
              (transfer_sf_as-Keeps c.target.type c.source c.target))
            (λ u r. transfer_sf-Keeps cs)))

  pub transfer_fs-Keeps :
      (cs : List (Connection FunctionIoId VariableId)) → Keeps ops (transfer_fs ops cs) (Any ops)
  unfolding transfer_fs
  transfer_fs-Keeps [] = pure-Keeps tt
  transfer_fs-Keeps (c ∷ cs) =
      bind-Keeps ops FunPos (function_at-Keeps ops c.source.function) (λ s p.
        bind-Keeps ops SimPos (simulator_at-Keeps ops c.target.simulator) (λ t q.
          bind-Keeps ops (Any ops)
            (when_due-Keeps s.decimation_factor t.decimation_factor
              (transfer_fs_as-Keeps c.target.type c.source c.target))
            (λ u r. transfer_fs-Keeps cs)))

  pub transfer_outputs-Keeps : (is : List ℕ) → Keeps ops (transfer_outputs ops is) (Any ops)
  unfolding transfer_outputs
  transfer_outputs-Keeps [] = pure-Keeps tt
  transfer_outputs-Keeps (i ∷ is) = bind-Keeps ops SimPos (simulator_at-Keeps ops i) (λ s p.
      bind-Keeps ops (Any ops) (transfer_ss-Keeps s.outgoing_sim) (λ u q.
        bind-Keeps ops (Any ops) (transfer_sf-Keeps s.outgoing_fun)
          (λ v r. transfer_outputs-Keeps is)))

  pub calculate_function-Keeps : (i : ℕ) → Keeps ops (calculate_function ops i) (Any ops)
  unfolding calculate_function
  calculate_function-Keeps i =
      bind-Keeps ops (Any ops) (on_function-Keeps ops i ops.calculate) (λ u p.
        bind-Keeps ops FunPos (function_at-Keeps ops i) (λ f q. transfer_fs-Keeps f.outgoing_sim))

  pub calculate_all-Keeps : (is : List ℕ) → Keeps ops (calculate_all ops is) (Any ops)
  unfolding calculate_all
  calculate_all-Keeps [] = pure-Keeps tt
  calculate_all-Keeps (i ∷ is) =
      bind-Keeps ops (Any ops) (calculate_function-Keeps i) (λ u p. calculate_all-Keeps is)

  pub propagate-Keeps : (finished : List ℕ) → Keeps ops (propagate ops finished) (Any ops)
  unfolding propagate
  propagate-Keeps finished =
      bind-Keeps ops (Any ops) (transfer_outputs-Keeps finished)
        (λ u p a h. calculate_all-Keeps (due_functions ops a.step_counter a.functions) a h)

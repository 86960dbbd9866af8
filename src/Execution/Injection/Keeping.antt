-- ===== src/Execution/Injection/Keeping.antt =====
-- Connecting variables and setting initial values leave the simulators and the functions of an
-- execution as they are.
use libcosim.Base.{
  ℕ, Bool, true, false, not, List, [], ◌∷◌, ◌≡◌, refl, sym, ◌∙◌, if◌then◌else◌, get_elem?, length,
  ◌≤◌, arith,
}
use mathlib.Core.Path.{subst}
use libcosim.Base.Positions.{none-ne-some}
use libcosim.Base.Outcome.{
  Outcome, unsupported_feature, out_of_range, invalid_system_structure, logic_error, guard,
  of_option,
}
use libcosim.Base.Method.{Method, >>=-ends, ◌>>=◌, pure, throw, lift}
use libcosim.Base.Assoc.{find, contains, emplace}
use libcosim.Model.{
  input, output, VariableType, real, integer, boolean, string, Scalar, real_value, integer_value,
  boolean_value, string_value, ModelDescription, Text,
}
use libcosim.Function.Description.{ParameterValues, FunctionTypeDescription}
use libcosim.Algorithm.Defs.{VariableId, VariableId-discrete, FunctionIoId, FunctionIoId-discrete}
use libcosim.SystemStructure.Defs.{
  Text-discrete, FullVariableName, is_simulator_variable, SystemStructure,
}
use libcosim.SystemStructure.Operations.{get_variable_description}
use libcosim.Execution.Defs.{
  Parts, Execution, E, call, checked, connect_variables_impl, connect_variables_ss,
  connect_variables_sf, connect_variables_fs, validate_variable, validate_function_io,
}
use libcosim.Execution.Step.{
  initial_value, set_real_initial_value, set_integer_initial_value, set_boolean_initial_value,
  set_string_initial_value,
}
use libcosim.Execution.Ids.{EntityIndexMaps, make_variable_id, make_function_io_id}
use libcosim.Execution.Injection.{
  no_indexes, connect_as, inject_connections, is_settable, set_initial_value, inject_value,
  inject_values, inject_entities, inject_system_structure,
}
use libcosim.Execution.Injection.Indexes.{AreIndexes, AreGiven, Given, inject_entities-Given}

module _ {Real : Type 0} (parts : Parts Real) where
  abbrev X : Type 0
  X = Execution parts

  abbrev Same : X → X → Type 0
  Same e f = (f.simulators ≡ e.simulators) × (f.functions ≡ e.functions)

  abbrev Keeps : {A : Type 0} → E parts A → Type 0
  Keeps m = (e : X) → Same e (m e).1

  >>=-Keeps :
      {A B : Type 0} (m : E parts A) (f : A → E parts B)
      → Keeps m
      → ((a : A) → Keeps (f a))
      → Keeps (m >>= f)
  >>=-Keeps m f h k e =
      >>=-ends m f e (λ o t. Same e t) (λ o t. Same e t) (h e)
        (λ a t s. let r = k a t in (r.0 ∙ s.0, r.1 ∙ s.1)) (λ x t s. s)

  call-Keeps : {B : Type 0} (m : Method parts.World B) → Keeps (call parts m)
  call-Keeps m e = (refl, refl)

  if-Keeps :
      {A : Type 0} (b : Bool) (m n : E parts A) → Keeps m → Keeps n → Keeps (if b then m else n)
  if-Keeps true m n h k = h
  if-Keeps false m n h k = k

  connect_variables_impl-Keeps :
      {Source Target : Type 0} (d : Discrete Target) (get : X → List (Target × Source))
      (put : List (Target × Source) → X → X) (v : Source → X → Outcome (Unit {0}))
      (w : Target → X → Outcome (Unit {0}))
      (connect : Source → Target → Method parts.World (Unit {0}))
      → ((l : List (Target × Source)) (e : X) → Same e (put l e))
      → (s : Source) (t : Target) → Keeps (connect_variables_impl parts d get put v w connect s t)
  unfolding connect_variables_impl
  connect_variables_impl-Keeps d get put v w connect puts s t =
      >>=-Keeps (checked parts (v s)) _ (λ e. (refl, refl))
        (λ _.
          >>=-Keeps (checked parts (w t)) _ (λ e. (refl, refl))
            (λ _.
              >>=-Keeps (checked parts (λ e. guard (not (contains d t (get e))) logic_error)) _
                (λ e. (refl, refl))
                (λ _.
                  >>=-Keeps (call parts (connect s t)) _ (call-Keeps (connect s t))
                    (λ _ e. puts (emplace d t s (get e)) e))))

  connect_variables_ss-Keeps : (v w : VariableId) → Keeps (connect_variables_ss parts v w)
  unfolding connect_variables_ss
  connect_variables_ss-Keeps v w =
      connect_variables_impl-Keeps VariableId-discrete (λ e. e.ss_connections)
        (λ m e. record e { ss_connections = m }) (λ v. validate_variable parts v output)
        (λ v. validate_variable parts v input) parts.connect_ss (λ l e. (refl, refl)) v w

  connect_variables_sf-Keeps :
      (v : VariableId) (w : FunctionIoId) → Keeps (connect_variables_sf parts v w)
  unfolding connect_variables_sf
  connect_variables_sf-Keeps v w =
      connect_variables_impl-Keeps FunctionIoId-discrete (λ e. e.sf_connections)
        (λ m e. record e { sf_connections = m }) (λ v. validate_variable parts v output)
        (λ v. validate_function_io parts v input) parts.connect_sf (λ l e. (refl, refl)) v w

  connect_variables_fs-Keeps :
      (v : FunctionIoId) (w : VariableId) → Keeps (connect_variables_fs parts v w)
  unfolding connect_variables_fs
  connect_variables_fs-Keeps v w =
      connect_variables_impl-Keeps VariableId-discrete (λ e. e.fs_connections)
        (λ m e. record e { fs_connections = m }) (λ v. validate_function_io parts v output)
        (λ v. validate_variable parts v input) parts.connect_fs (λ l e. (refl, refl)) v w

  two-Keeps :
      {A B : Type 0} (a : Outcome A) (b : Outcome B) (f : A → B → E parts (Unit {0}))
      → ((x : A) (y : B) → Keeps (f x y))
      → Keeps (lift a >>= λ x. lift b >>= λ y. f x y)
  two-Keeps a b f h =
      >>=-Keeps (lift a) _ (λ e. (refl, refl)) (λ x. >>=-Keeps (lift b) _ (λ e. (refl, refl)) (h x))

  connect_as-Keeps :
      (a b : Bool) (sys : SystemStructure Real) (maps : EntityIndexMaps) (s t : FullVariableName)
      → Keeps (connect_as parts a b sys maps s t)
  unfolding connect_as
  connect_as-Keeps true true sys maps s t =
      two-Keeps (make_variable_id sys maps s) (make_variable_id sys maps t)
        (connect_variables_ss parts) connect_variables_ss-Keeps
  connect_as-Keeps true false sys maps s t =
      two-Keeps (make_variable_id sys maps s) (make_function_io_id sys maps t)
        (connect_variables_sf parts) connect_variables_sf-Keeps
  connect_as-Keeps false b sys maps s t =
      two-Keeps (make_function_io_id sys maps s) (make_variable_id sys maps t)
        (connect_variables_fs parts) connect_variables_fs-Keeps

  inject_connections-Keeps :
      (sys : SystemStructure Real) (maps : EntityIndexMaps)
      (l : List (FullVariableName × FullVariableName))
      → Keeps (inject_connections parts sys maps l)
  unfolding inject_connections
  inject_connections-Keeps sys maps [] = λ e. (refl, refl)
  inject_connections-Keeps sys maps ((t, s) ∷ l) =
      >>=-Keeps (connect_as parts (is_simulator_variable s) (is_simulator_variable t) sys maps s t)
        _ (connect_as-Keeps (is_simulator_variable s) (is_simulator_variable t) sys maps s t)
        (λ _. inject_connections-Keeps sys maps l)

  initial_value-Keeps :
      (i : ℕ) (t : VariableType) (r : ℕ) (put : parts.Sim → Method parts.World (Unit {0}))
      → Keeps (initial_value parts i t r put)
  initial_value-Keeps i t r put x =
      (>>=-Keeps (if x.initialized then throw unsupported_feature else pure tt) _
          (if-Keeps x.initialized (throw unsupported_feature) (pure tt) (λ e. (refl, refl))
            (λ e. (refl, refl)))
          (λ _.
            >>=-Keeps (lift (of_option out_of_range (get_elem? x.simulators i))) _
              (λ e. (refl, refl))
              (λ s.
                >>=-Keeps (call parts (parts.expose_for_setting s t r)) _
                  (call-Keeps (parts.expose_for_setting s t r)) (λ _. call-Keeps (put s)))))
        x

  set_initial_value-Keeps : (x : Scalar Real) (i r : ℕ) → Keeps (set_initial_value parts x i r)
  unfolding set_initial_value set_real_initial_value set_integer_initial_value
      set_boolean_initial_value set_string_initial_value
  set_initial_value-Keeps (real_value x) i r =
      initial_value-Keeps i real r (λ s. parts.set_real s r x)
  set_initial_value-Keeps (integer_value x) i r =
      initial_value-Keeps i integer r (λ s. parts.set_integer s r x)
  set_initial_value-Keeps (boolean_value x) i r =
      initial_value-Keeps i boolean r (λ s. parts.set_boolean s r x)
  set_initial_value-Keeps (string_value x) i r =
      initial_value-Keeps i string r (λ s. parts.set_string s r x)

  inject_values-Keeps :
      (sys : SystemStructure Real) (maps : EntityIndexMaps)
      (l : List (FullVariableName × Scalar Real))
      → Keeps (inject_values parts sys maps l)
  unfolding inject_values inject_value
  inject_values-Keeps sys maps [] = λ e. (refl, refl)
  inject_values-Keeps sys maps ((var, val) ∷ l) =
      >>=-Keeps (inject_value parts sys maps var val) _
        (>>=-Keeps (if is_simulator_variable var then pure tt else throw invalid_system_structure) _
          (if-Keeps (is_simulator_variable var) (pure tt) (throw invalid_system_structure)
            (λ e. (refl, refl)) (λ e. (refl, refl)))
          (λ _.
            >>=-Keeps (lift (get_variable_description sys var)) _ (λ e. (refl, refl))
              (λ d.
                >>=-Keeps
                  (if is_settable d.causality then pure tt else throw invalid_system_structure) _
                  (if-Keeps (is_settable d.causality) (pure tt) (throw invalid_system_structure)
                    (λ e. (refl, refl)) (λ e. (refl, refl)))
                  (λ _.
                    >>=-Keeps
                      (lift (
                        of_option out_of_range
                          (find Text-discrete var.entity_name maps.simulators)))
                      _ (λ e. (refl, refl)) (λ i. set_initial_value-Keeps val i d.reference)))))
        (λ _. inject_values-Keeps sys maps l)

  module _ (instantiate : ModelDescription Real → Text → Method parts.World parts.Slave)
      (instantiate_function : FunctionTypeDescription Real
        → ParameterValues Real
        → Method parts.World parts.Fun) where
    moved :
        (e t f : X) (maps : EntityIndexMaps)
        → Same t f
        → AreGiven parts e maps t
        → AreGiven parts e maps f
    moved e t f maps s g = record {
      simulators =
          subst
            (λ (l : List parts.Sim). AreIndexes (length e.simulators) (length l) maps.simulators)
            (sym s.0) g.simulators;
      functions =
          subst (λ (l : List parts.Fun). AreIndexes (length e.functions) (length l) maps.functions)
            (sym s.1) g.functions;
      more_simulators =
          subst (λ (l : List parts.Sim). length e.simulators ≤ length l) (sym s.0)
            g.more_simulators;
      more_functions =
          subst (λ (l : List parts.Fun). length e.functions ≤ length l) (sym s.1) g.more_functions;
    }

    none_given : {lo hi : ℕ} → AreIndexes lo hi []
    unfolding find
    none_given = record {
      bounds = λ n i h. absurd (none-ne-some h);
      apart = λ n k i h. absurd (none-ne-some h);
    }

    -- If inject_system_structure returns, the indexes that it returns are those of simulators and of
    -- functions that it added: none is below the number of those before the call, all are below the
    -- number of those after it, and no two simulators, and no two functions, share one.
    pub inject_system_structure-AreGiven :
        (sys : SystemStructure Real) (values : List (FullVariableName × Scalar Real)) (e : X)
        → let r = inject_system_structure parts instantiate instantiate_function sys values e in
          Given parts e r.0 r.1
    unfolding inject_system_structure
    inject_system_structure-AreGiven sys values e =
        >>=-ends (inject_entities parts instantiate instantiate_function sys.entities no_indexes) _
          e (Given parts e) (Given parts e)
          (inject_entities-Given parts instantiate instantiate_function sys.entities no_indexes e e
            start)
          (λ maps t g.
            >>=-ends (inject_connections parts sys maps sys.connections) _ t (λ o u. Same t u)
              (Given parts e) (inject_connections-Keeps sys maps sys.connections t)
              (λ _ u k.
                >>=-ends (inject_values parts sys maps values) _ u (λ o v. Same u v) (Given parts e)
                  (inject_values-Keeps sys maps values u)
                  (λ _ v j. moved e u v maps j (moved e t u maps k g)) (λ x v j. tt))
              (λ x u k. tt))
          (λ x t g. tt)
      where
        start : AreGiven parts e no_indexes e
        start = record {
          simulators = none_given;
          functions = none_given;
          more_simulators = omega arith;
          more_functions = omega arith;
        }

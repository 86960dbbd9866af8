-- ===== src/Observer/Last.antt =====
-- src/cosim/observer/slave_value_provider.cpp and last_value_observer.cpp: the last values of all
-- variables of each simulator. The simulators are a parameter: `Observable` lists the virtual functions
-- that are called, and `World` is their state. A `std::unordered_map` is visited in the order of the list.
pub mod Values
use libcosim.Base.{
  ℕ, Bool, true, false, List, [], ◌∷◌, Option, none, some, if◌then◌else◌, ◌==◌, length, ℕ_discrete,
}
use libcosim.Base.Int.{ℤ, pos}
use libcosim.Base.Outcome.{
  Outcome, ok, err, out_of_range, invalid_argument, terminated, guard, of_option,
}
use libcosim.Base.Method.{Method, pure, throw, read, modify, lift, zoom, ◌>>=◌, ◌>>◌}
use libcosim.Base.Assoc.{find, assign, erase}
use libcosim.Model.{
  VariableType, real, integer, boolean, string, enumeration, VariableDescription, Text,
}

pub record Observable (Real : Type 0) : Type 1 where
  pub World : Type 0
  pub Sim : Type 0
  pub variables : Sim → World → List (VariableDescription Real)
  pub expose_for_getting : Sim → VariableType → ℕ → Method World (Unit {0})
  pub get_real : Sim → World → ℕ → Outcome Real
  pub get_integer : Sim → World → ℕ → Outcome ℤ
  pub get_boolean : Sim → World → ℕ → Outcome Bool
  pub get_string : Sim → World → ℕ → Outcome Text

module _ {T : Type 0} where
  -- `samples.at(variables[i])`, for all `i`
  unfoldable pub values_at : List (ℕ × T) → List ℕ → Outcome (List T)
  values_at samples [] = ok []
  values_at samples (r ∷ rs) = elim (find ℕ_discrete r samples) [
    | none ↦ err out_of_range
    | some v ↦ elim (values_at samples rs) [ ok vs ↦ ok (v ∷ vs) | err x ↦ err x ]
  ]

  -- The template `get`
  unfoldable pub get : List ℕ → List (ℕ × T) → Outcome (List T)
  unfolding values_at
  get rs [] = err out_of_range
  get rs (s ∷ samples) = values_at (s ∷ samples) rs

  -- `for (auto& [idx, value] : samples) value = get(idx)`
  unfoldable pub observe_values : (ℕ → Outcome T) → Method (List (ℕ × T)) (Unit {0})
  observe_values read [] = (ok tt, [])
  observe_values read ((r, old) ∷ samples) = elim (read r) [
    | err x ↦ (err x, (r, old) ∷ samples)
    | ok v ↦ let rest = observe_values read samples in (rest.0, (r, v) ∷ rest.1)
  ]

module _ {Real : Type 0} (zero_real : Real) (ops : Observable Real) where
  -- `slave_value_provider`
  pub record Provider : Type 0 where
    pub observable : ops.Sim
    pub real_samples : List (ℕ × Real)
    pub int_samples : List (ℕ × ℤ)
    pub bool_samples : List (ℕ × Bool)
    pub string_samples : List (ℕ × Text)

  abbrev no_samples : ops.Sim → Provider
  no_samples sim = record {
    observable = sim;
    real_samples = [];
    int_samples = [];
    bool_samples = [];
    string_samples = [];
  }

  unfoldable pub add_sample : VariableType → ℕ → Provider → Outcome Provider
  add_sample real r p =
      ok (record p { real_samples = assign ℕ_discrete r zero_real p.real_samples })
  add_sample integer r p = ok (record p { int_samples = assign ℕ_discrete r (pos 0) p.int_samples })
  add_sample boolean r p = ok (record p { bool_samples = assign ℕ_discrete r false p.bool_samples })
  add_sample string r p = ok (record p { string_samples = assign ℕ_discrete r [] p.string_samples })
  add_sample enumeration r p = err terminated

  unfoldable pub add_samples :
      List (VariableDescription Real) → Provider → Method ops.World Provider
  unfolding add_sample
  add_samples [] p = pure p
  add_samples (vd ∷ vs) p = do
    ops.expose_for_getting p.observable vd.type vd.reference
    q ← lift (add_sample vd.type vd.reference p)
    add_samples vs q

  -- The constructor
  unfoldable pub make_provider : ops.Sim → Method ops.World Provider
  unfolding add_samples
  make_provider sim w = add_samples (ops.variables sim w) (no_samples sim) w

  abbrev pub on_reals : Method (List (ℕ × Real)) (Unit {0}) → Method Provider (Unit {0})
  on_reals = zoom (λ p. p.real_samples) (λ m p. record p { real_samples = m })

  abbrev pub on_ints : Method (List (ℕ × ℤ)) (Unit {0}) → Method Provider (Unit {0})
  on_ints = zoom (λ p. p.int_samples) (λ m p. record p { int_samples = m })

  abbrev pub on_bools : Method (List (ℕ × Bool)) (Unit {0}) → Method Provider (Unit {0})
  on_bools = zoom (λ p. p.bool_samples) (λ m p. record p { bool_samples = m })

  abbrev pub on_strings : Method (List (ℕ × Text)) (Unit {0}) → Method Provider (Unit {0})
  on_strings = zoom (λ p. p.string_samples) (λ m p. record p { string_samples = m })

  -- The values of the simulators do not change while they are read.
  unfoldable pub observe : ops.World → Method Provider (Unit {0})
  unfolding observe_values
  observe w p =
      (do
        on_reals (observe_values (ops.get_real p.observable w))
        on_ints (observe_values (ops.get_integer p.observable w))
        on_bools (observe_values (ops.get_boolean p.observable w))
        on_strings (observe_values (ops.get_string p.observable w)))
        p

  -- `last_value_observer`
  pub record LastValueObserver : Type 0 where
    pub value_providers : List (ℕ × Provider)
    pub world : ops.World

  abbrev pub L : Type 0 → Type 0
  L = Method LastValueObserver

  unfoldable pub simulator_added : ℕ → ops.Sim → L (Unit {0})
  unfolding make_provider
  simulator_added i sim = do
    p ← zoom (λ o. o.world) (λ w o. record o { world = w }) (make_provider sim)
    modify (λ o. record o { value_providers = assign ℕ_discrete i p o.value_providers })

  unfoldable pub simulator_removed : ℕ → LastValueObserver → LastValueObserver
  simulator_removed i o = record o { value_providers = erase ℕ_discrete i o.value_providers }

  unfoldable pub observe_each : ops.World → Method (List (ℕ × Provider)) (Unit {0})
  unfolding observe
  observe_each w [] = (ok tt, [])
  observe_each w ((i, p) ∷ ps) =
      let r = observe w p in
      elim r.0 [
        | err x ↦ (err x, (i, r.1) ∷ ps)
        | ok u ↦ let rest = observe_each w ps in (rest.0, (i, r.1) ∷ rest.1)
      ]

  unfoldable pub simulation_initialized : L (Unit {0})
  unfolding observe_each
  simulation_initialized o =
      zoom (λ o. o.value_providers) (λ ps o. record o { value_providers = ps })
        (observe_each o.world) o

  unfoldable pub simulator_step_complete : ℕ → L (Unit {0})
  unfolding observe
  simulator_step_complete i o = elim (find ℕ_discrete i o.value_providers) [
    | none ↦ (err out_of_range, o)
    | some p ↦
        let r = observe o.world p in
        (r.0, record o { value_providers = assign ℕ_discrete i r.1 o.value_providers })
  ]

  -- The four getters: `size` is the size of the span for the values.
  abbrev get_as :
      {T : Type 0}
      → (Provider → List (ℕ × T))
      → ℕ
      → List ℕ
      → ℕ
      → LastValueObserver
      → Outcome (List T)
  get_as samples i rs size o = elim (length rs == size) [
    | false ↦ err invalid_argument
    | true ↦ elim (find ℕ_discrete i o.value_providers) [
      | none ↦ err out_of_range
      | some p ↦ get rs (samples p)
    ]
  ]

  unfoldable pub get_real : ℕ → List ℕ → ℕ → LastValueObserver → Outcome (List Real)
  get_real = get_as (λ p. p.real_samples)

  unfoldable pub get_integer : ℕ → List ℕ → ℕ → LastValueObserver → Outcome (List ℤ)
  get_integer = get_as (λ p. p.int_samples)

  unfoldable pub get_boolean : ℕ → List ℕ → ℕ → LastValueObserver → Outcome (List Bool)
  get_boolean = get_as (λ p. p.bool_samples)

  unfoldable pub get_string : ℕ → List ℕ → ℕ → LastValueObserver → Outcome (List Text)
  get_string = get_as (λ p. p.string_samples)

-- ===== src/Simulator/Impl.antt =====
-- `slave_simulator::impl`: a slave behind one pair of caches for each type of variable. `double`
-- and its zero are parameters, and so is the slave (an FMU): `SlaveOps` is include/cosim/slave.hpp.
use libcosim.Base.{ℕ, Bool, List, [], ◌∷◌, Option, none, some, ℕ_discrete, ite}
use libcosim.Base.Int.{ℤ}
use libcosim.Base.Outcome.{Outcome, ok, err}
use libcosim.Base.Method.{Method, modify, ◌>>◌}
use libcosim.Model.{StepResult, Text}
use libcosim.Simulator.GetCache.{Modifier, GetCache}
use libcosim.Simulator.GetCache
use libcosim.Simulator.SetCache.{SetCache}
use libcosim.Simulator.SetCache

-- The virtual functions of a slave. Those that read leave the slave as it is.
pub record SlaveOps (Real : Type 0) : Type 1 where
  pub Handle : Type 0
  pub setup : ℤ → Option ℤ → Option Real → Method Handle (Unit {0})
  pub start_simulation : Method Handle (Unit {0})
  pub do_step : ℤ → ℤ → Method Handle StepResult
  pub get_real_variables : Handle → List ℕ → Outcome (List Real)
  pub get_integer_variables : Handle → List ℕ → Outcome (List ℤ)
  pub get_boolean_variables : Handle → List ℕ → Outcome (List Bool)
  pub get_string_variables : Handle → List ℕ → Outcome (List Text)
  pub set_real_variables : List ℕ → List Real → Method Handle (Unit {0})
  pub set_integer_variables : List ℕ → List ℤ → Method Handle (Unit {0})
  pub set_boolean_variables : List ℕ → List Bool → Method Handle (Unit {0})
  pub set_string_variables : List ℕ → List Text → Method Handle (Unit {0})

-- A set of references, `std::unordered_set<value_reference>`.
unfoldable pub insert_reference : ℕ → List ℕ → List ℕ
insert_reference r [] = r ∷ []
insert_reference r (x ∷ xs) = ite (ℕ_discrete x r) (x ∷ xs) (x ∷ insert_reference r xs)

unfoldable pub erase_reference : ℕ → List ℕ → List ℕ
erase_reference r [] = []
erase_reference r (x ∷ xs) = let rest = erase_reference r xs in ite (ℕ_discrete x r) rest (x ∷ rest)

module _ {T : Type 0} where
  unfoldable pub set_modified_reference : ℕ → Option (Modifier T) → List ℕ → List ℕ
  set_modified_reference r (some m) s = insert_reference r s
  set_modified_reference r none s = erase_reference r s

-- The state that belongs to one type of variable.
pub record Channel (T : Type 0) : Type 0 where
  pub get_cache : GetCache T
  pub set_cache : SetCache T
  pub modified : List ℕ

module _ {T : Type 0} where
  abbrev pub try : (SetCache T → Outcome (SetCache T)) → Method (Channel T) (Unit {0})
  try f c = elim (f c.set_cache) [ ok d ↦ (ok tt, record c { set_cache = d }) | err e ↦ (err e, c) ]

  -- The bodies of `get_…`, `set_…`, `set_…_input_modifier` and `set_…_output_modifier`.
  unfoldable pub get_value : ℕ → Channel T → Outcome T
  get_value r c = GetCache.get c.get_cache r

  unfoldable pub set_value : ℕ → T → Method (Channel T) (Unit {0})
  set_value r v = try (SetCache.set_value r v)

  unfoldable pub set_input_modifier : ℕ → Option (Modifier T) → Method (Channel T) (Unit {0})
  set_input_modifier r m = do
    try (SetCache.set_modifier r m)
    modify (λ c. record c { modified = set_modified_reference r m c.modified })

  abbrev pub try_get : (GetCache T → Outcome (GetCache T)) → Method (Channel T) (Unit {0})
  try_get f c = elim (f c.get_cache) [
    | ok d ↦ (ok tt, record c { get_cache = d })
    | err e ↦ (err e, c)
  ]

  unfoldable pub set_output_modifier : ℕ → Option (Modifier T) → Method (Channel T) (Unit {0})
  set_output_modifier r m = do
    try_get (GetCache.set_modifier r m)
    modify (λ c. record c { modified = set_modified_reference r m c.modified })

  abbrev pub modify_and_get : ℤ → Method (Channel T) (Unit {0})
  modify_and_get dt = try (SetCache.modify_and_get dt)

  abbrev pub reset : Method (Channel T) (Unit {0})
  reset = try SetCache.reset

  abbrev pub refresh : List T → ℤ → Channel T → Channel T
  refresh vs dt c = record c { get_cache = GetCache.refresh vs dt c.get_cache }

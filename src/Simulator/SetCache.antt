-- ===== src/Simulator/SetCache.antt =====
-- `set_variable_cache<T>`: the values to be written to the slave at the next step. Where the modifiers
-- have been run, an `assert` forbids to set values and modifiers: it ends the process, in builds that
-- keep assertions. The other `assert`s compare positions and lengths (`IsListed`).
pub mod Laws
pub mod Reset
use libcosim.Base.{
  ℕ, Bool, true, false, not, List, [], ◌∷◌, ◌++◌, Option, none, some, length, get_elem?, set,
  if◌then◌else◌, ℕ_discrete,
}
use libcosim.Base.Int.{ℤ}
use libcosim.Base.Outcome.{
  Outcome, ok, err, out_of_range, terminated, undefined, of_option, guard, ◌>>=◌, ◌>>◌,
}
use libcosim.Base.Assoc.{find, assign, emplace, erase}
use libcosim.Simulator.GetCache.{Modifier}

-- `exposed_variable`; an array index of -1 is `none`.
pub record Exposed (T : Type 0) : Type 0 where
  pub last_value : T
  pub array_index : Option ℕ

pub record SetCache (T : Type 0) : Type 0 where
  pub exposed_variables : List (ℕ × Exposed T)
  pub modifiers : List (ℕ × Modifier T)
  pub has_run_modifiers : Bool
  pub references : List ℕ
  pub values : List T

module _ {T : Type 0} where
  abbrev pub empty : SetCache T
  empty = record {
    exposed_variables = [];
    modifiers = [];
    has_run_modifiers = false;
    references = [];
    values = [];
  }

  unfoldable pub expose : ℕ → T → SetCache T → SetCache T
  expose r start c = record c {
    exposed_variables =
        emplace ℕ_discrete r (record { last_value = start; array_index = none })
          c.exposed_variables;
  }

  -- The variable at the end of the arrays, with value `v`.
  unfoldable pub append_value : ℕ → T → T → SetCache T → SetCache T
  append_value r last v c = record c {
    exposed_variables =
        assign ℕ_discrete r (record { last_value = last; array_index = some (length c.references) })
          c.exposed_variables;
    references = c.references ++ r ∷ [];
    values = c.values ++ v ∷ [];
  }

  -- `set_value`, where the variable is exposed
  unfoldable pub write_value : ℕ → T → Exposed T → SetCache T → SetCache T
  unfolding append_value
  write_value r v e c = elim e.array_index [
    | none ↦ append_value r v v c
    | some i ↦ record c {
      exposed_variables =
          assign ℕ_discrete r (record { last_value = v; array_index = some i }) c.exposed_variables;
      values = set c.values i v;
    }
  ]

  unfoldable pub set_value : ℕ → T → SetCache T → Outcome (SetCache T)
  unfolding write_value
  set_value r v c = do
    guard (not c.has_run_modifiers) terminated
    e ← of_option out_of_range (find ℕ_discrete r c.exposed_variables)
    ok (write_value r v e c)

  -- The variable gets a place in the arrays, with its last value, if it has none.
  unfoldable pub ensure_listed : ℕ → Exposed T → SetCache T → SetCache T
  unfolding append_value
  ensure_listed r e c = elim e.array_index [
    | none ↦ append_value r e.last_value e.last_value c
    | some i ↦ c
  ]

  unfoldable pub put_modifier : ℕ → Option (Modifier T) → SetCache T → SetCache T
  put_modifier r (some m) c = record c { modifiers = assign ℕ_discrete r m c.modifiers }
  put_modifier r none c = record c { modifiers = erase ℕ_discrete r c.modifiers }

  unfoldable pub set_modifier : ℕ → Option (Modifier T) → SetCache T → Outcome (SetCache T)
  unfolding ensure_listed put_modifier
  set_modifier r m c = do
    guard (not c.has_run_modifiers) terminated
    e ← of_option out_of_range (find ℕ_discrete r c.exposed_variables)
    ok (put_modifier r m (ensure_listed r e c))

  -- `values_[arrayIndex] = f(values_[arrayIndex], deltaT)`
  unfoldable pub modify_at : ℕ → Modifier T → ℤ → SetCache T → Outcome (SetCache T)
  modify_at i f dt c = do
    v ← of_option undefined (get_elem? c.values i)
    ok (record c { values = set c.values i (f v dt) })

  -- One entry of `modifiers_`.
  unfoldable pub run_entry : ℤ → ℕ × Modifier T → SetCache T → Outcome (SetCache T)
  unfolding ensure_listed modify_at
  run_entry dt (r, f) c = do
    e ← of_option out_of_range (find ℕ_discrete r c.exposed_variables)
    elim e.array_index [
      | none ↦ modify_at (length c.references) f dt (ensure_listed r e c)
      | some i ↦ modify_at i f dt c
    ]

  unfoldable pub run_entries : ℤ → List (ℕ × Modifier T) → SetCache T → Outcome (SetCache T)
  run_entries dt [] c = ok c
  run_entries dt (m ∷ ms) c = do d ← run_entry dt m c; run_entries dt ms d

  -- The cache after the call; its `references` and `values` are what the call returns.
  unfoldable pub modify_and_get : ℤ → SetCache T → Outcome (SetCache T)
  modify_and_get dt c =
      if c.has_run_modifiers
      then ok c
      else do d ← run_entries dt c.modifiers c; ok (record d { has_run_modifiers = true })

  -- `exposedVariables_.at(ref).arrayIndex = -1`, for each reference
  unfoldable pub clear_indices : List ℕ → List (ℕ × Exposed T) → Outcome (List (ℕ × Exposed T))
  clear_indices [] m = ok m
  clear_indices (r ∷ rs) m = do
    e ← of_option out_of_range (find ℕ_discrete r m)
    clear_indices rs (assign ℕ_discrete r (record e { array_index = none }) m)

  unfoldable pub reset : SetCache T → Outcome (SetCache T)
  reset c = do
    m ← clear_indices c.references c.exposed_variables
    ok (record c { exposed_variables = m; references = []; values = []; has_run_modifiers = false })

-- ===== src/Algorithm/Changes.antt =====
-- Changes of the maps of fixed_step_algorithm that keep all factors.
use libcosim.Base.{
  Bool, ℕ, ◌<◌, List, [], ◌∷◌, Option, none, some, ℕ_discrete, ◌≡◌, refl, sym, ap, ◌∙◌, arith, inl,
  inr, Option-cases,
}
use libcosim.Base.Int.{ℤ}
use libcosim.Base.Positions.{none-ne-some, some_cancel}
use libcosim.Base.Outcome.{Outcome-cases}
use libcosim.Base.Method.{Method}
use libcosim.Base.Assoc.{find, erase, find-erase_self, find-erase_ne}
use libcosim.Algorithm.Defs.{
  VariableId, FunctionIoId, EntityOps, SimulatorInfo, FunctionInfo, Algorithm,
  disconnect_simulators, disconnect_functions, disconnect_in, disconnect_io_in, remove_first,
  VariableId-discrete, FunctionIoId-discrete,
}
use libcosim.Algorithm.Step.{each_simulator, step_due, step_simulator}
use libcosim.Algorithm.Factors.{HasFactors}

module _ {Real : Type 0} (ops : EntityOps Real) where
  abbrev Sims : Type 0
  Sims = List (ℕ × SimulatorInfo ops)

  abbrev Funs : Type 0
  Funs = List (ℕ × FunctionInfo ops)

  -- The factor that a map has at an index.
  abbrev factor_of : Option (SimulatorInfo ops) → Option ℕ
  factor_of none = none
  factor_of (some s) = some s.decimation_factor

  abbrev function_factor_of : Option (FunctionInfo ops) → Option ℕ
  function_factor_of none = none
  function_factor_of (some f) = some f.decimation_factor

  abbrev factor_at : ℕ → Sims → Option ℕ
  factor_at i sims = factor_of (find ℕ_discrete i sims)

  abbrev function_factor_at : ℕ → Funs → Option ℕ
  function_factor_at i funs = function_factor_of (find ℕ_discrete i funs)

  found_pos :
      (a : Algorithm ops) (i n : ℕ) → HasFactors ops a → factor_at i a.simulators ≡ some n → 0 < n
  found_pos a i n h e = elim (Option-cases (find ℕ_discrete i a.simulators)) [
    | inl p ↦ absurd (none-ne-some (sym (ap factor_of p) ∙ e))
    | inr (x, p) ↦ omega (arith, h.simulators_pos i x p, some_cancel (sym (ap factor_of p) ∙ e))
  ]

  function_found_pos :
      (a : Algorithm ops) (i n : ℕ)
      → HasFactors ops a
      → function_factor_at i a.functions ≡ some n
      → 0 < n
  function_found_pos a i n h e = elim (Option-cases (find ℕ_discrete i a.functions)) [
    | inl p ↦ absurd (none-ne-some (sym (ap function_factor_of p) ∙ e))
    | inr (x, p) ↦
        omega (arith, h.functions_pos i x p, some_cancel (sym (ap function_factor_of p) ∙ e))
  ]

  -- A change after which every factor is one that was there keeps them positive.
  pub keeps_factors :
      (a b : Algorithm ops)
      → b.base_step_size ≡ a.base_step_size
      → ((i n : ℕ) → factor_at i b.simulators ≡ some n → factor_at i a.simulators ≡ some n)
      → ((i n : ℕ)
          → function_factor_at i b.functions ≡ some n
          → function_factor_at i a.functions ≡ some n)
      → HasFactors ops a
      → HasFactors ops b
  keeps_factors a b base sims funs h = record {
    base_pos = omega (arith, base, h.base_pos);
    simulators_pos =
        λ i s e. found_pos a i s.decimation_factor h (sims i s.decimation_factor (ap factor_of e));
    functions_pos = λ i f e.
        function_found_pos a i f.decimation_factor h
          (funs i f.decimation_factor (ap function_factor_of e));
  }

  pub each_simulator-factor_at :
      (b : Bool) (m : Method ops.Sim (Unit {0})) (i : ℕ) (sims : Sims)
      → factor_at i (each_simulator ops b m sims).1 ≡ factor_at i sims
  unfolding each_simulator find
  each_simulator-factor_at b m i [] = refl
  each_simulator-factor_at b m i ((j, s) ∷ sims) = elim (Outcome-cases (m s.sim).0) [
    | inl (u, e) ↦ ground (arith, e, each_simulator-factor_at b m i sims)
    | inr (x, e) ↦ ground (arith, e, each_simulator-factor_at b m i sims)
  ]

  step_simulator-factor :
      (t : ℤ) (base : ℕ) (s : SimulatorInfo ops)
      → (step_simulator ops t base s).1.decimation_factor ≡ s.decimation_factor
  unfolding step_simulator
  step_simulator-factor t base s = ground arith

  pub step_due-factor_at :
      (t : ℤ) (base counter i : ℕ) (sims : Sims)
      → factor_at i (step_due ops t base counter sims).1 ≡ factor_at i sims
  unfolding step_due find
  step_due-factor_at t base counter i [] = refl
  step_due-factor_at t base counter i ((j, s) ∷ sims) =
      ground (arith, step_simulator-factor t base s, step_due-factor_at t base counter i sims)

  pub erase-factor_at :
      (k i n : ℕ) (sims : Sims)
      → factor_at i (erase ℕ_discrete k sims) ≡ some n
      → factor_at i sims ≡ some n
  erase-factor_at k i n sims e = elim (ℕ_discrete k i) [
    | yes p ↦ absurd (
        none-ne-some (
          sym (
            ap (λ x. factor_at x (erase ℕ_discrete k sims)) (sym p)
            ∙ ap factor_of (find-erase_self ℕ_discrete k sims))
          ∙ e))
    | no q ↦ sym (ap factor_of (find-erase_ne ℕ_discrete k i sims q)) ∙ e
  ]

  pub disconnect_simulators-factor_at :
      (k i : ℕ) (sims : Sims) → factor_at i (disconnect_simulators ops k sims) ≡ factor_at i sims
  unfolding disconnect_simulators find
  disconnect_simulators-factor_at k i [] = refl
  disconnect_simulators-factor_at k i ((j, s) ∷ sims) =
      ground (arith, disconnect_simulators-factor_at k i sims)

  pub disconnect_functions-factor_at :
      (k i : ℕ) (funs : Funs)
      → function_factor_at i (disconnect_functions ops k funs) ≡ function_factor_at i funs
  unfolding disconnect_functions find
  disconnect_functions-factor_at k i [] = refl
  disconnect_functions-factor_at k i ((j, s) ∷ funs) =
      ground (arith, disconnect_functions-factor_at k i funs)

  pub disconnect_in-factor_at :
      (t : VariableId) (i : ℕ) (sims : Sims)
      → factor_at i (disconnect_in ops t sims) ≡ factor_at i sims
  unfolding disconnect_in find
  disconnect_in-factor_at t i [] = refl
  disconnect_in-factor_at t i ((j, s) ∷ sims) =
      elim (Option-cases (remove_first ops VariableId-discrete t s.outgoing_sim)) [
        | inl e ↦ ground (arith, e, disconnect_in-factor_at t i sims)
        | inr (cs, e) ↦ ground (arith, e)
      ]

  pub disconnect_io_in-factor_at :
      (t : FunctionIoId) (i : ℕ) (sims : Sims)
      → factor_at i (disconnect_io_in ops t sims) ≡ factor_at i sims
  unfolding disconnect_io_in find
  disconnect_io_in-factor_at t i [] = refl
  disconnect_io_in-factor_at t i ((j, s) ∷ sims) =
      elim (Option-cases (remove_first ops FunctionIoId-discrete t s.outgoing_fun)) [
        | inl e ↦ ground (arith, e, disconnect_io_in-factor_at t i sims)
        | inr (cs, e) ↦ ground (arith, e)
      ]

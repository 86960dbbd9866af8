-- ===== src/Algorithm/Connections.antt =====
-- Removal of simulators, and the decimation factor that a step size hint gives.
use mathlib.Core.Option
use native.Mathlib.Nat.{mod-add-div', mod-lt, div-eq_of_lt, mod-eq_of_lt}
use libcosim.Base.{
  ℕ, zero, suc, ◌*◌, ◌/◌, ◌^◌, ◌<◌, ◌≤◌, Bool, true, false, List, [], ◌∷◌, Option, none, some, ◌==◌,
  ltb, ite, if◌then◌else◌, ◌≡◌, refl, ap, ◌∙◌, arith, ℕ_discrete, inl, inr, Bool-cases,
}
use libcosim.Base.Int.{pos}
use libcosim.Base.Assoc.{find, erase, find-erase_self, find-erase_ne}
use libcosim.Algorithm.Defs.{
  VariableId, EntityOps, Connection, SimulatorInfo, FunctionInfo, Algorithm, without_target,
  disconnect_simulators, disconnect_functions, remove_simulator, calculate_decimation_factor,
  to_int32, max_one,
}

-- Whether a connection leads to a variable of the simulator `k`.
abbrev pub has_target : {Source : Type 0} → ℕ → List (Connection Source VariableId) → Bool
has_target k [] = false
has_target k (c ∷ cs) = ite (ℕ_discrete c.target.simulator k) true (has_target k cs)

module _ {Real : Type 0} (ops : EntityOps Real) where
  has_target-without_target :
      {Source : Type 0} (i k : ℕ) (cs : List (Connection Source VariableId))
      → has_target k (without_target ops i cs) ≡ ite (ℕ_discrete i k) false (has_target k cs)
  unfolding without_target
  has_target-without_target i k [] = ground arith
  has_target-without_target i k (c ∷ cs) = ground (arith, has_target-without_target i k cs)

  abbrev cut_simulator : ℕ → SimulatorInfo ops → SimulatorInfo ops
  cut_simulator i s = record s { outgoing_sim = without_target ops i s.outgoing_sim }

  abbrev cut_function : ℕ → FunctionInfo ops → FunctionInfo ops
  cut_function i f = record f { outgoing_sim = without_target ops i f.outgoing_sim }

  find-disconnect_simulators :
      (i j : ℕ) (sims : List (ℕ × SimulatorInfo ops))
      → find ℕ_discrete j (disconnect_simulators ops i sims)
        ≡ Option.map (cut_simulator i) (find ℕ_discrete j sims)
  unfolding disconnect_simulators find
  find-disconnect_simulators i j [] = refl
  find-disconnect_simulators i j ((k, s) ∷ sims) =
      ground (arith, find-disconnect_simulators i j sims)

  find-disconnect_functions :
      (i j : ℕ) (funs : List (ℕ × FunctionInfo ops))
      → find ℕ_discrete j (disconnect_functions ops i funs)
        ≡ Option.map (cut_function i) (find ℕ_discrete j funs)
  unfolding disconnect_functions find
  find-disconnect_functions i j [] = refl
  find-disconnect_functions i j ((k, f) ∷ funs) = ground (arith, find-disconnect_functions i j funs)

  abbrev targets_of : Option (SimulatorInfo ops) → ℕ → Bool
  targets_of none k = false
  targets_of (some s) k = has_target k s.outgoing_sim

  abbrev function_targets_of : Option (FunctionInfo ops) → ℕ → Bool
  function_targets_of none k = false
  function_targets_of (some f) k = has_target k f.outgoing_sim

  -- Whether the simulator (or function) `j` has a connection to the simulator `k`.
  abbrev pub simulator_targets : Algorithm ops → ℕ → ℕ → Bool
  simulator_targets a j k = targets_of (find ℕ_discrete j a.simulators) k

  abbrev pub function_targets : Algorithm ops → ℕ → ℕ → Bool
  function_targets a j k = function_targets_of (find ℕ_discrete j a.functions) k

  targets_of-cut :
      (i k : ℕ) (o : Option (SimulatorInfo ops))
      → targets_of (Option.map (cut_simulator i) o) k ≡ ite (ℕ_discrete i k) false (targets_of o k)
  targets_of-cut i k none = ground arith
  targets_of-cut i k (some s) = has_target-without_target i k s.outgoing_sim

  function_targets_of-cut :
      (i k : ℕ) (o : Option (FunctionInfo ops))
      → function_targets_of (Option.map (cut_function i) o) k
        ≡ ite (ℕ_discrete i k) false (function_targets_of o k)
  function_targets_of-cut i k none = ground arith
  function_targets_of-cut i k (some f) = has_target-without_target i k f.outgoing_sim

  -- Removal of the simulator `i` takes away the simulator and exactly the connections from it and
  -- to it: no simulator and no function keeps one to `i`, and all others stay as they were.
  pub remove_simulator_lem :
      (a : Algorithm ops) (i j k : ℕ)
      → (find ℕ_discrete i (remove_simulator ops i a).simulators ≡ none)
        × (simulator_targets (remove_simulator ops i a) j k
            ≡ ite (ℕ_discrete i j) false (ite (ℕ_discrete i k) false (simulator_targets a j k)))
        × (function_targets (remove_simulator ops i a) j k
            ≡ ite (ℕ_discrete i k) false (function_targets a j k))
  unfolding remove_simulator
  remove_simulator_lem a i j k = (
    find-disconnect_simulators i i (erase ℕ_discrete i a.simulators)
        ∙ ap (Option.map (cut_simulator i)) (find-erase_self ℕ_discrete i a.simulators),
    ap (λ o. targets_of o k) (find-disconnect_simulators i j (erase ℕ_discrete i a.simulators))
        ∙ targets_of-cut i k (find ℕ_discrete j (erase ℕ_discrete i a.simulators))
        ∙ erased,
    ap (λ o. function_targets_of o k) (find-disconnect_functions i j a.functions)
        ∙ function_targets_of-cut i k (find ℕ_discrete j a.functions),
  )
    where
      erased :
          ite
            (ℕ_discrete i k)
            false
            (targets_of (find ℕ_discrete j (erase ℕ_discrete i a.simulators)) k)
          ≡ ite (ℕ_discrete i j) false (ite (ℕ_discrete i k) false (simulator_targets a j k))
      erased = elim (ℕ_discrete i j) [
        | yes p ↦ ground (arith, find-erase_self ℕ_discrete i a.simulators, p)
        | no n ↦ ground (arith, find-erase_ne ℕ_discrete i j a.simulators n)
      ]

-- The factor is that of the greatest multiple of the base step within the hint, or 1 for a hint
-- below one base step.
abbrev pub FactorFits : ℕ → ℕ → ℕ → Bool → Type 0
FactorFits base hint factor true = factor ≡ 1
FactorFits base hint factor false = (factor * base ≤ hint) × (hint < suc factor * base)

quotient_bounds : (base n : ℕ) → 0 < base → (n / base * base ≤ n) × (n < suc (n / base) * base)
quotient_bounds base n p =
    let parts = mod-add-div' n base in
    let small = mod-lt n p in (omega (arith, parts, small), omega (arith, parts, small))

max_one_small : (q : ℕ) → q < 2 ^ 31 → max_one (to_int32 q) ≡ (if q == 0 then 1 else q)
max_one_small zero h = refl
max_one_small (suc q) h = ground (arith, mod-eq_of_lt {n = suc q} {m = 2 ^ 32} (omega arith))

factor_quotient :
    (base hint : ℕ)
    → 0 < base
    → hint / base < 2 ^ 31
    → calculate_decimation_factor base (pos hint) ≡ (if hint / base == 0 then 1 else hint / base)
unfolding calculate_decimation_factor
factor_quotient base zero p q = ground (arith, div-eq_of_lt {n = 0} {m = base} p)
factor_quotient base (suc n) p q = ground (arith, max_one_small (suc n / base) q)

-- For a positive base step and a hint whose quotient by it is below 2^31, the factor is that of the
-- greatest multiple of the base step within the hint, or 1 for a hint below one base step.
pub calculate_decimation_factor_lem :
    (base hint : ℕ)
    → 0 < base
    → hint / base < 2 ^ 31
    → FactorFits base hint (calculate_decimation_factor base (pos hint)) (ltb hint base)
calculate_decimation_factor_lem base hint p q = elim (Bool-cases (ltb hint base)) [
  | inl small ↦ rw small (f ∙ below small)
  | inr large ↦ rw large (rw (f ∙ above large) bounds)
]
  where
    f : calculate_decimation_factor base (pos hint) ≡ (if hint / base == 0 then 1 else hint / base)
    f = factor_quotient base hint p q

    bounds : (hint / base * base ≤ hint) × (hint < suc (hint / base) * base)
    bounds = quotient_bounds base hint p

    below : ltb hint base ≡ true → (if hint / base == 0 then 1 else hint / base) ≡ 1
    below h = ground (arith, div-eq_of_lt {n = hint} {m = base})

    above : ltb hint base ≡ false → (if hint / base == 0 then 1 else hint / base) ≡ hint / base
    above h = ground (arith, bounds.1)

-- ===== src/Algorithm/Schedule.antt =====
-- When simulators step, when they finish, and when variables are carried along a connection.
use mathlib.Core.Option
use native.Mathlib.Nat.{mod_self, mod-eq_of_lt, add-mod, mod-mod}
use libcosim.Base.{
  ◌^◌, ℕ, suc, ◌+◌, ◌*◌, ◌%◌, ◌<◌, Bool, true, false, List, [], ◌∷◌, none, some, ◌==◌,
  if◌then◌else◌, ◌≡◌, ◌≢◌, ◌↔◌, refl, ap, ◌∙◌, arith, ℕ_discrete, ==_iff,
}
use libcosim.Base.Positions.{is_in}
use libcosim.Base.Int.{ℤ, pos}
use libcosim.Base.Outcome.{Outcome, ok, err, simulation_error}
use libcosim.Base.Method.{pure, continue}
use libcosim.Base.Assoc.{find}
use libcosim.Model.{complete}
use libcosim.Algorithm.Lcm.{lcm, int_lcm, mod-lcm}
use libcosim.Algorithm.Defs.{EntityOps, SimulatorInfo, Algorithm}
use libcosim.Algorithm.Step.{is_due, step_simulator, step_due, finished_at, propagate, do_step}

-- Where both factors are positive and their least common multiple is an `int`, a connection is due
-- exactly when the step counter is a multiple of both.
pub is_due_iff :
    (counter sdf tdf : ℕ)
    → 0 < sdf
    → 0 < tdf
    → lcm sdf tdf < 2 ^ 31
    → (b : Bool) × (is_due counter sdf tdf ≡ ok b)
      × ((b ≡ true) ↔ ((counter % sdf ≡ 0) × (counter % tdf ≡ 0)))
unfolding is_due int_lcm
is_due_iff counter sdf tdf p q fits =
    let m = mod-lcm sdf tdf counter p q in
    let t = ==_iff (counter % lcm sdf tdf) 0 in
    (counter % lcm sdf tdf == 0, ground (arith, fits), (λ h. m.0 (t.0 h), λ h. t.1 (m.1 h)))

-- Between two multiples of a factor there is none.
next_multiple : (k d j : ℕ) → 0 < d → k % d ≡ 0 → j < d → (suc (k + j) % d == 0) ≡ (suc j == d)
next_multiple k d j p h l = elim (ℕ_discrete (suc j) d) [
  | yes e ↦ ground (arith, same, mod_self d, e)
  | no n ↦ ground (arith, same, mod-eq_of_lt {n = suc j} {m = d} (omega arith))
]
  where
    same : suc (k + j) % d ≡ suc j % d
    same =
        ap (λ x. x % d) {y = k + suc j} (omega arith)
        ∙ add-mod k (suc j) d
        ∙ ap (λ x. (x + suc j % d) % d) h
        ∙ ap (λ x. x % d) {y = suc j % d} (omega arith)
        ∙ mod-mod (suc j) d

module _ {Real : Type 0} (ops : EntityOps Real) where
  abbrev Sims : Type 0
  Sims = List (ℕ × SimulatorInfo ops)

  -- No two entries have one index, as in a map.
  abbrev pub Distinct : Sims → Type 0
  Distinct [] = Unit {0}
  Distinct ((i, s) ∷ sims) = (find ℕ_discrete i sims ≡ none) × Distinct sims

  abbrev pub after_step : ℤ → ℕ → ℕ → SimulatorInfo ops → SimulatorInfo ops
  after_step t base counter s =
      if counter % s.decimation_factor == 0 then (step_simulator ops t base s).1 else s

  -- Every simulator whose factor divides the counter makes its own step, and no other is touched.
  pub find-step_due :
      (t : ℤ) (base counter i : ℕ) (sims : Sims)
      → find ℕ_discrete i (step_due ops t base counter sims).1
        ≡ Option.map (after_step t base counter) (find ℕ_discrete i sims)
  unfolding step_due find
  find-step_due t base counter i [] = refl
  find-step_due t base counter i ((j, s) ∷ sims) =
      ground (arith, find-step_due t base counter i sims)

  step_simulator_factor :
      (t : ℤ) (base : ℕ) (s : SimulatorInfo ops)
      → (step_simulator ops t base s).1.decimation_factor ≡ s.decimation_factor
  unfolding step_simulator
  step_simulator_factor t base s = ground arith

  finished_at-step_due :
      (t : ℤ) (base counter next : ℕ) (sims : Sims)
      → finished_at ops next (step_due ops t base counter sims).1 ≡ finished_at ops next sims
  unfolding step_due finished_at
  finished_at-step_due t base counter next [] = refl
  finished_at-step_due t base counter next ((j, s) ∷ sims) =
      ground (arith, step_simulator_factor t base s, finished_at-step_due t base counter next sims)

  is_in-finished_at-none :
      (counter i : ℕ) (sims : Sims)
      → find ℕ_discrete i sims ≡ none
      → is_in i (finished_at ops counter sims) ≡ false
  unfolding finished_at find
  is_in-finished_at-none counter i [] h = refl
  is_in-finished_at-none counter i ((j, s) ∷ sims) h =
      ground (arith, is_in-finished_at-none counter i sims)

  is_in-finished_at :
      (counter i : ℕ) (sims : Sims) {s : SimulatorInfo ops}
      → Distinct sims
      → find ℕ_discrete i sims ≡ some s
      → is_in i (finished_at ops counter sims) ≡ (counter % s.decimation_factor == 0)
  unfolding finished_at find
  is_in-finished_at counter i [] d e = cc
  is_in-finished_at counter i ((j, x) ∷ sims) {s} d e = ground (
    arith,
    is_in-finished_at counter i sims {s = s} d.1,
    is_in-finished_at-none counter i sims,
    d.0,
  )

  ends_ok :
      (flag : Bool) (o : Outcome (Unit {0})) (x b b' : Algorithm ops) (v : ℕ × List ℕ)
      {r : ℕ × List ℕ}
      → (if flag then (err simulation_error, b') else continue o x (λ _. pure v)) ≡ (ok r, b)
      → r ≡ v
  ends_ok true o x b b' v h = absurd (ground arith)
  ends_ok false (ok u) x b b' v h = ground arith
  ends_ok false (err e) x b b' v h = absurd (ground arith)

  -- A successful step returns the base step, and the indices that finish at the next counter.
  do_step-finished :
      (t : ℤ) (a b : Algorithm ops) {r : ℕ × List ℕ}
      → do_step ops t a ≡ (ok r, b)
      → r ≡ (a.base_step_size, finished_at ops (suc a.step_counter) a.simulators)
  unfolding do_step
  do_step-finished t a b {r} h =
      let stepped = step_due ops t a.base_step_size a.step_counter a.simulators in
      let fin = finished_at ops (suc a.step_counter) stepped.1 in
      let next = record a { simulators = stepped.1; step_counter = suc a.step_counter } in
      let q = propagate ops fin next in
      ends_ok stepped.0 q.0 q.1 b next (a.base_step_size, fin) h
      ∙ ap (λ f. (a.base_step_size, f))
          (finished_at-step_due t a.base_step_size a.step_counter (suc a.step_counter) a.simulators)

  -- Where no two simulators have one index, a successful step advances time by the base step, and a
  -- simulator with factor `d` is reported as finished by the last of the `d` calls that start at a
  -- counter `k` divisible by `d`, and by none of the others.
  pub do_step_tiles :
      (t : ℤ) (a b : Algorithm ops) (r : ℕ × List ℕ) (i k j : ℕ) (s : SimulatorInfo ops)
      → do_step ops t a ≡ (ok r, b)
      → Distinct a.simulators
      → find ℕ_discrete i a.simulators ≡ some s
      → k % s.decimation_factor ≡ 0
      → j < s.decimation_factor
      → a.step_counter ≡ k + j
      → (r.0 ≡ a.base_step_size) × (is_in i r.1 ≡ (suc j == s.decimation_factor))
  do_step_tiles t a b r i k j s h d e m l c =
      let q = do_step-finished t a b h in
      (
        ap (λ x. x.0) q,
        ap (λ (x : ℕ × List ℕ). is_in i x.1) q
            ∙ is_in-finished_at (suc a.step_counter) i a.simulators d e
            ∙ ap (λ n. suc n % s.decimation_factor == 0) c
            ∙ next_multiple k s.decimation_factor j (omega arith) m l,
      )

  -- The step of a simulator does not complete: it throws, or returns another result.
  abbrev pub Incomplete : ℤ → ℕ → SimulatorInfo ops → Type 0
  Incomplete t base s = (ops.sim_do_step t (pos (base * s.decimation_factor)) s.sim).0 ≢ ok complete

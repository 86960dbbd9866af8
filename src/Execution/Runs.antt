-- ===== src/Execution/Runs.antt =====
-- When `simulate_until` returns, and what it leaves.
use libcosim.Base.{true-ne-false}
use libcosim.Base.{
  ℕ, zero, suc, ◌-◌, ◌≤◌, ◌<◌, Bool, true, false, not, ◌||◌, Option, none, some, if◌then◌else◌, ◌≡◌,
  refl, sym, ap, ◌∙◌, arith,
}
use libcosim.Base.Int.{ℤ, pos, negsuc, add_ℤ, sub_ℤ}
use libcosim.Base.Outcome.{Outcome, ok, err}
use libcosim.Base.Method.{pure}
use libcosim.Execution.Defs.{Parts, Execution, E, is_running}
use libcosim.Execution.Step.{step, stoppable_step, timed_out, run, conclude, simulate_until}
use libcosim.Execution.Steps.{advanced, step_ok}

-- A number of ticks, none if negative
abbrev pub to_ℕ : ℤ → ℕ
to_ℕ (pos n) = n
to_ℕ (negsuc n) = 0

to_ℕ-sub :
    (end now : ℤ) (n : ℕ) → to_ℕ (sub_ℤ end (add_ℤ now (pos (suc n)))) ≤ to_ℕ (sub_ℤ end now) - 1
unfolding sub_ℤ add_ℤ
to_ℕ-sub (pos a) (pos b) n = ground arith
to_ℕ-sub (pos a) (negsuc b) n = ground arith
to_ℕ-sub (negsuc a) (pos b) n = ground arith
to_ℕ-sub (negsuc a) (negsuc b) n = ground arith

module _ {Real : Type 0} (parts : Parts Real) (near : ℤ → ℤ → Bool) where
  abbrev X : Type 0
  X = Execution parts

  abbrev pub put_stopped : X → Bool → X
  put_stopped e b = record e { stopped = b }

  -- `f` is what a step of the duration `suc d` left of `g`, and is near the end by that duration.
  abbrev pub NearEnd : ℤ → Bool → X → Type 0
  NearEnd end b f =
      (g : X) × (d : ℕ) × ((step parts g).0 ≡ ok (pos (suc d)))
      × (f ≡ put_stopped (step parts g).1 b)
      × (near (sub_ℤ end f.current_time) (pos (suc d)) ≡ true)

  module _ (Live : X → Type 0)
      (goes : (e : X)
        → Live e
        → (n : ℕ) × ((step parts e).0 ≡ ok (pos (suc n))) × Live (step parts e).1)
      (flag : (e : X) (b : Bool) → Live e → Live (put_stopped e b))
      (passed : (n : ℕ) (left : ℤ) → to_ℕ left ≡ 0 → near left (pos (suc n)) ≡ true) (end : ℤ) where
    abbrev pub Finished : Outcome (Option (Unit {0})) → X → Type 0
    Finished r f = (r ≡ ok (some tt)) × (f.stopped ≡ false) × NearEnd end false f

    abbrev runs : ℕ → E parts (Option (Unit {0}))
    runs k = run parts near k (λ _. false) (some end)

    left-step :
        (e : X) (n fuel : ℕ) {f : X} {w : parts.World}
        → f ≡ advanced parts e (pos (suc n)) w
        → to_ℕ (sub_ℤ end e.current_time) ≤ fuel
        → to_ℕ (sub_ℤ end f.current_time) ≤ fuel - 1
    left-step e n fuel p enough =
        rw (ap (λ (y : X). y.current_time) p) (omega (arith, to_ℕ-sub end e.current_time n, enough))

    -- The end of a round, where the further rounds are known to finish
    round-Finished :
        (k n : ℕ) (g : X)
        → (step parts g).0 ≡ ok (pos (suc n))
        → let f : X = (step parts g).1 in
          to_ℕ (sub_ℤ end f.current_time) ≤ k - 1
          → (1 ≤ k → Finished (runs k (put_stopped f false)).0 (runs k (put_stopped f false)).1)
          → (b : Bool) → near (sub_ℤ end f.current_time) (pos (suc n)) ≡ b
          → (let rest : E parts (Option (Unit {0})) = if b then pure (some tt) else runs k in
              Finished (rest (put_stopped f false)).0 (rest (put_stopped f false)).1)
    round-Finished k n g returns m more true t = (refl, refl, (g, n, returns, refl, t))
    round-Finished zero n g returns m more false t = absurd (
        true-ne-false
          (sym (passed n (sub_ℤ end (step parts g).1.current_time) (omega (arith, m))) ∙ t))
    round-Finished (suc k) n g returns m more false t = more (omega arith)

    run-suc :
        (fuel : ℕ) (e : X) (n : ℕ) {w : parts.World}
        → (step parts e).0 ≡ ok (pos (suc n))
        → e.stopped ≡ false
        → (step parts e).1 ≡ advanced parts e (pos (suc n)) w
        → (let f : X = (step parts e).1 in
            let rest : E parts (Option (Unit {0})) =
              if near (sub_ℤ end f.current_time) (pos (suc n)) then pure (some tt) else runs fuel in
            runs (suc fuel) e ≡ rest (put_stopped f false))
    unfolding run stoppable_step timed_out
    run-suc fuel e n returns h p = rw (returns, ap (λ (y : X). y.stopped) p ∙ h) refl

    step-Finished :
        (fuel : ℕ) (e : X)
        → Live e
        → e.stopped ≡ false
        → to_ℕ (sub_ℤ end e.current_time) ≤ fuel
        → ((f : X)
            → Live f
            → f.stopped ≡ false
            → to_ℕ (sub_ℤ end f.current_time) ≤ fuel - 1
            → 1 ≤ fuel
            → Finished (runs fuel f).0 (runs fuel f).1)
        → Finished (runs (suc fuel) e).0 (runs (suc fuel) e).1
    step-Finished fuel e live h enough more =
        let (n, returns, live₁) = goes e live in
        let f : X = (step parts e).1 in
        let (w, p) = step_ok parts e returns in
        let m = left-step e n fuel p enough in
        rw (run-suc fuel e n returns h p) (
          round-Finished fuel n e returns m (more (put_stopped f false) (flag f false live₁) refl m)
            (near (sub_ℤ end f.current_time) (pos (suc n))) refl)

    run-Finished :
        (fuel : ℕ) (e : X)
        → Live e
        → e.stopped ≡ false
        → to_ℕ (sub_ℤ end e.current_time) ≤ fuel
        → Finished (runs (suc fuel) e).0 (runs (suc fuel) e).1
    run-Finished zero e live h enough =
        step-Finished zero e live h enough (λ f l s m k. absurd (omega (arith, k)))
    run-Finished (suc fuel) e live h enough =
        step-Finished (suc fuel) e live h enough
          (λ f l s m k. run-Finished fuel f l s (omega (arith, m)))

    -- Suppose that in `Live` executions every step returns a positive duration and is `Live` again,
    -- whatever the flag, that `near` holds when nothing is left, and that no thread stops the
    -- simulation. Then `simulate_until` returns true, with a fuel of one round and one more for each
    -- tick that is left; the execution is no longer running, but for the flag it is what its last
    -- step left, and what remains until the end is near by the duration that this step returned.
    pub simulate_until_lem :
        (fuel : ℕ) (e : X)
        → Live e
        → to_ℕ (sub_ℤ end e.current_time) ≤ fuel
        → (let r = simulate_until parts near (suc fuel) (λ _. false) false (some end) e in
            (r.0 ≡ ok (some true)) × (is_running parts r.1 ≡ false) × NearEnd end true r.1)
    unfolding simulate_until conclude is_running
    simulate_until_lem fuel e live enough =
        let (r, s, (g, d, returns, same, t)) =
          run-Finished fuel (put_stopped e false) (flag e false live) refl enough in
        rw (r) (
          ap (λ b. ok (some (not (b || false)))) s,
          refl,
          (g, d, returns, ap (λ (y : X). put_stopped y true) same, t),
        )

  -- No thread stops the simulation in the first rounds.
  abbrev pub Unstopped : (ℕ → Bool) → ℕ → Type 0
  Unstopped stops n = (j : ℕ) → j < n → stops j ≡ false

  -- What a run leaves in the flag, by how it ends: the last round is the one that throws.
  abbrev RunLeaves : (ℕ → Bool) → ℕ → Outcome (Option (Unit {0})) → X → Type 0
  RunLeaves stops fuel (ok (some u)) f = Unit {0}
  RunLeaves stops fuel (ok none) f = (f.stopped ≡ false) × Unstopped stops fuel
  RunLeaves stops fuel (err x) f = (k : ℕ) × (k < fuel) × Unstopped stops k × (f.stopped ≡ stops k)

  abbrev pub StillRunning : (ℕ → Bool) → ℕ → Outcome (Option Bool) → Bool → Type 0
  StillRunning stops fuel (ok (some b)) r = r ≡ false
  StillRunning stops fuel (ok none) r = (r ≡ true) × Unstopped stops fuel
  StillRunning stops fuel (err x) r = (k : ℕ) × (k < fuel) × Unstopped stops k × (r ≡ not (stops k))

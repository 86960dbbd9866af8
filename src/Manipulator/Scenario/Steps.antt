-- ===== src/Manipulator/Scenario/Steps.antt =====
-- The calls of scenario_manager.cpp: what a step does to the state of the scenario, whether it
-- returns or throws, and where all calls lead.
use mathlib.Core.Path.{subst}
use mathlib.Core.List.Memᴰ.{Memᴰ}
use libcosim.Base.{
  ℕ, Bool, true, false, not, ◌&&◌, List, [], ◌∷◌, Option, none, some, ◌≡◌, inl, inr, refl, sym, ap,
  ◌∙◌, if◌then◌else◌, ℕ_discrete, Bool-cases, true-ne-false,
}
use libcosim.Base.Int.{ℤ, le_ℤ, sub_ℤ}
use libcosim.Base.Outcome.{Outcome, ok, err}
use libcosim.Base.Method.{>>=-ends, ◌>>◌, pure}
use libcosim.Base.Assoc.{find, assign}
use libcosim.Simulator.Impl.{SlaveOps}
use libcosim.Manipulator.Actions.{Event}
use libcosim.Manipulator.Scenario.{
  Events, ScenarioState, State, is_over, empty_events, keep, record_executed, simulator_or_insert,
  execute_event, maybe_run_event, run_events, cleanup_event, cleanup, finish, run_due,
  step_commencing, put_running, change,
}
use libcosim.Manipulator.Scenario.Moves.{Entry, due, collect, IsSplit, Moved, record_executed-Moved}

abbrev Gives : {A : Type 0} → Outcome A → A → Type 0
Gives (ok a) b = a ≡ b
Gives (err e) b = Unit

module _ (Real : Type 0) (zero_real : Real) (ops : SlaveOps Real) where
  abbrev Q : Type 0
  Q = State Real zero_real ops

  -- The call leaves the state of the scenario as it is, and a value that it returns is `b`.
  abbrev Leaves : {A : Type 0} → Q → A → Outcome A → Q → Type 0
  Leaves s b o t = Gives o b × (t.state ≡ s.state)

  simulator_or_insert-state :
      (i : ℕ) (s : Q) → (simulator_or_insert Real zero_real ops i s).1.state ≡ s.state
  unfolding simulator_or_insert
  simulator_or_insert-state i s = go (find ℕ_discrete i s.simulators)
    where
      go :
          (o : Option (Option ℕ))
          → (elim o as (λ x. Outcome (Option ℕ) × Q) [
            | some q ↦ (ok q, s)
            | none ↦ (ok none, record s { simulators = assign ℕ_discrete i none s.simulators })
          ]).1.state
            ≡ s.state
      go none = refl
      go (some q) = refl

  execute_event-state :
      (e : Event Real) (s : Q) → (execute_event Real zero_real ops e s).1.state ≡ s.state
  unfolding execute_event
  execute_event-state e s =
      >>=-ends (simulator_or_insert Real zero_real ops e.action.simulator) _ s
        (λ o t. t.state ≡ s.state) (λ o t. t.state ≡ s.state)
        (simulator_or_insert-state e.action.simulator s) (λ a t h. h) (λ x t h. h)

  maybe_run_event-Leaves :
      (now : ℤ) (i : ℕ) (e : Event Real) (s : Q)
      → let r = maybe_run_event Real zero_real ops now e s in Leaves s (due now (i, e)) r.0 r.1
  unfolding maybe_run_event
  maybe_run_event-Leaves now i e s = go (le_ℤ e.time now)
    where
      go :
          (b : Bool)
          → let r =
              (if b then (execute_event Real zero_real ops e >> pure true) else pure false) s in
            Leaves s b r.0 r.1
      go true =
          >>=-ends (execute_event Real zero_real ops e) (λ _. pure true) s
            (λ o t. t.state ≡ s.state) (Leaves s true) (execute_event-state e s)
            (λ a t h. (refl, h)) (λ x t h. (tt, h))
      go false = (refl, refl)

  run_events-Leaves :
      (now : ℤ) (es ex : Events Real) (s : Q)
      → let r = run_events Real zero_real ops now es ex s in Leaves s (collect now es ex) r.0 r.1
  unfolding run_events
  run_events-Leaves now [] ex s = (refl, refl)
  run_events-Leaves now (p ∷ es) ex s =
      >>=-ends (maybe_run_event Real zero_real ops now p.1)
        (λ b. run_events Real zero_real ops now es (keep b p ex)) s (Leaves s (due now p))
        (Leaves s (collect now (p ∷ es) ex)) (maybe_run_event-Leaves now p.0 p.1 s)
        (λ b t h.
          let r = run_events-Leaves now es (keep b p ex) t in
          (
            subst
                (λ (c : Bool).
                  Gives (run_events Real zero_real ops now es (keep b p ex) t).0
                    (collect now es (keep c p ex)))
                h.0 r.0,
            r.1 ∙ h.1,
          ))
        (λ x t h. (tt, h.1))

  cleanup-state : (es : Events Real) (s : Q) → (cleanup Real zero_real ops es s).1.state ≡ s.state
  unfolding cleanup cleanup_event
  cleanup-state [] s = refl
  cleanup-state (p ∷ es) s =
      >>=-ends (cleanup_event Real zero_real ops p.1) (λ _. cleanup Real zero_real ops es) s
        (λ o t. t.state ≡ s.state) (λ o t. t.state ≡ s.state)
        (>>=-ends (simulator_or_insert Real zero_real ops p.1.action.simulator) _ s
          (λ o t. t.state ≡ s.state) (λ o t. t.state ≡ s.state)
          (simulator_or_insert-state p.1.action.simulator s) (λ a t h. h) (λ x t h. h))
        (λ a t h. cleanup-state es t ∙ h) (λ x t h. h)

  -- What a call of `step_commencing` leads to, by whether a scenario is running and is over
  abbrev pub After : ℤ → Q → Bool → Bool → Outcome (Unit {0}) → Q → Type 0
  After now s false over o t = (o ≡ ok tt) × (t ≡ s)
  After now s true true o t = t.state ≡ put_running Real zero_real ops false s.state
  After now s true false (ok u) t = Moved now s.state t.state
  After now s true false (err x) t = t.state ≡ s.state

  -- No events are left, and the end time has come, if there is one.
  abbrev pub finishes : ℤ → ScenarioState Real → Bool
  finishes now s = empty_events Real zero_real ops s.remaining_events && is_over now s.end_time

  module _ (visit : Events Real → Events Real)
      (visits : (m : Events Real) (x : Entry Real)
        → (Memᴰ x (visit m) → Memᴰ x m) × (Memᴰ x m → Memᴰ x (visit m))) where
    pub finish-state :
        (s : Q)
        → (finish Real zero_real ops visit s).1.state ≡ put_running Real zero_real ops false s.state
    unfolding finish
    finish-state s =
        cleanup-state (visit s.state.executed_events)
          (record s { state = put_running Real zero_real ops false s.state })

    run_due-After :
        {events : List (Event Real)} (now : ℤ) (s : Q)
        → IsSplit events s.state
        → let r = run_due Real zero_real ops visit now s in After now s true false r.0 r.1
    unfolding run_due
    run_due-After now s split =
        >>=-ends (run_events Real zero_real ops now (visit s.state.remaining_events) [])
          (λ executed. change Real zero_real ops (record_executed executed)) s
          (Leaves s (collect now (visit s.state.remaining_events) [])) (After now s true false)
          (run_events-Leaves now (visit s.state.remaining_events) [] s)
          (λ executed t h.
            subst (λ (x : ScenarioState Real). Moved now s.state x)
              (sym (
                ap (λ (l : Events Real). record_executed l t.state) h.0
                ∙ ap (record_executed (collect now (visit s.state.remaining_events) [])) h.1))
              (record_executed-Moved visit visits now s.state split))
          (λ x t h. h.1)

    -- Let each event be in one of the two maps. A step without a running scenario changes nothing;
    -- one with no event left and the end time reached stops the scenario, whatever the cleanup does.
    -- Any other step that returns moves the events that are due into the executed ones and changes
    -- no other part of the state; one that throws leaves the state of the scenario.
    pub step_commencing_lem :
        {events : List (Event Real)} (now : ℤ) (s : Q)
        → IsSplit events s.state
        → let relative = sub_ℤ now s.state.start_time in
          let r = step_commencing Real zero_real ops visit now s in
          After relative s s.state.running (finishes relative s.state) r.0 r.1
    unfolding step_commencing
    step_commencing_lem now s split =
        go s.state.running (finishes (sub_ℤ now s.state.start_time) s.state)
      where
        relative : ℤ
        relative = sub_ℤ now s.state.start_time

        go :
            (running over : Bool)
            → let r =
                (if not running
                  then (ok tt, s)
                  else (if over
                        then finish Real zero_real ops visit
                        else run_due Real zero_real ops visit relative)
                      s) in
              After relative s running over r.0 r.1
        go false over = (refl, refl)
        go true true = finish-state s
        go true false = run_due-After relative s split

  pub Moved-IsSplit :
      {events : List (Event Real)} (now : ℤ) (s t : ScenarioState Real)
      → IsSplit events s
      → Moved now s t
      → IsSplit events t
  Moved-IsSplit now s t split m = record {
    remaining = λ x h. split.remaining x (m.waits x h).0;
    executed =
        λ x h. elim (m.only x h) [ inl k ↦ split.executed x k | inr k ↦ split.remaining x k.0 ];
    apart = λ x h k. elim (m.only x k) [
      | inl l ↦ split.apart x (m.waits x h).0 l
      | inr l ↦ true-ne-false (sym l.1 ∙ (m.waits x h).1)
    ];
    covered = λ i e p. elim (split.covered i e p) [
      | inl r ↦ elim (Bool-cases (due now (i, e))) [
        | inl d ↦ inr (m.ran (i, e) r d)
        | inr d ↦ inl (m.stays (i, e) r d)
      ]
      | inr k ↦ inr (m.kept (i, e) k)
    ];
  }

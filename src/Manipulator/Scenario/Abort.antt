-- ===== src/Manipulator/Scenario/Abort.antt =====
-- The cleanup of scenario_manager.cpp on the simulators that it points to.
use mathlib.Core.Path.{subst}
use mathlib.Core.List.Memᴰ.{Memᴰ, head, tail}
use libcosim.Base.{
  ℕ, Bool, true, false, List, [], ◌∷◌, Option, none, some, ◌≡◌, refl, sym, ap, ◌∙◌, ℕ_discrete,
  get_elem?, set, get_elem?-set_self, get_elem?-set_ne,
}
use libcosim.Base.Positions.{get_elem?-lt, some_cancel}
use libcosim.Base.Outcome.{Outcome, ok, err, undefined}
use libcosim.Base.Assoc.{find, assign}
use libcosim.Base.Method.{>>=-ends, ◌>>=◌}
use libcosim.Simulator.Impl.{SlaveOps}
use libcosim.Simulator.Variables.{
  set_real_input_modifier, set_integer_input_modifier, set_boolean_input_modifier,
  set_string_input_modifier, set_real_output_modifier, set_integer_output_modifier,
  set_boolean_output_modifier, set_string_output_modifier,
}
use libcosim.Manipulator.Actions.{
  ActionModifier, real_modifier, integer_modifier, boolean_modifier, string_modifier,
  VariableAction, Event, Sim, uninstall, cleanup_action, on_sim,
}
use libcosim.Manipulator.Scenario.{
  Events, State, simulator_or_insert, cleanup_event, cleanup, finish, abort_scenario, on_world,
  ScenarioState, put_running, change,
}
use libcosim.Manipulator.Scenario.Moves.{Entry}
use libcosim.Manipulator.Scenario.Steps.{finish-state}
use libcosim.Manipulator.Scenario.Cleanup.{Absent, unset_self, unset_other}

module _ (Real : Type 0) (zero_real : Real) (ops : SlaveOps Real) where
  abbrev A : Type 0
  A = ActionModifier Real

  abbrev B : Type 0
  B = Sim Real zero_real ops

  -- The simulator has no modifier where the action would set one.
  abbrev pub IsReset : A → Bool → ℕ → B → Type 0
  IsReset (real_modifier f) b r s = Absent b r s.reals
  IsReset (integer_modifier f) b r s = Absent b r s.integers
  IsReset (boolean_modifier f) b r s = Absent b r s.booleans
  IsReset (string_modifier f) b r s = Absent b r s.strings

  uninstall-IsReset :
      (m : A) (b : Bool) (r : ℕ) (s : B)
      → (uninstall Real zero_real ops m b r s).0 ≡ ok tt
      → IsReset m b r (uninstall Real zero_real ops m b r s).1
  unfolding uninstall set_real_input_modifier set_integer_input_modifier set_boolean_input_modifier
      set_string_input_modifier set_real_output_modifier set_integer_output_modifier
      set_boolean_output_modifier set_string_output_modifier
  uninstall-IsReset (real_modifier f) true r s e = unset_self true r s.reals e
  uninstall-IsReset (real_modifier f) false r s e = unset_self false r s.reals e
  uninstall-IsReset (integer_modifier f) true r s e = unset_self true r s.integers e
  uninstall-IsReset (integer_modifier f) false r s e = unset_self false r s.integers e
  uninstall-IsReset (boolean_modifier f) true r s e = unset_self true r s.booleans e
  uninstall-IsReset (boolean_modifier f) false r s e = unset_self false r s.booleans e
  uninstall-IsReset (string_modifier f) true r s e = unset_self true r s.strings e
  uninstall-IsReset (string_modifier f) false r s e = unset_self false r s.strings e

  uninstall-keeps :
      (n : A) (b : Bool) (r : ℕ) (m : A) (a : Bool) (j : ℕ) (s : B)
      → IsReset m a j s
      → IsReset m a j (uninstall Real zero_real ops n b r s).1
  unfolding uninstall set_real_input_modifier set_integer_input_modifier set_boolean_input_modifier
      set_string_input_modifier set_real_output_modifier set_integer_output_modifier
      set_boolean_output_modifier set_string_output_modifier
  uninstall-keeps (real_modifier f) true r (real_modifier g) a j s h =
      unset_other true r a j s.reals h
  uninstall-keeps (real_modifier f) false r (real_modifier g) a j s h =
      unset_other false r a j s.reals h
  uninstall-keeps (integer_modifier f) true r (integer_modifier g) a j s h =
      unset_other true r a j s.integers h
  uninstall-keeps (integer_modifier f) false r (integer_modifier g) a j s h =
      unset_other false r a j s.integers h
  uninstall-keeps (boolean_modifier f) true r (boolean_modifier g) a j s h =
      unset_other true r a j s.booleans h
  uninstall-keeps (boolean_modifier f) false r (boolean_modifier g) a j s h =
      unset_other false r a j s.booleans h
  uninstall-keeps (string_modifier f) true r (string_modifier g) a j s h =
      unset_other true r a j s.strings h
  uninstall-keeps (string_modifier f) false r (string_modifier g) a j s h =
      unset_other false r a j s.strings h
  uninstall-keeps (real_modifier f) true r (integer_modifier g) a j s h = h
  uninstall-keeps (real_modifier f) false r (integer_modifier g) a j s h = h
  uninstall-keeps (real_modifier f) true r (boolean_modifier g) a j s h = h
  uninstall-keeps (real_modifier f) false r (boolean_modifier g) a j s h = h
  uninstall-keeps (real_modifier f) true r (string_modifier g) a j s h = h
  uninstall-keeps (real_modifier f) false r (string_modifier g) a j s h = h
  uninstall-keeps (integer_modifier f) true r (real_modifier g) a j s h = h
  uninstall-keeps (integer_modifier f) false r (real_modifier g) a j s h = h
  uninstall-keeps (integer_modifier f) true r (boolean_modifier g) a j s h = h
  uninstall-keeps (integer_modifier f) false r (boolean_modifier g) a j s h = h
  uninstall-keeps (integer_modifier f) true r (string_modifier g) a j s h = h
  uninstall-keeps (integer_modifier f) false r (string_modifier g) a j s h = h
  uninstall-keeps (boolean_modifier f) true r (real_modifier g) a j s h = h
  uninstall-keeps (boolean_modifier f) false r (real_modifier g) a j s h = h
  uninstall-keeps (boolean_modifier f) true r (integer_modifier g) a j s h = h
  uninstall-keeps (boolean_modifier f) false r (integer_modifier g) a j s h = h
  uninstall-keeps (boolean_modifier f) true r (string_modifier g) a j s h = h
  uninstall-keeps (boolean_modifier f) false r (string_modifier g) a j s h = h
  uninstall-keeps (string_modifier f) true r (real_modifier g) a j s h = h
  uninstall-keeps (string_modifier f) false r (real_modifier g) a j s h = h
  uninstall-keeps (string_modifier f) true r (integer_modifier g) a j s h = h
  uninstall-keeps (string_modifier f) false r (integer_modifier g) a j s h = h
  uninstall-keeps (string_modifier f) true r (boolean_modifier g) a j s h = h
  uninstall-keeps (string_modifier f) false r (boolean_modifier g) a j s h = h

  abbrev Q : Type 0
  Q = State Real zero_real ops

  -- The simulator that the action names is one, and it has no such modifier.
  pub record IsClean (a : VariableAction Real) (s : Q) : Type 0 where
    pub place : ℕ
    pub sim : B
    pub known : find ℕ_discrete a.simulator s.simulators ≡ some (some place)
    pub stored : get_elem? s.world place ≡ some sim
    pub is_reset : IsReset a.modifier a.is_input a.variable sim

  put_scenario : Q → ScenarioState Real → Q
  put_scenario s q = record s { state = q }

  -- One event
  abbrev Cleaned : Event Real → Q → Outcome (Unit {0}) → Q → Type 0
  Cleaned e s (ok u) t =
      IsClean e.action t × ((a : VariableAction Real) → IsClean a s → IsClean a t)
  Cleaned e s (err x) t = Unit

  put_world : Q → List B → Q
  put_world s w = record s { world = w }

  cleanup_event-Cleaned :
      (e : Event Real) (s : Q) → let r = cleanup_event Real zero_real ops e s in Cleaned e s r.0 r.1
  unfolding cleanup_event simulator_or_insert on_sim cleanup_action put_world
  cleanup_event-Cleaned e s = by_simulator (find ℕ_discrete e.action.simulator s.simulators) refl
    where
      call : Option ℕ → Q → Outcome (Unit {0}) × Q
      call p =
          on_world Real zero_real ops
            (on_sim Real zero_real ops p (cleanup_action Real zero_real ops e.action))

      act : B → Outcome (Unit {0}) × B
      act = cleanup_action Real zero_real ops e.action

      kept :
          (p : ℕ) (m : B)
          → get_elem? s.world p ≡ some m
          → (a : VariableAction Real) → IsClean a s
          → IsClean a (put_world s (set s.world p (act m).1))
      kept p m g a c = elim (ℕ_discrete p c.place) [
        | yes same ↦ record {
          place = p;
          sim = (act m).1;
          known = c.known ∙ ap (λ (i : ℕ). some (some i)) (sym same);
          stored = get_elem?-set_self s.world p (act m).1 (get_elem?-lt s.world p g);
          is_reset =
              uninstall-keeps e.action.modifier e.action.is_input e.action.variable a.modifier
                a.is_input a.variable m
                (subst (IsReset a.modifier a.is_input a.variable)
                  (some_cancel (sym c.stored ∙ ap (get_elem? s.world) (sym same) ∙ g)) c.is_reset);
        }
        | no other ↦ record {
          place = c.place;
          sim = c.sim;
          known = c.known;
          stored = get_elem?-set_ne s.world (act m).1 other ∙ c.stored;
          is_reset = c.is_reset;
        }
      ]

      by_result :
          (p : ℕ) (m : B)
          → find ℕ_discrete e.action.simulator s.simulators ≡ some (some p)
          → get_elem? s.world p ≡ some m
          → (o : Outcome (Unit {0})) → (act m).0 ≡ o
          → Cleaned e s o (put_world s (set s.world p (act m).1))
      by_result p m f g (err x) h = tt
      by_result p m f g (ok u) h = (
        record {
          place = p;
          sim = (act m).1;
          known = f;
          stored = get_elem?-set_self s.world p (act m).1 (get_elem?-lt s.world p g);
          is_reset = uninstall-IsReset e.action.modifier e.action.is_input e.action.variable m h;
        },
        kept p m g,
      )

      by_store :
          (p : ℕ)
          → find ℕ_discrete e.action.simulator s.simulators ≡ some (some p)
          → (o : Option B) → get_elem? s.world p ≡ o
          → let r = (elim o as (λ x. Outcome (Unit {0}) × List B) [
            | none ↦ (err undefined, s.world)
            | some m ↦ ((act m).0, set s.world p (act m).1)
          ]) in
            Cleaned e s r.0 (put_world s r.1)
      by_store p f none g = tt
      by_store p f (some m) g = by_result p m f g (act m).0 refl

      by_simulator :
          (o : Option (Option ℕ))
          → find ℕ_discrete e.action.simulator s.simulators ≡ o
          → let r =
              ((λ (q : Q). elim o as (λ x. Outcome (Option ℕ) × Q) [
                | some p ↦ (ok p, s)
                | none ↦ (
                  ok none,
                  record s { simulators = assign ℕ_discrete e.action.simulator none s.simulators },
                )
              ])
                  >>= call)
                s in
            Cleaned e s r.0 r.1
      by_simulator none f = tt
      by_simulator (some none) f = tt
      by_simulator (some (some p)) f = by_store p f (get_elem? s.world p) refl

  -- All events
  abbrev pub AllCleaned : Events Real → Q → Outcome (Unit {0}) → Q → Type 0
  AllCleaned es s (ok u) t =
      ((x : ℕ × Event Real) → Memᴰ x es → IsClean x.1.action t)
      × ((a : VariableAction Real) → IsClean a s → IsClean a t)
  AllCleaned es s (err x) t = Unit

  AllCleaned-cons :
      (p : ℕ × Event Real) (es : Events Real) (s t : Q)
      → Cleaned p.1 s (ok tt) t
      → (o : Outcome (Unit {0})) (q : Q) → AllCleaned es t o q
      → AllCleaned (p ∷ es) s o q
  AllCleaned-cons p es s t c (err x) q h = tt
  AllCleaned-cons p es s t c (ok u) q h = (
    λ x m. elim m [
      | head e ↦ subst (λ (y : ℕ × Event Real). IsClean y.1.action q) (sym e) (h.1 p.1.action c.0)
      | tail k ↦ h.0 x k
    ],
    λ a k. h.1 a (c.1 a k),
  )

  cleanup-AllCleaned :
      (es : Events Real) (s : Q)
      → let r = cleanup Real zero_real ops es s in AllCleaned es s r.0 r.1
  unfolding cleanup
  cleanup-AllCleaned [] s = (λ x m. elim m [ ], λ a k. k)
  cleanup-AllCleaned (p ∷ es) s =
      >>=-ends (cleanup_event Real zero_real ops p.1) (λ _. cleanup Real zero_real ops es) s
        (Cleaned p.1 s) (AllCleaned (p ∷ es) s) (cleanup_event-Cleaned p.1 s)
        (λ u t c.
          let r = cleanup Real zero_real ops es t in
          AllCleaned-cons p es s t c r.0 r.1 (cleanup-AllCleaned es t))
        (λ x t h. tt)

  module _ (visit : Events Real → Events Real)
      (visits : (m : Events Real) (x : Entry Real)
        → (Memᴰ x (visit m) → Memᴰ x m) × (Memᴰ x m → Memᴰ x (visit m))) where
    -- How an abort ends
    abbrev pub Aborted : Q → Outcome (Unit {0}) → Q → Type 0
    Aborted s (ok u) t =
        (t.state.running ≡ false)
        × (t.state.remaining_events ≡ [])
        × (t.state.executed_events ≡ [])
        × ((x : Entry Real) → Memᴰ x s.state.executed_events → IsClean x.1.action t)
    Aborted s (err x) t = t.state ≡ put_running Real zero_real ops false s.state

    Finished : Q → Outcome (Unit {0}) → Q → Type 0
    Finished s o t =
        (t.state ≡ put_running Real zero_real ops false s.state)
        × AllCleaned (visit s.state.executed_events)
            (put_scenario s (put_running Real zero_real ops false s.state)) o t

    -- An abort that returns stops the scenario, empties both maps, and leaves every variable whose
    -- event was executed without a modifier on the side that the event had set it; an abort that
    -- throws stops the scenario too, and keeps the maps.
    pub abort_scenario-IsReset :
        (s : Q) → let r = abort_scenario Real zero_real ops visit s in Aborted s r.0 r.1
    unfolding abort_scenario finish Finished put_scenario
    abort_scenario-IsReset s =
        >>=-ends (finish Real zero_real ops visit)
          (λ _.
            change Real zero_real ops
              (λ q. record q { remaining_events = []; executed_events = [] }))
          s (Finished s) (Aborted s)
          (
            finish-state Real zero_real ops visit visits s,
            cleanup-AllCleaned (visit s.state.executed_events)
                (put_scenario s (put_running Real zero_real ops false s.state)),
          )
          (λ u t h. (
            ap (λ (q : ScenarioState Real). q.running) h.0,
            refl,
            refl,
            λ x m. unhide x t (h.1.0 x ((visits s.state.executed_events x).1 m)),
          ))
          (λ x t h. h.0)
      where
        unhide :
            (x : Entry Real) (t : Q)
            → IsClean x.1.action t
            → IsClean x.1.action
                (put_scenario t (record t.state { remaining_events = []; executed_events = [] }))
        unhide x t c = record {
          place = c.place;
          sim = c.sim;
          known = c.known;
          stored = c.stored;
          is_reset = c.is_reset;
        }

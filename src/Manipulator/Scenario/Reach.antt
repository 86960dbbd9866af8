-- ===== src/Manipulator/Scenario/Reach.antt =====
-- Where the calls of scenario_manager.cpp lead once a scenario is loaded, until it is aborted or
-- another is loaded.
use mathlib.Core.List.Memᴰ.{Memᴰ, head, tail}
use mathlib.Core.List.{append_assoc, append-nil}
use mathlib.Core.Path.{subst}
use mathlib.Core.Logic.{if_pos, if_neg}
use libcosim.Base.{
  ℕ, suc, Bool, true, false, ◌&&◌, List, [], ◌∷◌, ◌++◌, Option, some, ◌≡◌, ◌≢◌, inl, inr, refl, sym,
  ap, ◌∙◌, ℕ_discrete, length, get_elem?, arith, length-append, true-ne-false,
}
use libcosim.Base.Int.{ℤ, sub_ℤ}
use libcosim.Base.Outcome.{Outcome, ok, err}
use libcosim.Base.Positions.{get_elem?-append_one, get_elem?-lt, some_cancel, none-ne-some}
use libcosim.Base.Assoc.{assign}
use libcosim.Base.Entries.{of_mem-assign, mem-assign_self, mem-assign_ne}
use libcosim.Simulator.Impl.{SlaveOps}
use libcosim.Manipulator.Actions.{Event, Scenario}
use libcosim.Manipulator.Scenario.{
  Events, ScenarioState, State, number_events, load, load_scenario, simulator_added,
  simulator_removed, step_commencing, is_scenario_running, empty_events, is_over, put_running,
}
use libcosim.Manipulator.Scenario.Moves.{Entry, due, IsSplit}
use libcosim.Manipulator.Scenario.Steps.{After, finishes, step_commencing_lem, Moved-IsSplit}

module _ {E : Type 0} where
  -- The map holds the events of a list under their positions.
  record IsNumbered (es : List E) (m : List (ℕ × E)) : Type 0 where
    pub sizes : length m ≡ length es
    pub here : (x : ℕ × E) → Memᴰ x m → get_elem? es x.0 ≡ some x.1
    pub there : (i : ℕ) (e : E) → get_elem? es i ≡ some e → Memᴰ (i, e) m

  length-assign_new :
      (k : ℕ) (v : E) (m : List (ℕ × E))
      → ((x : ℕ × E) → Memᴰ x m → x.0 ≢ k)
      → length (assign ℕ_discrete k v m) ≡ suc (length m)
  unfolding assign
  length-assign_new k v [] new = refl
  length-assign_new k v ((j, w) ∷ m) new =
      let other : j ≢ k = new (j, w) (head refl) in
      ground (arith, length-assign_new k v m (λ x h. new x (tail h)))

  get_elem?-append_end :
      (pre : List E) (e : E) (i : ℕ) → i ≡ length pre → get_elem? (pre ++ e ∷ []) i ≡ some e
  get_elem?-append_end pre e i p =
      get_elem?-append_one pre e i ∙ if_pos (ℕ_discrete i (length pre)) p (some e) (get_elem? pre i)

  get_elem?-append_ne :
      (pre : List E) (e : E) (i : ℕ)
      → i ≢ length pre
      → get_elem? (pre ++ e ∷ []) i ≡ get_elem? pre i
  get_elem?-append_ne pre e i p =
      get_elem?-append_one pre e i ∙ if_neg (ℕ_discrete i (length pre)) p (some e) (get_elem? pre i)

  IsNumbered-assign :
      (pre : List E) (e : E) (m : List (ℕ × E))
      → IsNumbered pre m
      → IsNumbered (pre ++ e ∷ []) (assign ℕ_discrete (length m) e m)
  IsNumbered-assign pre e m n = record {
    sizes =
        omega (arith, length-assign_new (length m) e m fresh, n.sizes, length-append pre (e ∷ []));
    here = λ x h. elim (of_mem-assign ℕ_discrete (length m) e m h) [
      | inl p ↦
          get_elem?-append_end pre e x.0 (ap (λ (y : ℕ × E). y.0) p ∙ n.sizes)
          ∙ ap (λ (y : ℕ × E). some y.1) (sym p)
      | inr k ↦ get_elem?-append_ne pre e x.0 (λ q. fresh x k (q ∙ sym n.sizes)) ∙ n.here x k
    ];
    there = λ i f p. elim (ℕ_discrete i (length m)) [
      | yes q ↦
          subst (λ (x : ℕ × E). Memᴰ x (assign ℕ_discrete (length m) e m))
            (ap (λ (j : ℕ). (j, e)) (sym q)
              ∙ ap (λ (g : E). (i, g))
                  (some_cancel (sym (get_elem?-append_end pre e i (q ∙ n.sizes)) ∙ p)))
            (mem-assign_self ℕ_discrete (length m) e m)
      | no q ↦
          mem-assign_ne ℕ_discrete (length m) e m q
            (n.there i f (sym (get_elem?-append_ne pre e i (λ r. q (r ∙ sym n.sizes))) ∙ p))
    ];
  }
    where
      fresh : (x : ℕ × E) → Memᴰ x m → x.0 ≢ length m
      fresh x h same =
          let below = get_elem?-lt pre x.0 (n.here x h) in omega (arith, below, same, n.sizes)

  number_events-IsNumbered :
      (es : List E) (pre : List E) (m : List (ℕ × E))
      → IsNumbered pre m
      → IsNumbered (pre ++ es) (number_events es m)
  unfolding number_events
  number_events-IsNumbered [] pre m n = subst (λ l. IsNumbered l m) (sym (append-nil pre)) n
  number_events-IsNumbered (e ∷ es) pre m n =
      subst (λ l. IsNumbered l (number_events es (assign ℕ_discrete (length m) e m)))
        (append_assoc pre (e ∷ []) es)
        (number_events-IsNumbered es (pre ++ e ∷ []) (assign ℕ_discrete (length m) e m)
          (IsNumbered-assign pre e m n))

module _ {Real : Type 0} where
  pub load-IsSplit : (c : Scenario Real) (now : ℤ) → IsSplit c.events (load c now)
  unfolding load
  load-IsSplit c now =
      let n = number_events-IsNumbered c.events [] [] (record {
        sizes = refl;
        here = λ x h. elim h [ ];
        there = λ i e p. absurd (none-ne-some p);
      }) in
      record {
        remaining = n.here;
        executed = λ x h. elim h [ ];
        apart = λ x h k. elim k [ ];
        covered = λ i e p. inl (n.there i e p);
      }

module _ (Real : Type 0) (zero_real : Real) (ops : SlaveOps Real) where
  abbrev Q : Type 0
  Q = State Real zero_real ops

  module _ (visit : Events Real → Events Real)
      (visits : (m : Events Real) (x : Entry Real)
        → (Memᴰ x (visit m) → Memᴰ x m) × (Memᴰ x m → Memᴰ x (visit m))) where
    -- The manager after the scenario is loaded, and any steps and changes of the simulators. Steps
    -- that throw are among them.
    pub data ManagerReach (c : Scenario Real) : Q → Type 0 where
      loads : (s : Q) (now : ℤ) → ManagerReach c (load_scenario Real zero_real ops c now s)
      steps :
          {s : Q} (now : ℤ)
          → ManagerReach c s
          → ManagerReach c (step_commencing Real zero_real ops visit now s).1
      adds :
          {s : Q} (i : ℕ) (sim : Option ℕ)
          → ManagerReach c s
          → ManagerReach c (simulator_added Real zero_real ops i sim s)
      removes :
          {s : Q} (i : ℕ)
          → ManagerReach c s
          → ManagerReach c (simulator_removed Real zero_real ops i s)

    After-IsSplit :
        {events : List (Event Real)} (now : ℤ) (s : Q) (running over : Bool)
        (o : Outcome (Unit {0})) (t : Q)
        → IsSplit events s.state
        → After Real zero_real ops now s running over o t
        → IsSplit events t.state
    After-IsSplit {events} now s false over o t split h =
        subst (λ (q : Q). IsSplit events q.state) (sym h.1) split
    After-IsSplit {events} now s true true o t split h = subst (IsSplit events) (sym h) (record {
      remaining = split.remaining;
      executed = split.executed;
      apart = split.apart;
      covered = split.covered;
    })
    After-IsSplit now s true false (ok u) t split h =
        Moved-IsSplit Real zero_real ops now s.state t.state split h
    After-IsSplit {events} now s true false (err x) t split h = subst (IsSplit events) (sym h) split

    -- From the load of a scenario on, whatever steps are taken, those that throw included, and
    -- whatever simulators come and go, each event of the scenario is under its number in one of the
    -- maps of remaining and executed events and in one only, and nothing else is in them.
    pub ManagerReach-IsSplit :
        {c : Scenario Real} {s : Q} → ManagerReach c s → IsSplit c.events s.state
    unfolding load_scenario simulator_added simulator_removed
    ManagerReach-IsSplit {c} (loads s now) = load-IsSplit c now
    ManagerReach-IsSplit (steps {s} now r) =
        let split = ManagerReach-IsSplit r in
        After-IsSplit (sub_ℤ now s.state.start_time) s s.state.running
          (finishes Real zero_real ops (sub_ℤ now s.state.start_time) s.state) _ _ split
          (step_commencing_lem Real zero_real ops visit visits now s split)
    ManagerReach-IsSplit (adds i sim r) = ManagerReach-IsSplit r
    ManagerReach-IsSplit (removes i r) = ManagerReach-IsSplit r

    -- If a scenario that is running has not finished, every event is due, and a step returns, then
    -- no event remains; and the first step after it at which the end time, if any, has come ends
    -- the scenario, also when the cleanup throws.
    pub is_scenario_running-step_commencing :
        {c : Scenario Real} {s : Q} (now later : ℤ) {t : Q}
        → ManagerReach c s
        → is_scenario_running Real zero_real ops s ≡ true
        → finishes Real zero_real ops (sub_ℤ now s.state.start_time) s.state ≡ false
        → ((i : ℕ) (e : Event Real)
            → get_elem? c.events i ≡ some e
            → due (sub_ℤ now s.state.start_time) (i, e) ≡ true)
        → step_commencing Real zero_real ops visit now s ≡ (ok tt, t)
        → is_over (sub_ℤ later s.state.start_time) s.state.end_time ≡ true
        → (empty_events Real zero_real ops t.state.remaining_events ≡ true)
          × (is_scenario_running Real zero_real ops
                (step_commencing Real zero_real ops visit later t).1
              ≡ false)
    unfolding is_scenario_running
    is_scenario_running-step_commencing {c} {s} now later {t} r on early all e over =
        (none_left, ap (λ (q : ScenarioState Real). q.running) ended)
      where
        split : IsSplit c.events s.state
        split = ManagerReach-IsSplit r

        first : After Real zero_real ops (sub_ℤ now s.state.start_time) s true false (ok tt) t
        first =
            subst (λ b. After Real zero_real ops (sub_ℤ now s.state.start_time) s b false (ok tt) t)
              on
              (subst
                (λ b.
                  After Real zero_real ops (sub_ℤ now s.state.start_time) s s.state.running b
                    (ok tt) t)
                early
                (subst
                  (λ (y : Outcome (Unit {0}) × Q).
                    After Real zero_real ops (sub_ℤ now s.state.start_time) s s.state.running
                      (finishes Real zero_real ops (sub_ℤ now s.state.start_time) s.state) y.0 y.1)
                  e (step_commencing_lem Real zero_real ops visit visits now s split)))

        empty :
            (l : Events Real)
            → ((x : Entry Real) → Memᴰ x l → ⊥)
            → empty_events Real zero_real ops l ≡ true
        empty [] none_in = refl
        empty (x ∷ l) none_in = absurd (none_in x (head refl))

        none_left : empty_events Real zero_real ops t.state.remaining_events ≡ true
        none_left = empty t.state.remaining_events (λ x h.
            let w = first.waits x h in
            true-ne-false (sym (all x.0 x.1 (split.remaining x w.0)) ∙ w.1))

        ends : finishes Real zero_real ops (sub_ℤ later t.state.start_time) t.state ≡ true
        ends =
            let left : Bool = empty_events Real zero_real ops t.state.remaining_events in
            subst (λ st. left && is_over (sub_ℤ later st) t.state.end_time ≡ true)
              (sym first.start_time)
              (subst (λ en. left && is_over (sub_ℤ later s.state.start_time) en ≡ true)
                (sym first.end_time)
                (ap (λ b. b && is_over (sub_ℤ later s.state.start_time) s.state.end_time) none_left
                  ∙ over))

        ended :
            (step_commencing Real zero_real ops visit later t).1.state
            ≡ put_running Real zero_real ops false t.state
        ended =
            subst
              (λ b.
                After Real zero_real ops (sub_ℤ later t.state.start_time) t b true
                  (step_commencing Real zero_real ops visit later t).0
                  (step_commencing Real zero_real ops visit later t).1)
              (first.running ∙ on)
              (subst
                (λ b.
                  After Real zero_real ops (sub_ℤ later t.state.start_time) t t.state.running b
                    (step_commencing Real zero_real ops visit later t).0
                    (step_commencing Real zero_real ops visit later t).1)
                ends
                (step_commencing_lem Real zero_real ops visit visits later t
                  (Moved-IsSplit Real zero_real ops _ s.state t.state split first)))

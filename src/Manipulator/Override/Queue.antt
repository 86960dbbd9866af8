-- ===== src/Manipulator/Override/Queue.antt =====
-- The queue of override_manipulator.cpp: what is put in it, and what a step makes of it.
use mathlib.Core.Path.{subst}
use mathlib.Core.Logic.{if_pos}
use libcosim.Base.{
  ℕ, Bool, true, false, List, [], ◌∷◌, ◌++◌, Option, none, some, ◌≡◌, inl, inr, refl, sym, ap, ◌∙◌,
  ℕ_discrete, get_elem?, set, if◌then◌else◌, length, get_elem?-set_self, Option-cases,
  true-ne-false, arith,
}
use libcosim.Base.Int.{ℤ}
use libcosim.Base.Positions.{get_elem?-lt, get_elem?-some}
use libcosim.Base.Outcome.{Outcome, ok, err, undefined, of_option, out_of_range}
use libcosim.Base.Assoc.{find, assign, contains, find-assign_self}
use libcosim.Base.Method.{◌>>◌, continue, modify}
use libcosim.Model.{real}
use libcosim.Simulator.GetCache.{Modifier, GetCache, refresh, get, modified}
use libcosim.Simulator.GetCache
use libcosim.Simulator.GetCache.Laws.{
  IsAligned, expose-IsAligned, get-put_modifier, set_modifier_ok,
}
use libcosim.Simulator.Impl.{SlaveOps}
use libcosim.Manipulator.Actions.{
  real_modifier, VariableAction, Sim, on_sim, execute_action, install,
}
use libcosim.Simulator.Slave.{expose_for_getting}
use libcosim.Simulator.Variables.{set_real_output_modifier}
use libcosim.Simulator.Impl.{Channel, set_output_modifier, set_modified_reference}
use libcosim.Manipulator.Causality.{variable_is_input}
use libcosim.Manipulator.Override.{
  State, run_action, run_actions, step_commencing, add_action, override_real_variable, on_world,
}

contains-none :
    (r : ℕ) (m : List (ℕ × ℕ)) → find ℕ_discrete r m ≡ none → contains ℕ_discrete r m ≡ false
unfolding contains find
contains-none r [] h = refl
contains-none r ((j, i) ∷ m) h = ground (arith, contains-none r m)

module _ {T : Type 0} where
  -- An exposed reference has a place.
  expose-finds :
      (start : T) (r : ℕ) (c : GetCache T)
      → (i : ℕ) × (find ℕ_discrete r (GetCache.expose start r c).index_mapping ≡ some i)
  unfolding GetCache.expose
  expose-finds start r c = go (contains ℕ_discrete r c.index_mapping) refl
    where
      exposed : Bool → GetCache T
      exposed b = if b then c else record {
        references = c.references ++ r ∷ [];
        original_values = c.original_values ++ start ∷ [];
        modified_values = c.modified_values ++ start ∷ [];
        modifiers = c.modifiers ++ none ∷ [];
        index_mapping = assign ℕ_discrete r (length c.references) c.index_mapping;
      }

      go :
          (b : Bool)
          → contains ℕ_discrete r c.index_mapping ≡ b
          → (i : ℕ) × (find ℕ_discrete r (exposed b).index_mapping ≡ some i)
      go true e = elim (Option-cases (find ℕ_discrete r c.index_mapping)) [
        | inl n ↦ absurd (true-ne-false (sym e ∙ contains-none r c.index_mapping n))
        | inr (i, p) ↦ (i, p)
      ]
      go false e =
          (length c.references, find-assign_self ℕ_discrete r (length c.references) c.index_mapping)

  -- An exposed reference with a modifier shows what the modifier makes of the value that was read.
  get-modified :
      (start : T) (r : ℕ) (f : T → ℤ → T) (c : GetCache T) (vs : List T) (dt : ℤ)
      → IsAligned c
      → length vs ≡ length (GetCache.expose start r c).references
      → (v : T) × (get
            (refresh vs dt (GetCache.put_modifier r (some f) (GetCache.expose start r c)))
            r
          ≡ ok (f v dt))
  get-modified start r f c vs dt a l =
      let (i, e) = expose-finds start r c in
      let b = expose-IsAligned start r a in
      let below = get_elem?-lt (GetCache.expose start r c).references i (b.positions r i e) in
      let (v, g) = get_elem?-some vs i (omega (arith, below, l)) in
      (
        v,
        get-put_modifier (GetCache.expose start r c) vs dt r i (some f) b l e g r
            ∙ if_pos (ℕ_discrete r r) refl (ok (f v dt))
                (get (refresh vs dt (GetCache.expose start r c)) r),
      )

  -- What setting a modifier of an exposed output makes of a consistent channel
  set_output_modifier_exposed :
      (r i : ℕ) (m : Option (Modifier T)) (c : Channel T)
      → find ℕ_discrete r c.get_cache.index_mapping ≡ some i
      → IsAligned c.get_cache
      → ◌≡◌ {A = Outcome (Unit {0}) × Channel T} (set_output_modifier r m c) (
        ok tt,
        record c {
          get_cache = GetCache.put_modifier r m c.get_cache;
          modified = set_modified_reference r m c.modified;
        },
      )
  unfolding set_output_modifier
  set_output_modifier_exposed r i m c e a =
      ap
        (λ (o : Outcome (GetCache T)).
          let x = (elim o as (λ x. Outcome (Unit {0}) × Channel T) [
            | ok d ↦ (ok tt, record c { get_cache = d })
            | err f ↦ (err f, c)
          ]) in
          continue x.0 x.1 (λ u.
            modify
              (λ (d : Channel T). record d { modified = set_modified_reference r m d.modified })))
        (set_modifier_ok r i m c.get_cache e a)

module _ (Real : Type 0) (zero_real : Real) (ops : SlaveOps Real) where
  abbrev Q : Type 0
  Q = State Real zero_real ops

  -- The manipulator with nothing in its queue
  abbrev pub idle : List (ℕ × Option ℕ) → List (Sim Real zero_real ops) → Q
  idle simulators world = record { simulators = simulators; actions = []; world = world }

  abbrev pub R : Type 0
  R = Outcome (Unit {0}) × Q

  abbrev constant_action : ℕ → ℕ → Real → VariableAction Real
  constant_action i r v = record {
    simulator = i;
    variable = r;
    modifier = real_modifier (some (λ original dt. v));
    is_input = false;
  }

  queued : List (ℕ × Option ℕ) → List (Sim Real zero_real ops) → VariableAction Real → Q
  queued simulators world a = record (idle simulators world) { actions = a ∷ [] }

  override_real_variable-queued :
      (simulators : List (ℕ × Option ℕ)) (world : List (Sim Real zero_real ops)) (i r : ℕ)
      (v : Real)
      → variable_is_input Real zero_real ops i r real simulators world ≡ ok false
      → ◌≡◌ {A = R}
          (override_real_variable Real zero_real ops i r v (idle simulators world))
          (ok tt, queued simulators world (constant_action i r v))
  unfolding override_real_variable add_action queued
  override_real_variable-queued simulators world i r v out =
      ap
        (λ (o : Outcome Bool). continue o (idle simulators world) (λ b s. (
          ok tt,
          record s {
            actions =
                s.actions
                ++ record {
                  simulator = i;
                  variable = r;
                  modifier = real_modifier (some (λ original dt. v));
                  is_input = b;
                }
                  ∷ [];
          },
        )))
        out

  run_action-changes :
      (simulators : List (ℕ × Option ℕ)) (world : List (Sim Real zero_real ops))
      (a : VariableAction Real) (p : ℕ) (sim : Sim Real zero_real ops)
      → find ℕ_discrete a.simulator simulators ≡ some (some p)
      → get_elem? world p ≡ some sim
      → let r = execute_action Real zero_real ops a sim in
        ◌≡◌ {A = R}
          (run_action Real zero_real ops a (queued simulators world a))
          (r.0, queued simulators (set world p r.1) a)
  unfolding run_action queued on_sim
  run_action-changes simulators world a p sim known stored =
      ap
        (λ (o : Option (Option ℕ)).
          continue (of_option out_of_range o) (queued simulators world a) (λ sim.
            on_world Real zero_real ops
              (on_sim Real zero_real ops sim (execute_action Real zero_real ops a))))
        known
      ∙ ap
          (λ (o : Option (Sim Real zero_real ops)).
            let x = (elim o as (λ x. Outcome (Unit {0}) × List (Sim Real zero_real ops)) [
              | none ↦ (err undefined, world)
              | some s ↦ let r = execute_action Real zero_real ops a s in (r.0, set world p r.1)
            ]) in
            (x.0, queued simulators x.1 a))
          stored

  step_commencing-one :
      (simulators : List (ℕ × Option ℕ)) (world world' : List (Sim Real zero_real ops))
      (a : VariableAction Real)
      → ◌≡◌ {A = R}
          (run_action Real zero_real ops a (queued simulators world a))
          (ok tt, queued simulators world' a)
      → ◌≡◌ {A = R}
          (step_commencing Real zero_real ops (queued simulators world a))
          (ok tt, idle simulators world')
  unfolding step_commencing run_actions queued
  step_commencing-one simulators world world' a e =
      ap
        (λ (x : R).
          let y = continue x.0 x.1 (λ u. run_actions Real zero_real ops []) in
          continue y.0 y.1 (λ u t. (ok tt, record t { actions = [] })))
        e

  -- What the simulator at a place shows of a variable when `vs` are read from its slave
  abbrev pub Shows : ℕ → ℕ → Real → List Real → ℤ → R → Type 0
  Shows p r v vs dt q =
      (q.0 ≡ ok tt)
      × (q.1.actions ≡ [])
      × ((after : Sim Real zero_real ops) × (get_elem? q.1.world p ≡ some after)
          × (get (refresh vs dt after.reals.get_cache) r ≡ ok v))

  -- Let the queue be empty. After `override_real_variable` of an output of a simulator with a
  -- consistent cache, and the next `step_commencing`, both of which return, the queue is empty, and
  -- when values are read from the slave, one for each variable that is then exposed, the variable
  -- shows as the value given.
  pub get-override_real_variable :
      (simulators : List (ℕ × Option ℕ)) (world : List (Sim Real zero_real ops)) (i p r : ℕ)
      (v : Real) (sim : Sim Real zero_real ops) (vs : List Real) (dt : ℤ)
      → find ℕ_discrete i simulators ≡ some (some p)
      → get_elem? world p ≡ some sim
      → variable_is_input Real zero_real ops i r real simulators world ≡ ok false
      → IsAligned sim.reals.get_cache
      → length vs ≡ length (GetCache.expose zero_real r sim.reals.get_cache).references
      → Shows p r v vs dt (
          (override_real_variable Real zero_real ops i r v >> step_commencing Real zero_real ops)
            (idle simulators world))
  unfolding execute_action install expose_for_getting set_real_output_modifier
  get-override_real_variable simulators world i p r v sim vs dt known stored out aligned l =
      subst (Shows p r v vs dt) (sym same) (
        refl,
        refl,
        (
          after,
          get_elem?-set_self world p after (get_elem?-lt world p stored),
          subst (λ (c : GetCache Real). get (refresh vs dt c) r ≡ ok v)
              (sym (ap (λ (x : Outcome (Unit {0}) × Channel Real). x.1.get_cache) installed))
              (get-modified zero_real r (λ original d. v) sim.reals.get_cache vs dt aligned l).1,
        ),
      )
    where
      a : VariableAction Real
      a = constant_action i r v

      exposed : Channel Real
      exposed = record sim.reals { get_cache = GetCache.expose zero_real r sim.reals.get_cache }

      shown : Channel Real
      shown = record exposed {
        get_cache = GetCache.put_modifier r (some (λ original d. v)) exposed.get_cache;
        modified = set_modified_reference {T = Real} r (some (λ original d. v)) exposed.modified;
      }

      installed :
          ◌≡◌ {A = Outcome (Unit {0}) × Channel Real}
            (set_output_modifier r (some (λ original d. v)) exposed)
            (ok tt, shown)
      installed =
          let (i, e) = expose-finds zero_real r sim.reals.get_cache in
          set_output_modifier_exposed r i (some (λ original d. v)) exposed e
            (expose-IsAligned zero_real r aligned)

      after : Sim Real zero_real ops
      after = (execute_action Real zero_real ops a sim).1

      same :
          ◌≡◌ {A = R}
            ((override_real_variable Real zero_real ops i r v >> step_commencing Real zero_real ops)
              (idle simulators world))
            (ok tt, idle simulators (set world p after))
      same =
          ap (λ (x : R). continue x.0 x.1 (λ u. step_commencing Real zero_real ops))
            (override_real_variable-queued simulators world i r v out)
          ∙ step_commencing-one simulators world (set world p after) a (
              run_action-changes simulators world a p sim known stored
              ∙ ap
                  (λ (x : Outcome (Unit {0}) × Channel Real).
                    (x.0, queued simulators (set world p after) a))
                  installed)

-- ===== src/Execution/Injection/Indexes.antt =====
-- The indexes that `inject_system_structure` of execution.cpp gives to the entities.
use mathlib.Core.Path.{subst}
use libcosim.Base.{
  ℕ, suc, ◌≤◌, ◌<◌, List, [], ◌∷◌, ◌++◌, Option, none, some, ◌≡◌, ◌⊎◌, refl, sym, ap, ◌∙◌, length,
  length-append, arith, inl, inr,
}
use libcosim.Base.Positions.{some_cancel}
use libcosim.Base.Int.{ℤ}
use libcosim.Base.Outcome.{Outcome, ok, err}
use libcosim.Base.Assoc.{find, emplace, find-emplace_self, find-emplace_ne}
use libcosim.Base.Method.{Method, >>=-ends, ◌>>=◌, ◌>>◌, pure}
use libcosim.Model.{Text, ModelDescription}
use libcosim.Function.Description.{ParameterValues, FunctionTypeDescription}
use libcosim.SystemStructure.Defs.{Text-discrete, EntityType, model, function_type, Entity}
use libcosim.Execution.Defs.{Parts, Execution, E, call, for_each, add_slave, add_function}
use libcosim.Execution.Steps.{for_each-Within}
use libcosim.Execution.Ids.{EntityIndexMaps}
use libcosim.Execution.Injection.{inject_as, inject_entities}

-- The indexes of a map are from `lo` on and below `hi`, and no two names share one.
pub record AreIndexes (lo hi : ℕ) (m : List (Text × ℕ)) : Type 0 where
  pub bounds : (name : Text) (i : ℕ) → find Text-discrete name m ≡ some i → (lo ≤ i) × (i < hi)
  pub apart :
      (name other : Text) (i : ℕ)
      → find Text-discrete name m ≡ some i
      → find Text-discrete other m ≡ some i
      → name ≡ other

abbrev or_new : ℕ → Option ℕ → Option ℕ
or_new v o = elim o [ none ↦ some v | some w ↦ some w ]

emplace-AreIndexes :
    (lo hi : ℕ) (name : Text) (m : List (Text × ℕ))
    → lo ≤ hi
    → AreIndexes lo hi m
    → AreIndexes lo (suc hi) (emplace Text-discrete name hi m)
emplace-AreIndexes lo hi name m l w = record {
  bounds = λ n i e. elim (looked n i e) [
    | inl p ↦ (let q = p.1 in omega (arith, q, l), let q = p.1 in omega (arith, q))
    | inr f ↦ let (a, b) = w.bounds n i f in (a, omega (arith, b))
  ];
  apart = λ n k i e f. elim (looked n i e) [
    | inl p ↦ elim (looked k i f) [
      | inl q ↦ sym p.0 ∙ q.0
      | inr g ↦ let (a, b) = w.bounds k i g in let q = p.1 in absurd (omega (arith, b, q))
    ]
    | inr g ↦ elim (looked k i f) [
      | inl q ↦ let (a, b) = w.bounds n i g in let r = q.1 in absurd (omega (arith, b, r))
      | inr h ↦ w.apart n k i g h
    ]
  ];
}
  where
    here :
        (o : Option ℕ) (i : ℕ)
        → find Text-discrete name m ≡ o
        → or_new hi o ≡ some i
        → (i ≡ hi) ⊎ (find Text-discrete name m ≡ some i)
    here none i p e = inl (sym (some_cancel e))
    here (some j) i p e = inr (p ∙ e)

    looked :
        (n : Text) (i : ℕ)
        → find Text-discrete n (emplace Text-discrete name hi m) ≡ some i
        → ((name ≡ n) × (i ≡ hi)) ⊎ (find Text-discrete n m ≡ some i)
    looked n i e = elim (Text-discrete name n) [
      | yes same ↦
          elim (here (find Text-discrete name m) i refl (
            sym (find-emplace_self Text-discrete name hi m)
            ∙ ap (λ (k : Text). find Text-discrete k (emplace Text-discrete name hi m)) same
            ∙ e)) [
              | inl p ↦ inl (same, p)
              | inr f ↦ inr (ap (λ (k : Text). find Text-discrete k m) (sym same) ∙ f)
            ]
      | no other ↦ inr (sym (find-emplace_ne Text-discrete name n hi m other) ∙ e)
    ]

module _ {Real : Type 0} (parts : Parts Real) where
  abbrev X : Type 0
  X = Execution parts

  -- One more simulator, and one more function
  abbrev Added : X → Outcome ℕ → X → Type 0
  Added e (ok i) f =
      (i ≡ length e.simulators)
      × (length f.simulators ≡ suc (length e.simulators))
      × (f.functions ≡ e.functions)
  Added e (err x) f = Unit

  abbrev AddedFunction : X → Outcome ℕ → X → Type 0
  AddedFunction e (ok i) f =
      (i ≡ length e.functions)
      × (length f.functions ≡ suc (length e.functions))
      × (f.simulators ≡ e.simulators)
  AddedFunction e (err x) f = Unit

  abbrev Longer : X → X → Type 0
  Longer e f = (length f.simulators ≡ suc (length e.simulators)) × (f.functions ≡ e.functions)

  for_each-keeps :
      {B : Type 0} (f : B → Method parts.World (Unit {0})) (xs : List B) (e t : X)
      → Longer e t
      → Longer e (for_each parts f xs t).1
  for_each-keeps f xs e t h =
      let (w, p) = for_each-Within parts f xs t in subst (Longer e) (sym p) h

  add_slave-Added :
      (s : parts.Slave) (name : Text) (hint : ℤ) (e : X)
      → let r = add_slave parts s name hint e in Added e r.0 r.1
  unfolding add_slave
  add_slave-Added s name hint e =
      >>=-ends (call parts (parts.new_simulator s name)) created e
        (λ o t. (t.simulators ≡ e.simulators) × (t.functions ≡ e.functions)) (Added e) (refl, refl)
        (λ sim t h.
          >>=-ends (call parts (parts.add_simulator n sim hint)) (λ _. announced sim)
            (with_sim t sim) (λ o u. Longer e u) (Added e) (longer t sim h.0, h.1)
            (λ _ u k.
              >>=-ends
                (for_each parts (λ o. parts.observer_simulator_added o n sim u.current_time)
                  u.observers)
                (λ _.
                  for_each parts (λ m. parts.manipulator_simulator_added m n sim u.current_time)
                    u.manipulators
                  >> pure n)
                u (λ o v. Longer e v) (Added e)
                (for_each-keeps (λ o. parts.observer_simulator_added o n sim u.current_time)
                  u.observers e u k)
                (λ _ v j.
                  >>=-ends
                    (for_each parts (λ m. parts.manipulator_simulator_added m n sim u.current_time)
                      u.manipulators)
                    (λ _. pure n) v (λ o x. Longer e x) (Added e)
                    (for_each-keeps (λ m. parts.manipulator_simulator_added m n sim u.current_time)
                      u.manipulators e v j)
                    (λ _ x l. (refl, l.0, l.1)) (λ _ x l. tt))
                (λ _ v j. tt))
            (λ _ u k. tt))
        (λ x t h. tt)
    where
      n : ℕ
      n = length e.simulators

      with_sim : X → parts.Sim → X
      with_sim t sim = record t { simulators = t.simulators ++ sim ∷ [] }

      longer :
          (t : X) (sim : parts.Sim)
          → t.simulators ≡ e.simulators
          → length (t.simulators ++ sim ∷ []) ≡ suc n
      longer t sim h =
          ap (λ (l : List parts.Sim). length (l ++ sim ∷ [])) h
          ∙ omega (arith, length-append e.simulators (sim ∷ []))

      announced : parts.Sim → E parts ℕ
      announced sim u =
          (for_each parts (λ o. parts.observer_simulator_added o n sim u.current_time) u.observers
              >> (for_each parts (λ m. parts.manipulator_simulator_added m n sim u.current_time)
                    u.manipulators
                  >> pure n))
            u

      created : parts.Sim → E parts ℕ
      created sim t =
          (call parts (parts.add_simulator n sim hint) >> announced sim) (with_sim t sim)

  add_function-Added :
      (g : parts.Fun) (e : X) → let r = add_function parts g e in AddedFunction e r.0 r.1
  unfolding add_function
  add_function-Added g e =
      >>=-ends (call parts (parts.algorithm_add_function (length e.functions) g))
        (λ _. pure (length e.functions)) (record e { functions = e.functions ++ g ∷ [] })
        (λ o f. (length f.functions ≡ suc (length e.functions)) × (f.simulators ≡ e.simulators))
        (AddedFunction e) (omega (arith, length-append e.functions (g ∷ [])), refl)
        (λ u t h. (refl, h.0, h.1)) (λ x t h. tt)

  -- The indexes that were given to the entities since `e`
  pub record AreGiven (e : X) (maps : EntityIndexMaps) (f : X) : Type 0 where
    pub simulators : AreIndexes (length e.simulators) (length f.simulators) maps.simulators
    pub functions : AreIndexes (length e.functions) (length f.functions) maps.functions
    pub more_simulators : length e.simulators ≤ length f.simulators
    pub more_functions : length e.functions ≤ length f.functions

  abbrev pub Given : X → Outcome EntityIndexMaps → X → Type 0
  Given e (ok maps) f = AreGiven e maps f
  Given e (err x) f = Unit

  add_simulator_index :
      (e : X) (maps : EntityIndexMaps) (t f : X) (name : Text) (i : ℕ)
      → AreGiven e maps t
      → Added t (ok i) f
      → AreGiven e (record maps { simulators = emplace Text-discrete name i maps.simulators }) f
  add_simulator_index e maps t f name i g a = record {
    simulators =
        subst
          (λ (n : ℕ).
            AreIndexes (length e.simulators) n (emplace Text-discrete name i maps.simulators))
          (sym a.1)
          (subst
            (λ (j : ℕ).
              AreIndexes (length e.simulators) (suc (length t.simulators))
                (emplace Text-discrete name j maps.simulators))
            (sym a.0)
            (emplace-AreIndexes (length e.simulators) (length t.simulators) name maps.simulators
              g.more_simulators g.simulators));
    functions =
        subst (λ (l : List parts.Fun). AreIndexes (length e.functions) (length l) maps.functions)
          (sym a.2) g.functions;
    more_simulators = let l = g.more_simulators in let q = a.1 in omega (arith, l, q);
    more_functions =
        subst (λ (l : List parts.Fun). length e.functions ≤ length l) (sym a.2) g.more_functions;
  }

  add_function_index :
      (e : X) (maps : EntityIndexMaps) (t f : X) (name : Text) (i : ℕ)
      → AreGiven e maps t
      → AddedFunction t (ok i) f
      → AreGiven e (record maps { functions = emplace Text-discrete name i maps.functions }) f
  add_function_index e maps t f name i g a = record {
    functions =
        subst
          (λ (n : ℕ).
            AreIndexes (length e.functions) n (emplace Text-discrete name i maps.functions))
          (sym a.1)
          (subst
            (λ (j : ℕ).
              AreIndexes (length e.functions) (suc (length t.functions))
                (emplace Text-discrete name j maps.functions))
            (sym a.0)
            (emplace-AreIndexes (length e.functions) (length t.functions) name maps.functions
              g.more_functions g.functions));
    simulators =
        subst (λ (l : List parts.Sim). AreIndexes (length e.simulators) (length l) maps.simulators)
          (sym a.2) g.simulators;
    more_functions = let l = g.more_functions in let q = a.1 in omega (arith, l, q);
    more_simulators =
        subst (λ (l : List parts.Sim). length e.simulators ≤ length l) (sym a.2) g.more_simulators;
  }

  module _ (instantiate : ModelDescription Real → Text → Method parts.World parts.Slave)
      (instantiate_function : FunctionTypeDescription Real
        → ParameterValues Real
        → Method parts.World parts.Fun) where
    inject_as-Given :
        (k : EntityType Real) (entity : Entity Real) (maps : EntityIndexMaps) (e t : X)
        → AreGiven e maps t
        → let r = inject_as parts instantiate instantiate_function k entity maps t in
          Given e r.0 r.1
    unfolding inject_as
    inject_as-Given (model m) entity maps e t g =
        >>=-ends (call parts (instantiate m entity.name))
          (λ slave. do
            index ← add_slave parts slave entity.name entity.step_size_hint
            pure (record maps {
              simulators = emplace Text-discrete entity.name index maps.simulators;
            }))
          t (λ o u. AreGiven e maps u) (Given e) (moved (instantiate m entity.name))
          (λ slave u h.
            >>=-ends (add_slave parts slave entity.name entity.step_size_hint)
              (λ index. pure (record maps {
                simulators = emplace Text-discrete entity.name index maps.simulators;
              }))
              u (Added u) (Given e) (add_slave-Added slave entity.name entity.step_size_hint u)
              (λ i v a. add_simulator_index e maps u v entity.name i h a) (λ x v a. tt))
          (λ x u h. tt)
      where
        moved : {B : Type 0} (m : Method parts.World B) → AreGiven e maps (call parts m t).1
        moved m = record {
          simulators = g.simulators;
          functions = g.functions;
          more_simulators = g.more_simulators;
          more_functions = g.more_functions;
        }
    inject_as-Given (function_type k) entity maps e t g =
        >>=-ends (call parts (instantiate_function k entity.parameter_values))
          (λ function. do
            index ← add_function parts function
            pure (record maps {
              functions = emplace Text-discrete entity.name index maps.functions;
            }))
          t (λ o u. AreGiven e maps u) (Given e)
          (moved (instantiate_function k entity.parameter_values))
          (λ function u h.
            >>=-ends (add_function parts function)
              (λ index. pure (record maps {
                functions = emplace Text-discrete entity.name index maps.functions;
              }))
              u (AddedFunction u) (Given e) (add_function-Added function u)
              (λ i v a. add_function_index e maps u v entity.name i h a) (λ x v a. tt))
          (λ x u h. tt)
      where
        moved : {B : Type 0} (m : Method parts.World B) → AreGiven e maps (call parts m t).1
        moved m = record {
          simulators = g.simulators;
          functions = g.functions;
          more_simulators = g.more_simulators;
          more_functions = g.more_functions;
        }

    pub inject_entities-Given :
        (entities : List (Text × Entity Real)) (maps : EntityIndexMaps) (e t : X)
        → AreGiven e maps t
        → let r = inject_entities parts instantiate instantiate_function entities maps t in
          Given e r.0 r.1
    unfolding inject_entities
    inject_entities-Given [] maps e t g = g
    inject_entities-Given ((name, entity) ∷ entities) maps e t g =
        >>=-ends (inject_as parts instantiate instantiate_function entity.type entity maps)
          (inject_entities parts instantiate instantiate_function entities) t (Given e) (Given e)
          (inject_as-Given entity.type entity maps e t g)
          (λ next u h. inject_entities-Given entities next e u h) (λ x u h. tt)

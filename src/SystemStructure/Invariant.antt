-- ===== src/SystemStructure/Invariant.antt =====
-- The systems that `add_entity` and `connect_variables` build, and what holds of all of them.
use libcosim.Base.{true-ne-false}
use mathlib.Core.Path.{subst}
use libcosim.Base.{
  Bool, true, false, not, List, [], ◌∷◌, none, some, ◌≡◌, ◌≢◌, refl, sym, ap, ◌∙◌, if◌then◌else◌,
  ite-both, inl, inr,
}
use libcosim.Base.Int.{ℤ, pos, lt_ℤ}
use libcosim.Base.Outcome.{
  guard-true, ok_cancel, Outcome-cases, Failure, ok, err, invalid_system_structure, guard,
  >>=-eq-ok,
}
use libcosim.Base.Assoc.{
  find, contains, emplace, find-emplace_self, find-emplace_ne, contains-find, find-of_absent,
}
use libcosim.Model.{Text}
use libcosim.SystemStructure.Defs.{
  Text-discrete, FullVariableName, FullVariableName-discrete, EntityType, model, function_type,
  Entity, SystemStructure,
}
use libcosim.SystemStructure.Operations.{
  is_named, empty, cache_model, cache_entity, add_entity, is_valid, connect_variables,
}
use libcosim.SystemStructure.Growth.{Grows, is_valid-Grows, add_entity-Grows}

not-true : {b : Bool} → not b ≡ true → b ≡ false
not-true {b = true} h = cc
not-true {b = false} h = refl

module _ {Real : Type 0} where
  abbrev HintIsValid : EntityType Real → ℤ → Type 0
  HintIsValid (model m) hint = lt_ℤ hint (pos 0) ≡ false
  HintIsValid (function_type f) hint = Unit {0}

  -- An entity stands under its own name, which is not empty; a simulator's step size is not negative.
  abbrev pub EntitiesAreValid : List (Text × Entity Real) → Type 0
  EntitiesAreValid [] = Unit {0}
  EntitiesAreValid ((name, e) ∷ rest) =
      ((name ≡ e.name) × (is_named name ≡ true) × HintIsValid e.type e.step_size_hint)
      × EntitiesAreValid rest

  -- The checks of `connect_variables` hold of every connection.
  abbrev pub AllAreValid :
      List (FullVariableName × FullVariableName) → SystemStructure Real → Type 0
  AllAreValid [] s = Unit {0}
  AllAreValid ((target, source) ∷ rest) s =
      (is_valid s source target ≡ ok true) × AllAreValid rest s

  abbrev pub IsWellFormed : SystemStructure Real → Type 0
  IsWellFormed s = EntitiesAreValid s.entities × AllAreValid s.connections s

  -- A system built by the two methods
  pub data Built : SystemStructure Real → Type 0 where
    start : Built (empty Real)
    adding :
        {s t : SystemStructure Real} (e : Entity Real) → Built s → add_entity e s ≡ ok t → Built t
    connecting :
        {s t : SystemStructure Real} (source target : FullVariableName)
        → Built s
        → connect_variables source target s ≡ ok t
        → Built t

  AllAreValid-Grows :
      (cs : List (FullVariableName × FullVariableName)) (s t : SystemStructure Real)
      → Grows s t
      → AllAreValid cs s
      → AllAreValid cs t
  AllAreValid-Grows [] s t g h = tt
  AllAreValid-Grows ((target, source) ∷ cs) s t g h =
      (is_valid-Grows source target s t g h.0, AllAreValid-Grows cs s t g h.1)

  AllAreValid-emplace :
      (source target : FullVariableName) (cs : List (FullVariableName × FullVariableName))
      (s : SystemStructure Real)
      → is_valid s source target ≡ ok true
      → AllAreValid cs s
      → AllAreValid (emplace FullVariableName-discrete target source cs) s
  unfolding emplace
  AllAreValid-emplace source target [] s v h = (v, tt)
  AllAreValid-emplace source target ((k, x) ∷ cs) s v h =
      let rest = emplace FullVariableName-discrete target source cs in
      ite-both (FullVariableName-discrete k target) (λ m. AllAreValid m s) ((k, x) ∷ cs)
        ((k, x) ∷ rest) h (h.0, AllAreValid-emplace source target cs s v h.1)

  EntitiesAreValid-emplace :
      (e : Entity Real) (es : List (Text × Entity Real))
      → is_named e.name ≡ true
      → HintIsValid e.type e.step_size_hint
      → EntitiesAreValid es
      → EntitiesAreValid (emplace Text-discrete e.name e es)
  unfolding emplace
  EntitiesAreValid-emplace e [] n v h = ((refl, n, v), tt)
  EntitiesAreValid-emplace e ((k, x) ∷ es) n v h =
      let rest = emplace Text-discrete e.name e es in
      ite-both (Text-discrete k e.name) EntitiesAreValid ((k, x) ∷ es) ((k, x) ∷ rest) h
        (h.0, EntitiesAreValid-emplace e es n v h.1)

  cache_entity-HintIsValid :
      (type : EntityType Real) (e : Entity Real) (s : SystemStructure Real)
      {t : SystemStructure Real}
      → cache_entity type e s ≡ ok t
      → HintIsValid type e.step_size_hint
  unfolding cache_entity
  cache_entity-HintIsValid (model m) e s {t} h = go (lt_ℤ e.step_size_hint (pos 0)) h
    where
      go :
          (b : Bool)
          → (if b then err invalid_system_structure else ok (cache_model m s)) ≡ ok t
          → b ≡ false
      go true k = cc
      go false k = refl
  cache_entity-HintIsValid (function_type f) e s h = tt

  add_entity-IsWellFormed :
      (e : Entity Real) (s : SystemStructure Real) {t : SystemStructure Real}
      → add_entity e s ≡ ok t
      → IsWellFormed s
      → IsWellFormed t
  unfolding add_entity
  add_entity-IsWellFormed e s {t} h w =
      let (_, named, h₁) = >>=-eq-ok (guard (is_named e.name) invalid_system_structure) _ h in
      let (_, fresh, h₂) =
        >>=-eq-ok (guard (not (contains Text-discrete e.name s.entities)) invalid_system_structure)
          _ h₁ in
      let (u, cached, h₃) = >>=-eq-ok (cache_entity e.type e s) _ h₂ in
      let (g, same, entities) = add_entity-Grows e s h in
      (
        subst EntitiesAreValid (sym entities) (
            EntitiesAreValid-emplace e s.entities
              (guard-true (is_named e.name) invalid_system_structure named)
              (cache_entity-HintIsValid e.type e s cached) w.0),
        subst (λ cs. AllAreValid cs t) (sym same) (AllAreValid-Grows s.connections s t g w.1),
      )

  connect_variables-eq :
      (source target : FullVariableName) (s : SystemStructure Real) {t : SystemStructure Real}
      → connect_variables source target s ≡ ok t
      → (is_valid s source target ≡ ok true)
        × (contains FullVariableName-discrete target s.connections ≡ false)
        × (t ≡ record s {
          connections = emplace FullVariableName-discrete target source s.connections;
        })
  unfolding connect_variables
  connect_variables-eq source target s h =
      let (valid, v, h₁) = >>=-eq-ok (is_valid s source target) _ h in
      let (_, holds, h₂) = >>=-eq-ok (guard valid invalid_system_structure) _ h₁ in
      let (_, fresh, h₃) =
        >>=-eq-ok
          (guard (not (contains FullVariableName-discrete target s.connections))
            invalid_system_structure)
          _ h₂ in
      (
        v ∙ ap ok (guard-true valid invalid_system_structure holds),
        not-true (
            guard-true (not (contains FullVariableName-discrete target s.connections))
              invalid_system_structure fresh),
        sym (ok_cancel h₃),
      )

  -- The lookups do not read the connections.
  is_valid-put :
      (s : SystemStructure Real) (m : List (FullVariableName × FullVariableName))
      → Grows s (record s { connections = m })
  is_valid-put s m = (λ k v h. h, λ k v h. h, λ k v h. h)

  connect_variables-IsWellFormed :
      (source target : FullVariableName) (s : SystemStructure Real) {t : SystemStructure Real}
      → connect_variables source target s ≡ ok t
      → IsWellFormed s
      → IsWellFormed t
  connect_variables-IsWellFormed source target s {t} h w =
      let (valid, fresh, p) = connect_variables-eq source target s h in
      let m = emplace FullVariableName-discrete target source s.connections in
      let u : SystemStructure Real = record s { connections = m } in
      subst IsWellFormed (sym p) (
        w.0,
        AllAreValid-Grows m s u (is_valid-put s m)
            (AllAreValid-emplace source target s.connections s valid w.1),
      )

  -- In every system that the two methods build, the checks of `connect_variables` hold of every
  -- connection, though entities were added since, every entity stands under its own nonempty name,
  -- and no simulator has a negative step size hint.
  pub Built-IsWellFormed : (s : SystemStructure Real) → Built s → IsWellFormed s
  Built-IsWellFormed s start = (tt, tt)
  Built-IsWellFormed t (adding {s} e b h) = add_entity-IsWellFormed e s h (Built-IsWellFormed s b)
  Built-IsWellFormed t (connecting {s} source target b h) =
      connect_variables-IsWellFormed source target s h (Built-IsWellFormed s b)

  -- After a connection its target is connected to its source, every other target to what it was, and
  -- connecting the target again, from any source, throws.
  pub connect_variables_lem :
      (source target : FullVariableName) (s : SystemStructure Real) {t : SystemStructure Real}
      (other again : FullVariableName)
      → connect_variables source target s ≡ ok t
      → target ≢ other
      → (find FullVariableName-discrete target t.connections ≡ some source)
        × (find FullVariableName-discrete other t.connections
            ≡ find FullVariableName-discrete other s.connections)
        × ((x : Failure) × (connect_variables again target t ≡ err x))
  connect_variables_lem source target s {t} other again h n =
      let (valid, fresh, p) = connect_variables-eq source target s h in
      let d = FullVariableName-discrete in
      let here : find d target t.connections ≡ some source =
        ap (λ (y : SystemStructure Real). find d target y.connections) p
        ∙ find-emplace_self d target source s.connections
        ∙ ap (λ o. elim o [ none ↦ some source | some w ↦ some w ])
            (find-of_absent d target s.connections fresh) in
      (
        here,
        ap (λ (y : SystemStructure Real). find d other y.connections) p
            ∙ find-emplace_ne d target other source s.connections n,
        elim (Outcome-cases (connect_variables again target t)) [
          | inl (u, e) ↦ absurd (
              true-ne-false (
                sym (contains-find d target t.connections here)
                ∙ (connect_variables-eq again target t e).1))
          | inr (x, e) ↦ (x, e)
        ],
      )

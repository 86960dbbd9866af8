-- ===== src/SystemStructure/Growth.antt =====
-- What adding an entity keeps: every lookup that succeeded gives the same.
use libcosim.Base.{Bool, true, false, not, some, ◌≡◌, refl, if◌then◌else◌}
use libcosim.Base.Int.{pos, lt_ℤ}
use libcosim.Base.Outcome.{
  ok_cancel, of_option-ok, Outcome, ok, err, out_of_range, invalid_system_structure, of_option,
  guard, >>=-eq-ok,
}
use libcosim.Base.Assoc.{find, contains, assign, emplace, find-emplace_found, find-assign_found}
use libcosim.Model.{Text, VariableDescription}
use libcosim.Function.Description.{FunctionDescription}
use libcosim.Function.Substitute.{substitute_function_parameters}
use libcosim.SystemStructure.Defs.{
  Text-discrete, FullVariableName, is_simulator_variable, FunctionIo, FunctionInfo, EntityType,
  model, function_type, Entity, ModelInfo, SystemStructure, make_variable_lookup_table,
  make_io_lookup_table,
}
use libcosim.SystemStructure.Operations.{
  is_named, cache_model, cache_entity, enter, add_entity, variable_in, get_variable_description,
  io_in, get_function_io_description, is_valid_as, is_valid,
}

module _ {Real : Type 0} where
  abbrev pub Grows : SystemStructure Real → SystemStructure Real → Type 0
  Grows s t =
      ((k : Text) (v : Entity Real)
        → find Text-discrete k s.entities ≡ some v
        → find Text-discrete k t.entities ≡ some v)
      × ((k : Text) (v : ModelInfo Real)
          → find Text-discrete k s.model_cache ≡ some v
          → find Text-discrete k t.model_cache ≡ some v)
      × ((k : Text) (v : FunctionInfo)
          → find Text-discrete k s.function_cache ≡ some v
          → find Text-discrete k t.function_cache ≡ some v)

  variable_in-Grows :
      (type : EntityType Real) (name : Text) (s t : SystemStructure Real)
      {d : VariableDescription Real}
      → Grows s t
      → variable_in type name s ≡ ok d
      → variable_in type name t ≡ ok d
  unfolding variable_in
  variable_in-Grows (model m) name s t g h =
      let (info, e, k) =
        >>=-eq-ok (of_option out_of_range (find Text-discrete m.uuid s.model_cache)) _ h in
      rw (g.1 m.uuid info (of_option-ok out_of_range _ e)) k
  variable_in-Grows (function_type f) name s t g h = cc

  get_variable_description-Grows :
      (v : FullVariableName) (s t : SystemStructure Real) {d : VariableDescription Real}
      → Grows s t
      → get_variable_description s v ≡ ok d
      → get_variable_description t v ≡ ok d
  unfolding get_variable_description
  get_variable_description-Grows v s t g h =
      let (x, e, k) =
        >>=-eq-ok (of_option invalid_system_structure (find Text-discrete v.entity_name s.entities))
          _ h in
      rw (g.0 v.entity_name x (of_option-ok invalid_system_structure _ e))
        (variable_in-Grows x.type v.variable_name s t g k)

  io_in-Grows :
      (type : EntityType Real) (v : FullVariableName) (s t : SystemStructure Real) {io : FunctionIo}
      → Grows s t
      → io_in type v s ≡ ok io
      → io_in type v t ≡ ok io
  unfolding io_in
  io_in-Grows (model m) v s t g h = cc
  io_in-Grows (function_type f) v s t g h =
      let (info, e, k) =
        >>=-eq-ok (of_option out_of_range (find Text-discrete v.entity_name s.function_cache)) _
          h in
      rw (g.2 v.entity_name info (of_option-ok out_of_range _ e)) k

  get_function_io_description-Grows :
      (v : FullVariableName) (s t : SystemStructure Real) {io : FunctionIo}
      → Grows s t
      → get_function_io_description s v ≡ ok io
      → get_function_io_description t v ≡ ok io
  unfolding get_function_io_description
  get_function_io_description-Grows v s t g h =
      let (x, e, k) =
        >>=-eq-ok (of_option invalid_system_structure (find Text-discrete v.entity_name s.entities))
          _ h in
      rw (g.0 v.entity_name x (of_option-ok invalid_system_structure _ e))
        (io_in-Grows x.type v s t g k)

  is_valid_as-Grows :
      (p q : Bool) (a b : FullVariableName) (s t : SystemStructure Real) {r : Bool}
      → Grows s t
      → is_valid_as p q s a b ≡ ok r
      → is_valid_as p q t a b ≡ ok r
  unfolding is_valid_as
  is_valid_as-Grows true true a b s t g h =
      let (x, e, k) = >>=-eq-ok (get_variable_description s a) _ h in
      let (y, f, l) = >>=-eq-ok (get_variable_description s b) _ k in
      rw (get_variable_description-Grows a s t g e, get_variable_description-Grows b s t g f) l
  is_valid_as-Grows true false a b s t g h =
      let (x, e, k) = >>=-eq-ok (get_variable_description s a) _ h in
      let (y, f, l) = >>=-eq-ok (get_function_io_description s b) _ k in
      rw (get_variable_description-Grows a s t g e, get_function_io_description-Grows b s t g f) l
  is_valid_as-Grows false q a b s t g h =
      let (x, e, k) = >>=-eq-ok (get_function_io_description s a) _ h in
      let (y, f, l) = >>=-eq-ok (get_variable_description s b) _ k in
      rw (get_function_io_description-Grows a s t g e, get_variable_description-Grows b s t g f) l

  pub is_valid-Grows :
      (a b : FullVariableName) (s t : SystemStructure Real) {r : Bool}
      → Grows s t
      → is_valid s a b ≡ ok r
      → is_valid t a b ≡ ok r
  unfolding is_valid
  is_valid-Grows a b s t g h =
      is_valid_as-Grows (is_simulator_variable a) (is_simulator_variable b) a b s t g h

  cache_entity-Grows :
      (type : EntityType Real) (e : Entity Real) (s : SystemStructure Real)
      {t : SystemStructure Real}
      → cache_entity type e s ≡ ok t
      → Grows s t × (t.connections ≡ s.connections) × (t.entities ≡ s.entities)
  unfolding cache_entity cache_model
  cache_entity-Grows (model m) e s {t} h = by_hint (lt_ℤ e.step_size_hint (pos 0)) h
    where
      cached :
          (b : Bool)
          → contains Text-discrete m.uuid s.model_cache ≡ b
          → (let u : SystemStructure Real = if b then s else record s {
            model_cache = assign Text-discrete m.uuid (make_variable_lookup_table m) s.model_cache;
          } in
              Grows s u × (u.connections ≡ s.connections) × (u.entities ≡ s.entities))
      cached true n = ((λ k v h. h, λ k v h. h, λ k v h. h), refl, refl)
      cached false n = (
        (
          λ k v h. h,
          λ k v h.
              find-assign_found Text-discrete m.uuid k (make_variable_lookup_table m) s.model_cache
                n h,
          λ k v h. h,
        ),
        refl,
        refl,
      )

      by_hint :
          (b : Bool)
          → (if b then err invalid_system_structure else ok (cache_model m s)) ≡ ok t
          → Grows s t × (t.connections ≡ s.connections) × (t.entities ≡ s.entities)
      by_hint true h = cc
      by_hint false h =
          rw (← ok_cancel h) (cached (contains Text-discrete m.uuid s.model_cache) refl)
  cache_entity-Grows (function_type f) e s {t} h =
      go (substitute_function_parameters f e.parameter_values) h
    where
      go :
          (o : Outcome FunctionDescription)
          → elim o [
            | err x ↦ err invalid_system_structure
            | ok d ↦ ok (record s {
              function_cache =
                  emplace Text-discrete e.name
                    (record { description = d; ios = make_io_lookup_table d })
                    s.function_cache;
            })
          ]
            ≡ ok t
          → Grows s t × (t.connections ≡ s.connections) × (t.entities ≡ s.entities)
      go (err x) h = cc
      go (ok d) h =
          let info : FunctionInfo = record { description = d; ios = make_io_lookup_table d } in
          rw (← ok_cancel h) (
            (
              λ k v g. g,
              λ k v g. g,
              λ k v g. find-emplace_found Text-discrete e.name k info s.function_cache g,
            ),
            refl,
            refl,
          )

  -- Adding an entity keeps the connections and every lookup that gave something.
  pub add_entity-Grows :
      (e : Entity Real) (s : SystemStructure Real) {t : SystemStructure Real}
      → add_entity e s ≡ ok t
      → Grows s t
        × (t.connections ≡ s.connections)
        × (t.entities ≡ emplace Text-discrete e.name e s.entities)
  unfolding add_entity enter
  add_entity-Grows e s h =
      let (_, named, h₁) = >>=-eq-ok (guard (is_named e.name) invalid_system_structure) _ h in
      let (_, fresh, h₂) =
        >>=-eq-ok (guard (not (contains Text-discrete e.name s.entities)) invalid_system_structure)
          _ h₁ in
      let (u, cached, h₃) = >>=-eq-ok (cache_entity e.type e s) _ h₂ in
      let (g, same, entities) = cache_entity-Grows e.type e s cached in
      rw (← ok_cancel h₃, same, entities)
        ((λ k v l. find-emplace_found Text-discrete e.name k e s.entities l, g.1, g.2), refl, refl)

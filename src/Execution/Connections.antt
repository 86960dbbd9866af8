-- ===== src/Execution/Connections.antt =====
-- What a connection leaves in the maps of an execution.
use libcosim.Base.{true-ne-false}
use libcosim.Base.{Bool, true, false, not, List, [], ◌∷◌, ◌≡◌, ◌≢◌, refl, sym, ap, ◌∙◌, arith}
use libcosim.Base.Outcome.{Outcome, Failure, ok, err, guard, logic_error}
use libcosim.Base.Method.{Method, ◌>>◌, continue, modify}
use libcosim.Base.Assoc.{emplace, contains}
use libcosim.Model.{input, output}
use libcosim.Algorithm.Defs.{VariableId, FunctionIoId, VariableId-discrete, FunctionIoId-discrete}
use libcosim.Execution.Defs.{
  Parts, Execution, E, call, checked, validate_variable, validate_function_io,
  connect_variables_impl, connect_variables_ss, connect_variables_sf, connect_variables_fs,
}
use libcosim.Execution.Steps.{Within}

contains-emplace_self :
    {K V : Type 0} (d : Discrete K) (k : K) (v : V) (m : List (K × V))
    → contains d k (emplace d k v m) ≡ true
unfolding contains emplace
contains-emplace_self d k v [] = ground arith
contains-emplace_self d k v ((j, w) ∷ m) = ground (arith, contains-emplace_self d k v m)

err_ok : {A : Type 0} {x : Failure} {a : A} → err x ≢ ok a
err_ok e = cc

module _ {Real : Type 0} (parts : Parts Real) where
  abbrev X : Type 0
  X = Execution parts

  module _ {Source Target : Type 0} (d : Discrete Target) (get : X → List (Target × Source))
      (put : List (Target × Source) → X → X) (source_valid : Source → X → Outcome (Unit {0}))
      (target_valid : Target → X → Outcome (Unit {0}))
      (connect : Source → Target → Method parts.World (Unit {0})) where
    abbrev connecting : Source → Target → E parts (Unit {0})
    connecting = connect_variables_impl parts d get put source_valid target_valid connect

    -- A new connection is entered; a failure changes the shared objects only, and nothing at all if
    -- the target is connected already.
    abbrev ConnectEnds : Source → Target → X → Outcome (Unit {0}) → X → Type 0
    ConnectEnds source target e (ok u) f =
        (contains d target (get e) ≡ false)
        × (w : parts.World) × (f
            ≡ (let g : X = record e { world = w } in put (emplace d target source (get g)) g))
    ConnectEnds source target e (err x) f =
        Within parts e f × ((contains d target (get e) ≡ true) → f ≡ e)

    connecting-ends :
        (source : Source) (target : Target) (e : X)
        → ConnectEnds source target e (connecting source target e).0 (connecting source target e).1
    unfolding connect_variables_impl
    connecting-ends source target e = go (source_valid source e)
      where
        last : E parts (Unit {0})
        last =
            call parts (connect source target)
            >> modify (λ e. put (emplace d target source (get e)) e)

        entered :
            (o : Outcome (Unit {0})) (w : parts.World)
            → contains d target (get e) ≡ false
            → (let r =
                  continue o
                    (record e { world = w })
                    (λ _. modify (λ f. put (emplace d target source (get f)) f)) in
                ConnectEnds source target e r.0 r.1)
        entered (ok u) w h = (h, w, refl)
        entered (err x) w h = ((w, refl), λ t. absurd (true-ne-false (sym t ∙ h)))

        fresh : E parts (Unit {0})
        fresh = checked parts (λ f. guard (not (contains d target (get f))) logic_error) >> last

        tested :
            (b : Bool)
            → contains d target (get e) ≡ b
            → (let r = continue (guard (not b) logic_error) e (λ _. last) in
                ConnectEnds source target e r.0 r.1)
        tested true h = ((e.world, refl), λ t. refl)
        tested false h =
            entered (connect source target e.world).0 (connect source target e.world).1 h

        to_target :
            (p : Outcome (Unit {0}))
            → (let r = continue p e (λ _. fresh) in ConnectEnds source target e r.0 r.1)
        to_target (err x) = ((e.world, refl), λ t. refl)
        to_target (ok v) = tested (contains d target (get e)) refl

        go :
            (o : Outcome (Unit {0}))
            → (let r = continue o e (λ _. checked parts (target_valid target) >> fresh) in
                ConnectEnds source target e r.0 r.1)
        go (err x) = ((e.world, refl), λ t. refl)
        go (ok u) = to_target (target_valid target e)

    refused :
        (other : Source) (target : Target) (f : X) (r : Outcome (Unit {0})) (g : X)
        → ConnectEnds other target f r g
        → contains d target (get f) ≡ true
        → (x : Failure) × ◌≡◌ {A = Outcome (Unit {0}) × X} (r, g) (err x, f)
    refused other target f (ok u) g (free, w, p) there = absurd (true-ne-false (sym there ∙ free))
    refused other target f (err x) g (within, same) there = (x, ap (λ y. (err x, y)) (same there))

    entered-target :
        (source : Source) (target : Target) (e f : X) (r : Outcome (Unit {0})) (g : X)
        → ((m : List (Target × Source)) (g : X) → get (put m g) ≡ m)
        → ConnectEnds source target e r g
        → ◌≡◌ {A = Outcome (Unit {0}) × X} (r, g) (ok tt, f)
        → contains d target (get f) ≡ true
    entered-target source target e f (err x) g law ends h = absurd (err_ok (ap (λ y. y.0) h))
    entered-target source target e f (ok u) g law (free, w, p) h =
        let g₁ : X = record e { world = w } in
        rw (sym (ap (λ y. y.1) h) ∙ p, law (emplace d target source (get g₁)) g₁)
          (contains-emplace_self d target source (get g₁))

    -- A second connection to the same target
    connecting-again :
        (source other : Source) (target : Target) (e : X) {f : X}
        → ((m : List (Target × Source)) (g : X) → get (put m g) ≡ m)
        → connecting source target e ≡ (ok tt, f)
        → (x : Failure) × (connecting other target f ≡ (err x, f))
    connecting-again source other target e {f} law h =
        let r = connecting source target e in
        let again = connecting other target f in
        refused other target f again.0 again.1 (connecting-ends other target f)
          (entered-target source target e f r.0 r.1 law (connecting-ends source target e) h)

  -- Once an input is connected, another connection to it, of the same kind and from any output,
  -- throws and changes nothing.
  pub connect_variables_again :
      (e : X) {f g h : X} (source source₁ : VariableId) (io_source io_source₁ : FunctionIoId)
      (target : VariableId) (io : FunctionIoId)
      → connect_variables_ss parts source target e ≡ (ok tt, f)
      → connect_variables_sf parts source io e ≡ (ok tt, g)
      → connect_variables_fs parts io_source target e ≡ (ok tt, h)
      → ((x : Failure) × (connect_variables_ss parts source₁ target f ≡ (err x, f)))
        × ((x : Failure) × (connect_variables_sf parts source₁ io g ≡ (err x, g)))
        × ((x : Failure) × (connect_variables_fs parts io_source₁ target h ≡ (err x, h)))
  unfolding connect_variables_ss connect_variables_sf connect_variables_fs
  connect_variables_again e source source₁ io_source io_source₁ target io a b c = (
    connecting-again VariableId-discrete (λ y. y.ss_connections)
        (λ m y. record y { ss_connections = m }) (λ v. validate_variable parts v output)
        (λ v. validate_variable parts v input) parts.connect_ss source source₁ target e
        (λ m y. refl) a,
    connecting-again FunctionIoId-discrete (λ y. y.sf_connections)
        (λ m y. record y { sf_connections = m }) (λ v. validate_variable parts v output)
        (λ v. validate_function_io parts v input) parts.connect_sf source source₁ io e (λ m y. refl)
        b,
    connecting-again VariableId-discrete (λ y. y.fs_connections)
        (λ m y. record y { fs_connections = m }) (λ v. validate_function_io parts v output)
        (λ v. validate_variable parts v input) parts.connect_fs io_source io_source₁ target e
        (λ m y. refl) c,
  )

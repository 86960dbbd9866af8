-- ===== src/Function/Parameters.antt =====
-- What substitute_function_parameters() promises of the description that it returns.
use mathlib.Core.Path.{ap₂}
use libcosim.Base.{List, [], ◌∷◌, ◌≡◌, refl, ap}
use libcosim.Base.Int.{ℤ}
use libcosim.Base.Outcome.{ok_cancel, ok, >>=-eq-ok}
use libcosim.Model.{Causality, Text, VariableType}
use libcosim.Function.Description.{
  ParameterValues, ParameterDescription, Field, value, placeholder, IoDescription,
  IoGroupDescription, FunctionDescription, FunctionTypeDescription,
}
use libcosim.Function.Substitute.{
  replace_placeholder, substitute_io, substitute_ios, substitute_groups,
  substitute_function_parameters, as_integer, as_type, check_integer, check_nothing,
}

-- A field with a value of its own
abbrev IsValue : {T : Type 0} → Field T → Type 0
IsValue (value x) = Unit {0}
IsValue (placeholder i) = ⊥

-- Names and causalities, by group
abbrev pub io_shape : List IoDescription → List (Text × Causality)
io_shape [] = []
io_shape (io ∷ ios) = (io.name, io.causality) ∷ io_shape ios

abbrev pub shape : List IoGroupDescription → List (Text × List (Text × Causality))
shape [] = []
shape (g ∷ gs) = (g.name, io_shape g.ios) ∷ shape gs

abbrev pub IoIsConcrete : IoDescription → Type 0
IoIsConcrete io = IsValue io.type × IsValue io.count

abbrev pub AllConcrete : List IoDescription → Type 0
AllConcrete [] = Unit {0}
AllConcrete (io ∷ ios) = IoIsConcrete io × AllConcrete ios

abbrev pub GroupsConcrete : List IoGroupDescription → Type 0
GroupsConcrete [] = Unit {0}
GroupsConcrete (g ∷ gs) = (IsValue g.count × AllConcrete g.ios) × GroupsConcrete gs

head_cancel : {A : Type 0} {x y : A} {xs ys : List A} → ok (x ∷ xs) ≡ ok (y ∷ ys) → x ≡ y
head_cancel e = cc

module _ {Real : Type 0} where
  -- Where there is no placeholder nothing is replaced, whatever the parameters.
  module _ (vs : ParameterValues Real) (ds : List (ParameterDescription Real)) where
    keeps_fields :
        (name : Text) (t : Field VariableType) (c : Causality) (n : Field ℤ)
        → IsValue t
        → IsValue n
        → (let io : IoDescription = record { name = name; type = t; causality = c; count = n } in
            substitute_io vs ds io ≡ ok io)
    unfolding substitute_io replace_placeholder
    keeps_fields name (value t) c (value n) u v = refl
    keeps_fields name (placeholder i) c n u v = absurd u
    keeps_fields name (value t) c (placeholder i) u v = absurd v

    keeps_io : (io : IoDescription) → IoIsConcrete io → substitute_io vs ds io ≡ ok io
    keeps_io io h = keeps_fields io.name io.type io.causality io.count h.0 h.1

    keeps_ios : (ios : List IoDescription) → AllConcrete ios → substitute_ios vs ds ios ≡ ok ios
    unfolding substitute_ios
    keeps_ios [] h = refl
    keeps_ios (io ∷ ios) h = rw (keeps_io io h.0, keeps_ios ios h.1) refl

    keeps_count :
        (name : Text) (n : Field ℤ) (ios : List IoDescription)
        → IsValue n
        → AllConcrete ios
        → (let g : IoGroupDescription = record { name = name; count = n; ios = ios } in
            substitute_groups vs ds (g ∷ []) ≡ ok (g ∷ []))
    unfolding substitute_groups replace_placeholder
    keeps_count name (value x) ios h c = rw (keeps_ios ios c) refl
    keeps_count name (placeholder i) ios h c = absurd h

    substitute_groups-cons :
        (g : IoGroupDescription) (gs : List IoGroupDescription)
        → substitute_groups vs ds (g ∷ []) ≡ ok (g ∷ [])
        → substitute_groups vs ds gs ≡ ok gs
        → substitute_groups vs ds (g ∷ gs) ≡ ok (g ∷ gs)
    unfolding substitute_groups
    substitute_groups-cons g gs one rest =
        let (n, e, h₁) =
          >>=-eq-ok (replace_placeholder as_integer check_integer vs ds g.count) _ one in
        let (ios, f, h₂) = >>=-eq-ok (substitute_ios vs ds g.ios) _ h₁ in
        rw (e, f, rest) (ap (λ x. ok (x ∷ gs)) (head_cancel h₂))

    keeps_groups :
        (gs : List IoGroupDescription) → GroupsConcrete gs → substitute_groups vs ds gs ≡ ok gs
    unfolding substitute_groups
    keeps_groups [] h = refl
    keeps_groups (g ∷ gs) h =
        substitute_groups-cons g gs (keeps_count g.name g.count g.ios h.0.0 h.0.1)
          (keeps_groups gs h.1)

  substitute_io-lem :
      (vs : ParameterValues Real) (ds : List (ParameterDescription Real)) (io : IoDescription)
      {r : IoDescription}
      → substitute_io vs ds io ≡ ok r
      → (r.name ≡ io.name) × (r.causality ≡ io.causality) × IoIsConcrete r
  unfolding substitute_io
  substitute_io-lem vs ds io h =
      let (n, e, h₁) =
        >>=-eq-ok (replace_placeholder as_integer check_integer vs ds io.count) _ h in
      let (t, f, h₂) = >>=-eq-ok (replace_placeholder as_type check_nothing vs ds io.type) _ h₁ in
      rw (← ok_cancel h₂) (refl, refl, (tt, tt))

  substitute_ios-lem :
      (vs : ParameterValues Real) (ds : List (ParameterDescription Real)) (ios : List IoDescription)
      {r : List IoDescription}
      → substitute_ios vs ds ios ≡ ok r
      → (io_shape r ≡ io_shape ios) × AllConcrete r
  unfolding substitute_ios
  substitute_ios-lem vs ds [] h = rw (← ok_cancel h) (refl, tt)
  substitute_ios-lem vs ds (io ∷ ios) h =
      let (x, e, h₁) = >>=-eq-ok (substitute_io vs ds io) _ h in
      let (xs, f, h₂) = >>=-eq-ok (substitute_ios vs ds ios) _ h₁ in
      let (name, causality, concrete) = substitute_io-lem vs ds io e in
      let (rest, all) = substitute_ios-lem vs ds ios f in
      rw (← ok_cancel h₂) (ap₂ (◌∷◌) (ap₂ (λ n c. (n, c)) name causality) rest, (concrete, all))

  substitute_groups-lem :
      (vs : ParameterValues Real) (ds : List (ParameterDescription Real))
      (gs : List IoGroupDescription) {r : List IoGroupDescription}
      → substitute_groups vs ds gs ≡ ok r
      → (shape r ≡ shape gs) × GroupsConcrete r
  unfolding substitute_groups
  substitute_groups-lem vs ds [] h = rw (← ok_cancel h) (refl, tt)
  substitute_groups-lem vs ds (g ∷ gs) h =
      let (n, e, h₁) = >>=-eq-ok (replace_placeholder as_integer check_integer vs ds g.count) _ h in
      let (ios, f, h₂) = >>=-eq-ok (substitute_ios vs ds g.ios) _ h₁ in
      let (rest, k, h₃) = >>=-eq-ok (substitute_groups vs ds gs) _ h₂ in
      let (same, all) = substitute_ios-lem vs ds g.ios f in
      let (same_rest, all_rest) = substitute_groups-lem vs ds gs k in
      rw (← ok_cancel h₃) (ap₂ (◌∷◌) (ap (λ x. (g.name, x)) same) same_rest, ((tt, all), all_rest))

  -- If the substitution succeeds, no placeholder is left, the names and causalities are those of the
  -- type, and a second substitution, with any parameters, changes nothing.
  pub substitute_function_parameters_lem :
      (d : FunctionTypeDescription Real) (vs : ParameterValues Real) {r : FunctionDescription}
      → substitute_function_parameters d vs ≡ ok r
      → GroupsConcrete r.io_groups
        × (shape r.io_groups ≡ shape d.function.io_groups)
        × ((ps : List (ParameterDescription Real)) (ws : ParameterValues Real)
            → substitute_function_parameters (record { function = r; parameters = ps }) ws ≡ ok r)
  unfolding substitute_function_parameters
  substitute_function_parameters_lem d vs h =
      let (gs, e, h₁) = >>=-eq-ok (substitute_groups vs d.parameters d.function.io_groups) _ h in
      let (same, all) = substitute_groups-lem vs d.parameters d.function.io_groups e in
      rw (← ok_cancel h₁) (all, same, λ ps ws. rw (keeps_groups ws ps gs all) refl)

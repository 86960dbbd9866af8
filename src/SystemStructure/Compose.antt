-- ===== src/SystemStructure/Compose.antt =====
-- The connections that a system structure accepts, and the checks of an execution that it is put in.
use libcosim.Base.{
  ℕ, zero, suc, Bool, true, false, ◌&&◌, List, [], ◌∷◌, ◌≡◌, ◌≢◌, refl, sym, ap, ◌∙◌, Option, none,
  some, ite, get_elem?, ℕ_discrete, ite-both, ◌⊎◌, inl, inr,
}
use mathlib.Core.Path.{subst}
use mathlib.Core.Logic.{if_pos}
use libcosim.Base.Positions.{some_cancel}
use libcosim.Base.Outcome.{ok, err, out_of_range, guard}
use libcosim.Model.{
  VariableType, VariableType-discrete, Causality, Causality-discrete, parameter,
  calculated_parameter, input, output, local, VariableDescription,
}
use libcosim.Algorithm.Defs.{VariableId}
use libcosim.Execution.Defs.{Parts, Execution, has_variable, validate_variable}
use libcosim.SystemStructure.Defs.{is_source, is_input, is_valid_ss}

differ : calculated_parameter ≢ output
differ e = cc

both : (a b : Bool) → a && b ≡ true → (a ≡ true) × (b ≡ true)
both true b h = (refl, h)
both false b h = cc

module _ {Real : Type 0} (parts : Parts Real) where
  has_variable-here :
      (x : VariableDescription Real) (vs : List (VariableDescription Real))
      → has_variable parts x.causality x.type x.reference (x ∷ vs) ≡ true
  unfolding has_variable
  has_variable-here x vs =
      let rest = has_variable parts x.causality x.type x.reference vs in
      let by_reference = ite (ℕ_discrete x.reference x.reference) true rest in
      if_pos (Causality-discrete x.causality x.causality) refl
        (ite (VariableType-discrete x.type x.type) by_reference rest) rest
      ∙ if_pos (VariableType-discrete x.type x.type) refl by_reference rest
      ∙ if_pos (ℕ_discrete x.reference x.reference) refl true rest

  has_variable-get_elem? :
      (vs : List (VariableDescription Real)) (k : ℕ) {v : VariableDescription Real}
      → get_elem? vs k ≡ some v
      → has_variable parts v.causality v.type v.reference vs ≡ true
  unfolding has_variable
  has_variable-get_elem? [] k h = cc
  has_variable-get_elem? (x ∷ vs) zero h =
      subst (λ y. has_variable parts y.causality y.type y.reference (x ∷ vs) ≡ true) (some_cancel h)
        (has_variable-here x vs)
  has_variable-get_elem? (x ∷ vs) (suc k) {v} h =
      let later = has_variable-get_elem? vs k h in
      let rest = has_variable parts v.causality v.type v.reference vs in
      let by_reference = ite (ℕ_discrete x.reference v.reference) true rest in
      ite-both (Causality-discrete x.causality v.causality) (λ b. b ≡ true)
        (ite (VariableType-discrete x.type v.type) by_reference rest) rest
        (ite-both (VariableType-discrete x.type v.type) (λ b. b ≡ true) by_reference rest
          (ite-both (ℕ_discrete x.reference v.reference) (λ b. b ≡ true) true rest refl later)
          later)
        later

  has_variable-none :
      (c : Causality) (t : VariableType) (r : ℕ) (vs : List (VariableDescription Real))
      → ((k : ℕ) (v : VariableDescription Real)
          → get_elem? vs k ≡ some v
          → v.type ≡ t
          → v.reference ≡ r
          → v.causality ≢ c)
      → has_variable parts c t r vs ≡ false
  unfolding has_variable
  has_variable-none c t r [] h = refl
  has_variable-none c t r (x ∷ vs) h =
      let none_later = has_variable-none c t r vs (λ k v. h (suc k) v) in
      go (Causality-discrete x.causality c) (VariableType-discrete x.type t)
        (ℕ_discrete x.reference r) (has_variable parts c t r vs) none_later
    where
      go :
          (p : Dec (x.causality ≡ c)) (q : Dec (x.type ≡ t)) (u : Dec (x.reference ≡ r))
          (rest : Bool)
          → rest ≡ false
          → ite p (ite q (ite u true rest) rest) rest ≡ false
      go (no n) q u rest e = e
      go (yes p) (no n) u rest e = e
      go (yes p) (yes q) (no n) rest e = e
      go (yes p) (yes q) (yes u) rest e = absurd (h 0 x refl q u p)

  is_source-cases : (c : Causality) → is_source c ≡ true → (c ≡ output) ⊎ (c ≡ calculated_parameter)
  is_source-cases calculated_parameter h = inr refl
  is_source-cases output h = inl refl
  is_source-cases parameter h = cc
  is_source-cases input h = cc
  is_source-cases local h = cc

  is_input-eq : (c : Causality) → is_input c ≡ true → c ≡ input
  is_input-eq input h = refl
  is_input-eq parameter h = cc
  is_input-eq calculated_parameter h = cc
  is_input-eq output h = cc
  is_input-eq local h = cc

  validate_variable-guard :
      (e : Execution parts) (i : ℕ) {a : parts.Sim} (c : Causality) (t : VariableType) (r : ℕ)
      {b : Bool}
      → get_elem? e.simulators i ≡ some a
      → has_variable parts c t r (parts.model_description a e.world).variables ≡ b
      → validate_variable parts (record { simulator = i; type = t; reference = r }) c e
        ≡ guard b out_of_range
  unfolding validate_variable
  validate_variable-guard e i {a} c t r {b} h k = go (get_elem? e.simulators i) h
    where
      go :
          (o : Option parts.Sim)
          → o ≡ some a
          → elim o [
            | none ↦ err out_of_range
            | some s ↦
                guard
                  (has_variable parts c t r (parts.model_description s e.world).variables)
                  out_of_range
          ]
            ≡ guard b out_of_range
      go none q = cc
      go (some s) q = rw (some_cancel q, k) refl

  -- Suppose that a connection between variables of two simulators is valid for a system structure, that
  -- both variables stand in the descriptions of the simulators that were added, and that only the
  -- source has its type and reference. Then the target passes the execution's check, and the
  -- source passes it if it is an output; if it is a calculated parameter, the check throws.
  pub validate_variable-is_valid_ss :
      (e : Execution parts) (i j : ℕ) {a b : parts.Sim} (source target : VariableDescription Real)
      (k l : ℕ)
      → is_valid_ss source target ≡ true
      → get_elem? e.simulators i ≡ some a
      → get_elem? e.simulators j ≡ some b
      → get_elem? (parts.model_description a e.world).variables k ≡ some source
      → get_elem? (parts.model_description b e.world).variables l ≡ some target
      → ((n : ℕ) (v : VariableDescription Real)
          → get_elem? (parts.model_description a e.world).variables n ≡ some v
          → v.type ≡ source.type
          → v.reference ≡ source.reference
          → v ≡ source)
      → (let out : VariableId = record {
        simulator = i;
        type = source.type;
        reference = source.reference;
      } in
          let inp : VariableId = record {
            simulator = j;
            type = target.type;
            reference = target.reference;
          } in
          (validate_variable parts inp input e ≡ ok tt)
          × (((source.causality ≡ output) × (validate_variable parts out output e ≡ ok tt))
              ⊎ ((source.causality ≡ calculated_parameter)
                  × (validate_variable parts out output e ≡ err out_of_range))))
  unfolding is_valid_ss
  validate_variable-is_valid_ss e i j {a} {b} source target k l valid at_i at_j at_k at_l only =
      let (tests, modifiable) = both _ _ valid in
      let (tests₁, to_input) = both _ _ tests in
      let (same, from_source) = both _ _ tests₁ in
      let vs = (parts.model_description a e.world).variables in
      (
        validate_variable-guard e j input target.type target.reference at_j (
            subst
              (λ c.
                has_variable parts c target.type target.reference
                  (parts.model_description b e.world).variables
                ≡ true)
              (is_input-eq target.causality to_input)
              (has_variable-get_elem? (parts.model_description b e.world).variables l at_l)),
        elim (is_source-cases source.causality from_source) [
          | inl p ↦ inl (
            p,
            validate_variable-guard e i output source.type source.reference at_i (
                subst (λ c. has_variable parts c source.type source.reference vs ≡ true) p
                  (has_variable-get_elem? vs k at_k)),
          )
          | inr p ↦ inr (
            p,
            validate_variable-guard e i output source.type source.reference at_i (
                has_variable-none output source.type source.reference vs (λ n v at t r q. differ (
                  sym p
                  ∙ sym (ap (λ (y : VariableDescription Real). y.causality) (only n v at t r))
                  ∙ q))),
          )
        ],
      )

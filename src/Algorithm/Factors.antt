-- ===== src/Algorithm/Factors.antt =====
-- Decimation factors stay positive, so that no remainder by one of them is a division by zero.
use libcosim.Base.{
  ℕ, zero, suc, ◌<◌, ◌/◌, some, ℕ_discrete, ◌≡◌, refl, sym, ◌∙◌, arith, inl, inr, Option-cases,
}
use libcosim.Base.Int.{ℤ, pos, negsuc}
use libcosim.Base.Outcome.{Outcome, ok, err, of_option, out_of_range}
use libcosim.Base.Method.{Method, lift, continue, ◌>>=◌}
use libcosim.Base.Assoc.{find, find-assign_self, find-assign_ne}
use libcosim.Algorithm.Defs.{
  EntityOps, SimulatorInfo, FunctionInfo, Algorithm, A, simulator_at, function_at, put_simulator,
  put_function, on_simulator, on_function, max_one, to_int32, calculate_decimation_factor,
}

max_one-pos : (z : ℤ) → 0 < max_one z
max_one-pos (pos zero) = omega arith
max_one-pos (pos (suc n)) = omega arith
max_one-pos (negsuc n) = omega arith

pub calculate_decimation_factor-pos :
    (base : ℕ) (hint : ℤ) → 0 < calculate_decimation_factor base hint
unfolding calculate_decimation_factor
calculate_decimation_factor-pos base (pos n) = ground (arith, max_one-pos (to_int32 (n / base)))
calculate_decimation_factor-pos base (negsuc n) = max_one-pos _

module _ {Real : Type 0} (ops : EntityOps Real) where
  -- The base step and all factors are positive.
  pub record HasFactors (a : Algorithm ops) : Type 0 where
    pub base_pos : 0 < a.base_step_size
    pub simulators_pos :
        (i : ℕ) (s : SimulatorInfo ops)
        → find ℕ_discrete i a.simulators ≡ some s
        → 0 < s.decimation_factor
    pub functions_pos :
        (i : ℕ) (f : FunctionInfo ops)
        → find ℕ_discrete i a.functions ≡ some f
        → 0 < f.decimation_factor

  -- Whether the method returns or throws it keeps the factors; what it returns satisfies `Q`.
  abbrev pub Keeps : {B : Type 0} → A ops B → (B → Type 0) → Type 0
  Keeps {B} m Q =
      (a : Algorithm ops) → HasFactors a → HasFactors (m a).1 × ((r : B) → (m a).0 ≡ ok r → Q r)

  abbrev pub Any : {B : Type 0} → B → Type 0
  Any _ = Unit {0}

  pub bind-Keeps :
      {B C : Type 0} {m : A ops B} {f : B → A ops C} (Q : B → Type 0) {R : C → Type 0}
      → Keeps m Q
      → ((b : B) → Q b → Keeps (f b) R)
      → Keeps (m >>= f) R
  bind-Keeps {B} {C} {m} {f} Q {R} hm hf a h = go (m a).0 refl
    where
      go :
          (o : Outcome B)
          → (m a).0 ≡ o
          → HasFactors (continue o (m a).1 f).1 × ((r : C) → (continue o (m a).1 f).0 ≡ ok r → R r)
      go (ok b) e = let kept = hm a h in hf b (kept.1 b e) (m a).1 kept.0
      go (err x) e = ((hm a h).0, λ r q. absurd (cc))

  pub lift-Keeps : {B : Type 0} (o : Outcome B) → Keeps (lift o) Any
  lift-Keeps o a h = (h, λ r e. tt)

  pub simulator_at-Keeps : (i : ℕ) → Keeps (simulator_at ops i) (λ s. 0 < s.decimation_factor)
  simulator_at-Keeps i a h = (h, found)
    where
      found :
          (s : SimulatorInfo ops)
          → of_option out_of_range (find ℕ_discrete i a.simulators) ≡ ok s
          → 0 < s.decimation_factor
      found s e = elim (Option-cases (find ℕ_discrete i a.simulators)) [
        | inl n ↦ absurd (ground (arith, n))
        | inr (x, p) ↦ ground (arith, h.simulators_pos i x p, p)
      ]

  pub function_at-Keeps : (i : ℕ) → Keeps (function_at ops i) (λ f. 0 < f.decimation_factor)
  function_at-Keeps i a h = (h, found)
    where
      found :
          (s : FunctionInfo ops)
          → of_option out_of_range (find ℕ_discrete i a.functions) ≡ ok s
          → 0 < s.decimation_factor
      found s e = elim (Option-cases (find ℕ_discrete i a.functions)) [
        | inl n ↦ absurd (ground (arith, n))
        | inr (x, p) ↦ ground (arith, h.functions_pos i x p, p)
      ]

  pub put_simulator-Keeps :
      (i : ℕ) (s : SimulatorInfo ops) → 0 < s.decimation_factor → Keeps (put_simulator ops i s) Any
  put_simulator-Keeps i s p a h = (
    record {
      base_pos = h.base_pos;
      simulators_pos = λ j x e. elim (ℕ_discrete i j) [
        | yes q ↦ ground (arith, find-assign_self ℕ_discrete i s a.simulators, q, p)
        | no n ↦ h.simulators_pos j x (sym (find-assign_ne ℕ_discrete i j s a.simulators n) ∙ e)
      ];
      functions_pos = h.functions_pos;
    },
    λ r e. tt,
  )

  pub put_function-Keeps :
      (i : ℕ) (f : FunctionInfo ops) → 0 < f.decimation_factor → Keeps (put_function ops i f) Any
  put_function-Keeps i f p a h = (
    record {
      base_pos = h.base_pos;
      simulators_pos = h.simulators_pos;
      functions_pos = λ j x e. elim (ℕ_discrete i j) [
        | yes q ↦ ground (arith, find-assign_self ℕ_discrete i f a.functions, q, p)
        | no n ↦ h.functions_pos j x (sym (find-assign_ne ℕ_discrete i j f a.functions n) ∙ e)
      ];
    },
    λ r e. tt,
  )

  pub on_simulator-Keeps :
      {B : Type 0} (i : ℕ) (m : Method ops.Sim B) → Keeps (on_simulator ops i m) Any
  unfolding on_simulator
  on_simulator-Keeps i m =
      bind-Keeps (λ (s : SimulatorInfo ops). 0 < s.decimation_factor) (simulator_at-Keeps i)
        (λ s p.
          bind-Keeps Any (put_simulator-Keeps i (record s { sim = (m s.sim).1 }) p)
            (λ u q. lift-Keeps (m s.sim).0))

  pub on_function-Keeps :
      {B : Type 0} (i : ℕ) (m : Method ops.Fun B) → Keeps (on_function ops i m) Any
  unfolding on_function
  on_function-Keeps i m =
      bind-Keeps (λ (f : FunctionInfo ops). 0 < f.decimation_factor) (function_at-Keeps i)
        (λ f p.
          bind-Keeps Any (put_function-Keeps i (record f { fun = (m f.fun).1 }) p)
            (λ u q. lift-Keeps (m f.fun).0))

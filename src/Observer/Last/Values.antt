-- ===== src/Observer/Last/Values.antt =====
-- What last_value_observer.cpp returns of a simulator that has completed a step.
use mathlib.Core.Logic.{if_pos, if_neg}
use libcosim.Base.{
  ℕ, Bool, true, false, List, [], ◌∷◌, Option, none, some, ◌≡◌, refl, sym, ap, ◌∙◌, length, ◌==◌,
  ℕ_discrete, ite, arith,
}
use libcosim.Base.Outcome.{Outcome, ok, err, invalid_argument, out_of_range}
use libcosim.Base.Method.{>>=-ends, ◌>>◌}
use libcosim.Base.Assoc.{find, assign, find-assign_self}
use libcosim.Base.Positions.{none-ne-some}
use libcosim.Observer.Last.{
  Observable, values_at, get, observe_values, Provider, on_reals, on_ints, on_bools, on_strings,
  observe, LastValueObserver, simulator_step_complete, get_real,
}

module _ {T : Type 0} where
  -- What reading the variables one by one gives
  abbrev pub read_each : (ℕ → Outcome T) → List ℕ → Outcome (List T)
  read_each read [] = ok []
  read_each read (r ∷ rs) = elim (read r) [
    | err x ↦ err x
    | ok v ↦ elim (read_each read rs) [ ok vs ↦ ok (v ∷ vs) | err x ↦ err x ]
  ]

  -- All variables have a sample.
  abbrev pub AllIn : List (ℕ × T) → List ℕ → Type 0
  AllIn samples [] = Unit {0}
  AllIn samples (r ∷ rs) = ((v : T) × (find ℕ_discrete r samples ≡ some v)) × AllIn samples rs

  Seen : (ℕ → Outcome T) → ℕ → Outcome (Unit {0}) × List (ℕ × T) → Type 0
  Seen read r x = x.0 ≡ ok tt → (v : T) × (read r ≡ ok v) × (find ℕ_discrete r x.1 ≡ some v)

  observe_values-Seen :
      (read : ℕ → Outcome T) (m : List (ℕ × T)) (r : ℕ) {old : T}
      → find ℕ_discrete r m ≡ some old
      → Seen read r (observe_values read m)
  unfolding observe_values find Seen
  observe_values-Seen read [] r e = absurd (none-ne-some e)
  observe_values-Seen read ((j, w) ∷ m) r e =
      go (read j) refl (ℕ_discrete j r) e (λ v f. observe_values-Seen read m r f)
    where
      rest : Outcome (Unit {0}) × List (ℕ × T)
      rest = observe_values read m

      go :
          {old : T} (o : Outcome T)
          → read j ≡ o
          → (d : Dec (j ≡ r)) → ite d (some w) (find ℕ_discrete r m) ≡ some old
          → ((old : T) → find ℕ_discrete r m ≡ some old → Seen read r rest)
          → Seen read r (elim o as (λ x. Outcome (Unit {0}) × List (ℕ × T)) [
            | err x ↦ (err x, (j, w) ∷ m)
            | ok v ↦ (rest.0, (j, v) ∷ rest.1)
          ])
      go (err x) p d e again h = cc
      go (ok v) p (yes same) e again h = (
        v,
        ap read (sym same) ∙ p,
        if_pos (ℕ_discrete j r) same (some v) (find ℕ_discrete r rest.1),
      )
      go {old} (ok v) p (no other) e again h =
          let (u, a, b) = again old e h in
          (u, a, if_neg (ℕ_discrete j r) other (some v) (find ℕ_discrete r rest.1) ∙ b)

  values_at-read_each :
      (read : ℕ → Outcome T) (m : List (ℕ × T)) (rs : List ℕ)
      → (observe_values read m).0 ≡ ok tt
      → AllIn m rs
      → values_at (observe_values read m).1 rs ≡ read_each read rs
  unfolding values_at Seen
  values_at-read_each read m [] h all = refl
  values_at-read_each read m (r ∷ rs) h all =
      let (v, a, b) = observe_values-Seen read m r all.0.1 h in
      ap
        (λ (o : Option T). elim o as (λ x. Outcome (List T)) [
          | none ↦ err out_of_range
          | some v ↦ elim (values_at (observe_values read m).1 rs) [
            | ok vs ↦ ok (v ∷ vs)
            | err x ↦ err x
          ]
        ])
        b
      ∙ ap
          (λ (o : Outcome (List T)). elim o as (λ x. Outcome (List T)) [
            | ok vs ↦ ok (v ∷ vs)
            | err x ↦ err x
          ])
          (values_at-read_each read m rs h all.1)
      ∙ sym (
          ap
            (λ (o : Outcome T). elim o as (λ x. Outcome (List T)) [
              | err x ↦ err x
              | ok v ↦ elim (read_each read rs) [ ok vs ↦ ok (v ∷ vs) | err x ↦ err x ]
            ])
            a)

  get_found :
      (rs : List ℕ) (r : ℕ) (m : List (ℕ × T)) {v : T}
      → find ℕ_discrete r m ≡ some v
      → get rs m ≡ values_at m rs
  unfolding get find
  get_found rs r [] e = absurd (none-ne-some e)
  get_found rs r (s ∷ m) e = refl

module _ {Real : Type 0} (zero_real : Real) (ops : Observable Real) where
  abbrev P : Type 0
  P = Provider zero_real ops

  Kept : (w : ops.World) → P → Outcome (Unit {0}) → P → Type 0
  Kept w p o q =
      (o ≡ ok tt → (observe_values (ops.get_real p.observable w) p.real_samples).0 ≡ ok tt)
      × (q.real_samples ≡ (observe_values (ops.get_real p.observable w) p.real_samples).1)

  observe-Kept : (w : ops.World) (p : P) → let r = observe zero_real ops w p in Kept w p r.0 r.1
  unfolding observe Kept
  observe-Kept w p =
      >>=-ends (on_reals zero_real ops (observe_values (ops.get_real p.observable w)))
        (λ _. do
          on_ints zero_real ops (observe_values (ops.get_integer p.observable w))
          on_bools zero_real ops (observe_values (ops.get_boolean p.observable w))
          on_strings zero_real ops (observe_values (ops.get_string p.observable w)))
        p (Kept w p) (Kept w p) (λ e. e, refl) (λ u t h. (λ _. h.0 refl, rest t ∙ h.1)) (λ x t h. h)
    where
      last :
          (t : P)
          → (on_strings zero_real ops
              (observe_values (ops.get_string p.observable w))
              t).1.real_samples
            ≡ t.real_samples
      last t = refl

      rest :
          (t : P)
          → ((on_ints zero_real ops (observe_values (ops.get_integer p.observable w))
                >> (on_bools zero_real ops (observe_values (ops.get_boolean p.observable w))
                    >> on_strings zero_real ops (observe_values (ops.get_string p.observable w))))
              t).1.real_samples
            ≡ t.real_samples
      rest t =
          >>=-ends (on_ints zero_real ops (observe_values (ops.get_integer p.observable w)))
            (λ _.
              on_bools zero_real ops (observe_values (ops.get_boolean p.observable w))
              >> on_strings zero_real ops (observe_values (ops.get_string p.observable w)))
            t (λ o u. u.real_samples ≡ t.real_samples) (λ o u. u.real_samples ≡ t.real_samples) refl
            (λ _ u k.
              >>=-ends (on_bools zero_real ops (observe_values (ops.get_boolean p.observable w)))
                (λ _. on_strings zero_real ops (observe_values (ops.get_string p.observable w))) u
                (λ o v. v.real_samples ≡ t.real_samples) (λ o v. v.real_samples ≡ t.real_samples) k
                (λ _ v j. j) (λ x v j. j))
            (λ x u k. k)

  -- If a simulator that is known completes a step and its values can be read, then for variables that
  -- have samples, not none of them, get_real returns what reading the same variables one by one from
  -- the simulator gives then.
  pub get_real-simulator_step_complete :
      (i r : ℕ) (rs : List ℕ) (o : LastValueObserver zero_real ops) {p : P}
      {q : LastValueObserver zero_real ops}
      → find ℕ_discrete i o.value_providers ≡ some p
      → simulator_step_complete zero_real ops i o ≡ (ok tt, q)
      → AllIn p.real_samples (r ∷ rs)
      → get_real zero_real ops i (r ∷ rs) (length (r ∷ rs)) q
        ≡ read_each (ops.get_real p.observable o.world) (r ∷ rs)
  unfolding simulator_step_complete get_real Kept Seen
  get_real-simulator_step_complete i r rs o {p} {q} known e all =
      ap
        (λ (x : LastValueObserver zero_real ops).
          get_real zero_real ops i (r ∷ rs) (length (r ∷ rs)) x)
        q_is
      ∙ ap
          (λ (b : Bool). elim b as (λ x. Outcome (List Real)) [
            | false ↦ err invalid_argument
            | true ↦ picked (find ℕ_discrete i (assign ℕ_discrete i seen.1 o.value_providers))
          ])
          (same_size (length (r ∷ rs)))
      ∙ ap picked (find-assign_self ℕ_discrete i seen.1 o.value_providers)
      ∙ ap (get (r ∷ rs)) kept.1
      ∙ get_found (r ∷ rs) r (observe_values (ops.get_real p.observable o.world) p.real_samples).1
          (observe_values-Seen (ops.get_real p.observable o.world) p.real_samples r all.0.1
            (kept.0 ended)).2
      ∙ values_at-read_each (ops.get_real p.observable o.world) p.real_samples (r ∷ rs)
          (kept.0 ended) all
    where
      seen : Outcome (Unit {0}) × P
      seen = observe zero_real ops o.world p

      kept : Kept o.world p seen.0 seen.1
      kept = observe-Kept o.world p

      after : LastValueObserver zero_real ops
      after = record o { value_providers = assign ℕ_discrete i seen.1 o.value_providers }

      picked : Option P → Outcome (List Real)
      picked x = elim x as (λ x. Outcome (List Real)) [
        | none ↦ err out_of_range
        | some p ↦ get (r ∷ rs) p.real_samples
      ]

      ends :
          ◌≡◌ {A = Outcome (Unit {0}) × LastValueObserver zero_real ops} (seen.0, after) (ok tt, q)
      ends =
          sym (
            ap
              (λ (x : Option P).
                elim x as (λ x. Outcome (Unit {0}) × LastValueObserver zero_real ops) [
                  | none ↦ (err out_of_range, o)
                  | some p ↦
                      let r = observe zero_real ops o.world p in
                      (
                        r.0,
                        record o { value_providers = assign ℕ_discrete i r.1 o.value_providers },
                      )
                ])
              known)
          ∙ e

      ended : seen.0 ≡ ok tt
      ended = ap (λ (x : Outcome (Unit {0}) × LastValueObserver zero_real ops). x.0) ends

      q_is : q ≡ after
      q_is = sym (ap (λ (x : Outcome (Unit {0}) × LastValueObserver zero_real ops). x.1) ends)

      same_size : (n : ℕ) → (n == n) ≡ true
      same_size n = ground arith

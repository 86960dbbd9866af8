-- ===== src/Observer/Series.antt =====
-- `single_slave_observer` and `get_samples`. A map from step numbers is a list in the order of its
-- keys. The values are read from the observed simulator, which is a parameter.
use libcosim.Base.{
  ℕ, zero, suc, ◌+◌, List, [], ◌∷◌, none, some, length, drop, ltb, ◌==◌, if◌then◌else◌, ℕ_discrete,
}
use libcosim.Base.Int.{ℤ, pos}
use libcosim.Base.Outcome.{Outcome, ok, err, out_of_range, invalid_argument}
use libcosim.Base.Assoc.{find, assign, erase}
use libcosim.Model.{VariableType, real, integer}

-- `std::map<step_number, V>`
abbrev pub Series : Type 0 → Type 0
Series V = List (ℕ × V)

module _ {V : Type 0} where
  -- `samples[step] = v`
  unfoldable pub put_sample : ℕ → V → Series V → Series V
  put_sample n v [] = (n, v) ∷ []
  put_sample n v ((k, x) ∷ m) =
      let rest = put_sample n v m in
      if ltb n k then (n, v) ∷ (k, x) ∷ m else if n == k then (n, v) ∷ m else (k, x) ∷ rest

  unfoldable pub adjust_if_full : ℕ → Series V → Series V
  adjust_if_full size m = if ltb size (length m) then drop 1 m else m

  -- The loop of `observe` over the variables of one type; the samples of those before one whose
  -- reading throws have been changed.
  unfoldable pub observe_all :
      (ℕ → Outcome V) → ℕ → ℕ → List (ℕ × Series V) → Outcome (Unit {0}) × List (ℕ × Series V)
  unfolding put_sample adjust_if_full
  observe_all get size n [] = (ok tt, [])
  observe_all get size n ((i, m) ∷ rest) =
      let later = observe_all get size n rest in
      elim (get i) [
        | err x ↦ (err x, (i, m) ∷ rest)
        | ok v ↦ (later.0, (i, adjust_if_full size (put_sample n v m)) ∷ later.1)
      ]

pub record SlaveObserver (Real : Type 0) : Type 0 where
  pub buf_size : ℕ
  pub real_samples : List (ℕ × Series Real)
  pub int_samples : List (ℕ × Series ℤ)
  pub time_samples : Series ℤ

module _ {Real : Type 0} where
  unfoldable pub record_time : ℕ → ℤ → SlaveObserver Real → SlaveObserver Real
  unfolding put_sample adjust_if_full
  record_time n t o = record o {
    time_samples = adjust_if_full o.buf_size (put_sample n t o.time_samples);
  }

  unfoldable pub observe :
      (ℕ → Outcome Real)
      → (ℕ → Outcome ℤ)
      → ℕ
      → ℤ
      → SlaveObserver Real
      → Outcome (Unit {0}) × SlaveObserver Real
  unfolding observe_all record_time
  observe get_real get_integer n t o =
      let reals = observe_all get_real o.buf_size n o.real_samples in
      let ints = observe_all get_integer o.buf_size n o.int_samples in
      elim reals.0 [
        | err x ↦ (err x, record o { real_samples = reals.1 })
        | ok _ ↦ elim ints.0 [
          | err x ↦ (err x, record o { real_samples = reals.1; int_samples = ints.1 })
          | ok _ ↦
              (ok tt, record_time n t (record o { real_samples = reals.1; int_samples = ints.1 }))
        ]
      ]

  -- The constructor
  unfoldable pub make : ℕ → ℤ → SlaveObserver Real
  unfolding record_time
  make size t =
      record_time 0 t
        (record { buf_size = size; real_samples = []; int_samples = []; time_samples = [] })

  -- Without `expose_for_getting`, which changes the simulator
  unfoldable pub start_observing :
      VariableType → ℕ → SlaveObserver Real → Outcome (SlaveObserver Real)
  start_observing real i o = ok (record o { real_samples = assign ℕ_discrete i [] o.real_samples })
  start_observing integer i o = ok (record o { int_samples = assign ℕ_discrete i [] o.int_samples })
  start_observing _ i o = err invalid_argument

  unfoldable pub stop_observing :
      VariableType → ℕ → SlaveObserver Real → Outcome (SlaveObserver Real)
  stop_observing real i o = ok (record o { real_samples = erase ℕ_discrete i o.real_samples })
  stop_observing integer i o = ok (record o { int_samples = erase ℕ_discrete i o.int_samples })
  stop_observing _ i o = err invalid_argument

-- `timeSamples[step]`, on a copy
abbrev pub time_at : Series ℤ → ℕ → ℤ
time_at times n = elim (find ℕ_discrete n times) [ none ↦ pos 0 | some t ↦ t ]

module _ {V : Type 0} where
  -- The first sample from the step on: `begin`, `find` or `upper_bound`
  unfoldable pub samples_from : ℕ → Series V → Series V
  samples_from n [] = []
  samples_from n ((k, v) ∷ m) = let rest = samples_from n m in if ltb k n then rest else (k, v) ∷ m

  -- The loop, for `count` more samples with steps below `end`
  unfoldable pub read_samples : ℕ → ℕ → Series ℤ → Series V → List (ℕ × V × ℤ)
  read_samples zero end times m = []
  read_samples (suc count) end times [] = []
  read_samples (suc count) end times ((k, v) ∷ m) =
      let rest = read_samples count end times m in
      if ltb k end then (k, v, time_at times k) ∷ rest else []

  unfoldable pub get_samples :
      ℕ → List (ℕ × Series V) → Series ℤ → ℕ → ℕ → Outcome (List (ℕ × V × ℤ))
  unfolding read_samples samples_from
  get_samples i variables times from size = elim (find ℕ_discrete i variables) [
    | none ↦ ok []
    | some [] ↦ err out_of_range
    | some (x ∷ m) ↦ ok (read_samples size (from + size) times (samples_from from (x ∷ m)))
  ]

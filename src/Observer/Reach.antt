-- ===== src/Observer/Reach.antt =====
-- An observer that sees steps of rising numbers: the time of every sample is kept.
use libcosim.Base.{ℕ, ◌≡◌}
use libcosim.Base.Int.{ℤ}
use libcosim.Base.Outcome.{Outcome, ok}
use libcosim.Model.{VariableType}
use libcosim.Observer.Series.{Series, SlaveObserver, observe, make, start_observing, stop_observing}
use libcosim.Observer.Times.{AllBelow, steps_of, AllTimed}

module _ {Real : Type 0} where
  abbrev pub IsTimed : SlaveObserver Real → Type 0
  IsTimed o =
      AllTimed o.real_samples (steps_of o.time_samples)
      × AllTimed o.int_samples (steps_of o.time_samples)

  -- An observer that has seen steps of rising numbers
  pub data Observed : SlaveObserver Real → Type 0 where
    made : (size : ℕ) (t : ℤ) → Observed (make size t)
    observes :
        {o p : SlaveObserver Real} (get_real : ℕ → Outcome Real) (get_integer : ℕ → Outcome ℤ)
        (n : ℕ) (t : ℤ)
        → Observed o
        → AllBelow n (steps_of o.time_samples)
        → observe get_real get_integer n t o ≡ (ok tt, p)
        → Observed p
    starts :
        {o p : SlaveObserver Real} (type : VariableType) (i : ℕ)
        → Observed o
        → start_observing type i o ≡ ok p
        → Observed p
    stops :
        {o p : SlaveObserver Real} (type : VariableType) (i : ℕ)
        → Observed o
        → stop_observing type i o ≡ ok p
        → Observed p

-- ===== src/Tests/Samples.antt =====
-- An observer with buffers of two samples.
use libcosim.Base.{ℕ, List, [], ◌∷◌, some, ◌≡◌, ◌≢◌, refl, arith, ℕ_discrete}
use libcosim.Base.Int.{ℤ, pos}
use libcosim.Base.Outcome.{Outcome, ok}
use libcosim.Base.Assoc.{find}
use libcosim.Observer.Series.{Series, SlaveObserver, get_samples}
use libcosim.Observer.Windows.{Rising, window, with_times, get_samples-window}

abbrev observer : List (ℕ × Series ℕ) → Series ℤ → SlaveObserver ℕ
observer reals times = record {
  buf_size = 2;
  real_samples = reals;
  int_samples = [];
  time_samples = times;
}

abbrev one_sample : SlaveObserver ℕ
one_sample = observer ((4, (1, 30) ∷ []) ∷ []) ((0, pos 0) ∷ (1, pos 10) ∷ [])

abbrev two_samples : SlaveObserver ℕ
two_samples = observer ((4, (1, 30) ∷ (2, 30) ∷ []) ∷ []) ((1, pos 10) ∷ (2, pos 20) ∷ [])

abbrev reading : ℕ → Outcome ℕ
reading i = ok 30

abbrev no_integer : ℕ → Outcome ℤ
no_integer i = ok (pos 0)

found : find ℕ_discrete 4 two_samples.real_samples ≡ some ((1, 30) ∷ (2, 30) ∷ [])
unfolding find ℕ_discrete
found = refl

some_samples : ◌≢◌ {A = Series ℕ} ((1, 30) ∷ (2, 30) ∷ []) []
some_samples e = cc

rising : Rising (1 ∷ 2 ∷ [])
rising = ((omega arith, tt), (tt, tt))

get_samples-window_example :
    get_samples 4 two_samples.real_samples two_samples.time_samples 2 5
    ≡ ok (with_times two_samples.time_samples (window 2 7 ((1, 30) ∷ (2, 30) ∷ [])))
get_samples-window_example =
    get_samples-window 4 two_samples.real_samples two_samples.time_samples 2 5 found some_samples
      rising

-- ===== src/Tests/Values.antt =====
-- An observer of one simulator, whose real variables read their references plus the state.
use libcosim.Base.Assoc.{assign, find}
use libcosim.Base.{ℕ_discrete, ℕ, ◌+◌, false, [], ◌∷◌, ◌≡◌, refl}
use libcosim.Base.Int.{pos}
use libcosim.Base.Outcome.{Outcome, ok}
use libcosim.Base.Method.{pure}
use libcosim.Observer.Last.{
  Observable, Provider, LastValueObserver, simulator_step_complete, get_real,
}
use libcosim.Observer.Last.Values.{get_real-simulator_step_complete}

abbrev plus : Observable ℕ
plus = record {
  World = ℕ;
  Sim = Unit {0};
  variables = λ s w. [];
  expose_for_getting = λ s t r. pure tt;
  get_real = λ s w r. ok (w + r);
  get_integer = λ s w r. ok (pos 0);
  get_boolean = λ s w r. ok false;
  get_string = λ s w r. ok [];
}

abbrev provider : ℕ → ℕ → Provider 0 plus
provider a b = record {
  observable = tt;
  real_samples = (1, a) ∷ (2, b) ∷ [];
  int_samples = [];
  bool_samples = [];
  string_samples = [];
}

abbrev observer : ℕ → ℕ → LastValueObserver 0 plus
observer a b = record { value_providers = (0, provider a b) ∷ []; world = 40 }

steps :
    ◌≡◌ {A = Outcome (Unit {0}) × LastValueObserver 0 plus}
      (simulator_step_complete 0 plus 0 (observer 0 0))
      (ok tt, observer 41 42)
unfolding simulator_step_complete find ℕ_discrete assign
steps = refl

get_real-simulator_step_complete_example :
    get_real 0 plus 0 (2 ∷ 1 ∷ []) 2 (observer 41 42) ≡ ok (42 ∷ 41 ∷ [])
unfolding find ℕ_discrete
get_real-simulator_step_complete_example =
    get_real-simulator_step_complete 0 plus 0 2 (1 ∷ []) (observer 0 0) refl steps
      ((0, refl), ((0, refl), tt))

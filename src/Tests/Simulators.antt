-- ===== src/Tests/Simulators.antt =====
-- Theorems on slave_simulator.cpp at a cache of two variables and a slave that counts its steps.
use libcosim.Base.{ℕ, suc, ◌+◌, List, [], ◌∷◌, none, some, ◌≡◌, refl, length, ite, ℕ_discrete}
use libcosim.Base.Int.{pos}
use libcosim.Base.Assoc.{find, assign, contains}
use libcosim.Base.Outcome.{ok}
use libcosim.Base.Method.{pure}
use libcosim.Model.{complete}
use libcosim.Simulator.GetCache.{GetCache, set_modifier, refresh, get, modified}
use libcosim.Simulator.GetCache
use libcosim.Simulator.GetCache.Laws.{
  CacheReach, fresh, next, exposes, CacheReach-IsAligned, get-set_modifier,
}
use libcosim.Simulator.SetCache.{Exposed, SetCache}
use libcosim.Simulator.SetCache
use libcosim.Simulator.SetCache.Laws.{
  SetsOrFails, set_value-HasSet, empty-IsListed, expose-IsListed,
}
use libcosim.Simulator.Impl.{SlaveOps, Channel}
use libcosim.Simulator.Slave.{created, SlaveSimulator, setup, start_simulation, do_step}
use libcosim.Simulator.Slave.States.{Follows, setting_up, starting, stepping, calls-Follow}

abbrev readings : List ℕ
readings = 5 ∷ 6 ∷ []

abbrev two_exposed : GetCache ℕ
two_exposed = GetCache.expose 0 8 (GetCache.expose 0 7 GetCache.empty)

two-CacheReach : CacheReach two_exposed
two-CacheReach = next (next fresh (exposes 0 7 GetCache.empty)) (exposes 0 8 _)

two_lengths : length readings ≡ length two_exposed.references
unfolding GetCache.expose contains ℕ_discrete assign
two_lengths = refl

second_found : find ℕ_discrete 8 two_exposed.index_mapping ≡ some 1
unfolding GetCache.expose contains find assign ℕ_discrete
second_found = refl

get-set_modifier_example :
    (d : GetCache ℕ) × (set_modifier 8 (some (λ v dt. v + 10)) two_exposed ≡ ok d)
    × ((j : ℕ)
        → get (refresh readings (pos 1) d) j
          ≡ ite (ℕ_discrete j 8) (ok 16) (get (refresh readings (pos 1) two_exposed) j))
get-set_modifier_example =
    get-set_modifier two_exposed readings (pos 1) 8 1 (some (λ v dt. v + 10))
      (CacheReach-IsAligned two-CacheReach) two_lengths second_found refl

abbrev one_exposed : SetCache ℕ
one_exposed = SetCache.expose 7 3 SetCache.empty

set_value-HasSet_example :
    SetsOrFails one_exposed 7 4 one_exposed.has_run_modifiers
      (find ℕ_discrete 7 one_exposed.exposed_variables)
      (SetCache.set_value 7 4 one_exposed)
set_value-HasSet_example = set_value-HasSet one_exposed 7 4 (expose-IsListed 7 3 empty-IsListed)

abbrev pub counting : SlaveOps ℕ
counting = record {
  Handle = ℕ;
  setup = λ start stop tolerance. pure tt;
  start_simulation = pure tt;
  do_step = λ t dt n. (ok complete, suc n);
  get_real_variables = λ n refs. ok [];
  get_integer_variables = λ n refs. ok [];
  get_boolean_variables = λ n refs. ok [];
  get_string_variables = λ n refs. ok [];
  set_real_variables = λ refs vs. pure tt;
  set_integer_variables = λ refs vs. pure tt;
  set_boolean_variables = λ refs vs. pure tt;
  set_string_variables = λ refs vs. pure tt;
}

abbrev pub channel : {T : Type 0} → Channel T
channel = record { get_cache = GetCache.empty; set_cache = SetCache.empty; modified = [] }

abbrev pub counter : SlaveSimulator ℕ 0 counting
counter = record {
  slave = 0;
  description = record { name = []; uuid = []; variables = [] };
  reals = channel;
  integers = channel;
  booleans = channel;
  strings = channel;
  state = created;
}

calls-Follow_example :
    Follows ℕ 0 counting setting_up counter (setup ℕ 0 counting (pos 0) none none counter)
    × Follows ℕ 0 counting starting counter (start_simulation ℕ 0 counting counter)
    × Follows ℕ 0 counting stepping counter (do_step ℕ 0 counting (pos 0) (pos 1) counter)
calls-Follow_example = calls-Follow ℕ 0 counting counter (pos 0) (pos 1) none none

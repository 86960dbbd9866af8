-- ===== src/Algorithm/Reach.antt =====
-- Every algorithm that the calls of fixed_step_algorithm lead to has positive factors.
use mathlib.Core.Path.{subst}
use libcosim.Base.{
  ℕ, zero, suc, ◌+◌, ◌<◌, ◌==◌, Bool, true, false, not, List, [], ◌∷◌, ◌++◌, Option, none,
  ℕ_discrete, if◌then◌else◌, ◌≡◌, ◌≢◌, refl, sym, ◌∙◌, arith, inl, inr, Option-cases, length,
}
use libcosim.Base.Int.{ℤ, pos, negsuc}
use libcosim.Base.Outcome.{ok, err, simulation_error, undefined, >>=-eq-ok}
use libcosim.Base.Method.{Method}
use libcosim.Base.Assoc.{find, erase}
use libcosim.Algorithm.Lcm.{int_lcm, int_lcm-pos}
use libcosim.Algorithm.Defs.{
  VariableId, FunctionIoId, EntityOps, Connection, Algorithm, A, connect_ss, connect_sf, connect_fs,
  accumulate_factor, add_simulator, add_function, make, pool_size, set_stepsize_decimation_factor,
  remove_simulator, disconnect_variable, disconnect_io, setup,
}
use libcosim.Algorithm.Step.{in_pool, keys, iterate, initialize, step_due, do_step}
use libcosim.Algorithm.Factors.{
  HasFactors, Keeps, Any, bind-Keeps, simulator_at-Keeps, function_at-Keeps, put_simulator-Keeps,
  put_function-Keeps, on_simulator-Keeps, calculate_decimation_factor-pos,
}
use libcosim.Algorithm.Transfers.{
  SimPos, FunPos, pure-Keeps, throw-Keeps, transfer_outputs-Keeps, calculate_all-Keeps,
  propagate-Keeps,
}
use libcosim.Algorithm.Changes.{
  keeps_factors, each_simulator-factor_at, step_due-factor_at, erase-factor_at,
  disconnect_simulators-factor_at, disconnect_functions-factor_at, disconnect_in-factor_at,
  disconnect_io_in-factor_at,
}

module _ {Real : Type 0} (ops : EntityOps Real) where
  in_pool-Keeps : (m : Method ops.Sim (Unit {0})) → Keeps ops (in_pool ops m) (Any ops)
  in_pool-Keeps m a h = (
    keeps_factors ops a _ refl
        (λ i n e.
          sym (each_simulator-factor_at ops (not (a.worker_count == 0)) m i a.simulators) ∙ e)
        (λ i n e. e) h,
    λ r e. tt,
  )

  iterate-Keeps : (n : ℕ) → Keeps ops (iterate ops n) (Any ops)
  unfolding iterate
  iterate-Keeps zero = pure-Keeps ops tt
  iterate-Keeps (suc n) = bind-Keeps ops (Any ops) (in_pool-Keeps ops.do_iteration) (λ u p.
      bind-Keeps ops (Any ops) (λ a h. transfer_outputs-Keeps ops (keys ops a.simulators) a h)
        (λ v q.
          bind-Keeps ops (Any ops) (λ a h. calculate_all-Keeps ops (keys ops a.functions) a h)
            (λ w r. iterate-Keeps n)))

  initialize-Keeps : Keeps ops (initialize ops) (Any ops)
  unfolding initialize
  initialize-Keeps =
      bind-Keeps ops (Any ops) (λ a h. in_pool-Keeps (ops.sim_setup a.start_time a.stop_time) a h)
        (λ u p.
          bind-Keeps ops (Any ops)
            (λ a h. iterate-Keeps (length a.simulators + length a.functions) a h)
            (λ v q. in_pool-Keeps ops.start_simulation))

  after_steps-Keeps :
      (c : Bool) {m : A ops (ℕ × List ℕ)}
      → Keeps ops m (Any ops)
      → (b : Algorithm ops) → HasFactors ops b
      → HasFactors ops (if c then (err simulation_error, b) else m b).1
  after_steps-Keeps true hm b h = h
  after_steps-Keeps false hm b h = (hm b h).0

  do_step-HasFactors :
      (t : ℤ) (a : Algorithm ops) → HasFactors ops a → HasFactors ops (do_step ops t a).1
  unfolding do_step
  do_step-HasFactors t a h =
      let r = step_due ops t a.base_step_size a.step_counter a.simulators in
      let b = record a { simulators = r.1; step_counter = suc a.step_counter } in
      after_steps-Keeps r.0
        (bind-Keeps ops (Any ops) (propagate-Keeps ops _) (λ u p. pure-Keeps ops _)) b
        (keeps_factors ops a b refl
          (λ i n e.
            sym (step_due-factor_at ops t a.base_step_size a.step_counter i a.simulators) ∙ e)
          (λ i n e. e) h)

  connect_ss-Keeps : (output input : VariableId) → Keeps ops (connect_ss ops output input) (Any ops)
  unfolding connect_ss
  connect_ss-Keeps output input =
      bind-Keeps ops (SimPos ops) (simulator_at-Keeps ops output.simulator) (λ s p.
        bind-Keeps ops (SimPos ops) (simulator_at-Keeps ops input.simulator) (λ t q.
          bind-Keeps ops (Any ops) (on_simulator-Keeps ops output.simulator _) (λ u r.
            bind-Keeps ops (Any ops) (on_simulator-Keeps ops input.simulator _) (λ v w.
              bind-Keeps ops (SimPos ops) (simulator_at-Keeps ops output.simulator)
                (λ x y. put_simulator-Keeps ops output.simulator _ y)))))

  connect_sf-Keeps :
      (output : VariableId) (input : FunctionIoId)
      → Keeps ops (connect_sf ops output input) (Any ops)
  unfolding connect_sf
  connect_sf-Keeps output input =
      bind-Keeps ops (Any ops) (on_simulator-Keeps ops output.simulator _) (λ u r.
        bind-Keeps ops (SimPos ops) (simulator_at-Keeps ops output.simulator)
          (λ x y. put_simulator-Keeps ops output.simulator _ y))

  accumulate_factor-pos :
      (a : Algorithm ops) (h : HasFactors ops a) (current : ℕ)
      (cs : List (Connection FunctionIoId VariableId)) (r : ℕ)
      → 0 < current
      → accumulate_factor ops current cs a.simulators ≡ ok r
      → 0 < r
  unfolding accumulate_factor
  accumulate_factor-pos a h current [] r p e = ground arith
  accumulate_factor-pos a h current (c ∷ cs) r p e =
      elim (Option-cases (find ℕ_discrete c.target.simulator a.simulators)) [
        | inl n ↦ absurd (ground (arith, n))
        | inr (s, q) ↦
            let (n, m, k) =
              >>=-eq-ok (int_lcm current s.decimation_factor)
                (λ n. accumulate_factor ops n cs a.simulators) (rw (q, accumulate_factor) at e) in
            accumulate_factor-pos a h n cs r
              (int_lcm-pos current s.decimation_factor p (h.simulators_pos c.target.simulator s q)
                m)
              k
      ]

  connect_fs-Keeps :
      (output : FunctionIoId) (input : VariableId)
      → Keeps ops (connect_fs ops output input) (Any ops)
  unfolding connect_fs
  connect_fs-Keeps output input =
      bind-Keeps ops (FunPos ops) (function_at-Keeps ops output.function) (λ f p.
        let conns = f.outgoing_sim ++ record { source = output; target = input } ∷ [] in
        bind-Keeps ops (Any ops) (on_simulator-Keeps ops input.simulator _) (λ u q.
          bind-Keeps ops (Any ops)
            (put_function-Keeps ops output.function (record f { outgoing_sim = conns }) p)
            (λ v w.
              bind-Keeps ops {m = λ a. (accumulate_factor ops 1 conns a.simulators, a)} (λ n. 0 < n)
                (λ a h. (h, λ r e. accumulate_factor-pos a h 1 conns r (omega arith) e))
                (λ n pn.
                  put_function-Keeps ops output.function
                    (record f { outgoing_sim = conns; decimation_factor = n }) pn))))

  set_factor-Keeps : (i : ℕ) (n : ℤ) → Keeps ops (set_stepsize_decimation_factor ops i n) (Any ops)
  unfolding set_stepsize_decimation_factor
  set_factor-Keeps i (pos (suc n)) =
      bind-Keeps ops (SimPos ops) (simulator_at-Keeps ops i)
        (λ s p. put_simulator-Keeps ops i _ (omega arith))
  set_factor-Keeps i (pos zero) = throw-Keeps ops _
  set_factor-Keeps i (negsuc n) = throw-Keeps ops _

  add_simulator-HasFactors :
      (i : ℕ) (s : ops.Sim) (hint : ℤ) (a : Algorithm ops)
      → HasFactors ops a
      → HasFactors ops (add_simulator ops i s hint a)
  unfolding add_simulator
  add_simulator-HasFactors i s hint a h =
      (put_simulator-Keeps ops i _ (calculate_decimation_factor-pos a.base_step_size hint) a h).0

  add_function-HasFactors :
      (i : ℕ) (f : ops.Fun) (a : Algorithm ops)
      → HasFactors ops a
      → HasFactors ops (add_function ops i f a)
  unfolding add_function
  add_function-HasFactors i f a h = (put_function-Keeps ops i _ (omega arith) a h).0

  remove_simulator-HasFactors :
      (i : ℕ) (a : Algorithm ops) → HasFactors ops a → HasFactors ops (remove_simulator ops i a)
  unfolding remove_simulator
  remove_simulator-HasFactors i a =
      keeps_factors ops a _ refl
        (λ j n e.
          erase-factor_at ops i j n a.simulators
            (sym (disconnect_simulators-factor_at ops i j (erase ℕ_discrete i a.simulators)) ∙ e))
        (λ j n e. sym (disconnect_functions-factor_at ops i j a.functions) ∙ e)

  -- The calls that change an algorithm. Those that may throw do so with the changes made before;
  -- none is undefined.
  pub data AlgorithmStep : Algorithm ops → Algorithm ops → Type 0 where
    adds_simulator :
        (i : ℕ) (s : ops.Sim) (hint : ℤ) (a : Algorithm ops)
        → AlgorithmStep a (add_simulator ops i s hint a)
    removes_simulator : (i : ℕ) (a : Algorithm ops) → AlgorithmStep a (remove_simulator ops i a)
    adds_function :
        (i : ℕ) (f : ops.Fun) (a : Algorithm ops) → AlgorithmStep a (add_function ops i f a)
    connects_ss :
        (output input : VariableId) (a : Algorithm ops)
        → (connect_ss ops output input a).0 ≢ err undefined
        → AlgorithmStep a (connect_ss ops output input a).1
    connects_sf :
        (output : VariableId) (input : FunctionIoId) (a : Algorithm ops)
        → (connect_sf ops output input a).0 ≢ err undefined
        → AlgorithmStep a (connect_sf ops output input a).1
    connects_fs :
        (output : FunctionIoId) (input : VariableId) (a : Algorithm ops)
        → (connect_fs ops output input a).0 ≢ err undefined
        → AlgorithmStep a (connect_fs ops output input a).1
    disconnects :
        (t : VariableId) (a : Algorithm ops) → AlgorithmStep a (disconnect_variable ops t a)
    disconnects_io :
        (t : FunctionIoId) (a : Algorithm ops) → AlgorithmStep a (disconnect_io ops t a)
    sets_up :
        (start : ℤ) (stop : Option ℤ) (a : Algorithm ops) → AlgorithmStep a (setup ops start stop a)
    initializes :
        (a : Algorithm ops)
        → (initialize ops a).0 ≢ err undefined
        → AlgorithmStep a (initialize ops a).1
    takes_step :
        (t : ℤ) (a : Algorithm ops)
        → (do_step ops t a).0 ≢ err undefined
        → AlgorithmStep a (do_step ops t a).1
    sets_factor :
        (i : ℕ) (n : ℤ) (a : Algorithm ops)
        → AlgorithmStep a (set_stepsize_decimation_factor ops i n a).1

  pub data AlgorithmReach : Algorithm ops → Type 0 where
    made :
        {a : Algorithm ops} (hardware : ℕ) (requested : Option ℕ) (base : ℤ)
        → make ops hardware requested base ≡ ok a
        → AlgorithmReach a
    next_call : {a b : Algorithm ops} → AlgorithmReach a → AlgorithmStep a b → AlgorithmReach b

  abbrev fresh : ℕ → ℕ → Algorithm ops
  fresh workers n = record {
    base_step_size = suc n;
    start_time = pos 0;
    stop_time = none;
    simulators = [];
    functions = [];
    step_counter = 0;
    worker_count = workers;
  }

  make-HasFactors :
      (hardware : ℕ) (requested : Option ℕ) (base : ℤ) {a : Algorithm ops}
      → make ops hardware requested base ≡ ok a
      → HasFactors ops a
  unfolding make find
  make-HasFactors hardware requested (pos zero) e = cc
  make-HasFactors hardware requested (negsuc n) e = cc
  make-HasFactors hardware requested (pos (suc n)) {a} e =
      subst (HasFactors ops) same (record {
        base_pos = omega arith;
        simulators_pos = λ i s f. cc;
        functions_pos = λ i s f. cc;
      })
    where
      same : fresh (pool_size ops hardware requested) n ≡ a
      same = cc

  AlgorithmStep-HasFactors :
      {a b : Algorithm ops} → AlgorithmStep a b → HasFactors ops a → HasFactors ops b
  unfolding disconnect_variable disconnect_io setup
  AlgorithmStep-HasFactors (adds_simulator i s hint a) h = add_simulator-HasFactors i s hint a h
  AlgorithmStep-HasFactors (removes_simulator i a) h = remove_simulator-HasFactors i a h
  AlgorithmStep-HasFactors (adds_function i f a) h = add_function-HasFactors i f a h
  AlgorithmStep-HasFactors (connects_ss output input a d) h = (connect_ss-Keeps output input a h).0
  AlgorithmStep-HasFactors (connects_sf output input a d) h = (connect_sf-Keeps output input a h).0
  AlgorithmStep-HasFactors (connects_fs output input a d) h = (connect_fs-Keeps output input a h).0
  AlgorithmStep-HasFactors (disconnects t a) h =
      keeps_factors ops a _ refl (λ i n e. sym (disconnect_in-factor_at ops t i a.simulators) ∙ e)
        (λ i n e. e) h
  AlgorithmStep-HasFactors (disconnects_io t a) h =
      keeps_factors ops a _ refl
        (λ i n e. sym (disconnect_io_in-factor_at ops t i a.simulators) ∙ e) (λ i n e. e) h
  AlgorithmStep-HasFactors (sets_up start stop a) h =
      keeps_factors ops a _ refl (λ i n e. e) (λ i n e. e) h
  AlgorithmStep-HasFactors (initializes a d) h = (initialize-Keeps a h).0
  AlgorithmStep-HasFactors (takes_step t a d) h = do_step-HasFactors t a h
  AlgorithmStep-HasFactors (sets_factor i n a) h = (set_factor-Keeps i n a h).0

  -- In every algorithm that the constructor and any calls lead to, those that throw included, the
  -- base step size and all decimation factors are positive, so no remainder by one of them divides
  -- by zero. No call may be undefined: the least common multiples that are computed are below 2^31.
  pub AlgorithmReach-HasFactors : {a : Algorithm ops} → AlgorithmReach a → HasFactors ops a
  AlgorithmReach-HasFactors (made hardware requested base e) =
      make-HasFactors hardware requested base e
  AlgorithmReach-HasFactors (next_call r s) =
      AlgorithmStep-HasFactors s (AlgorithmReach-HasFactors r)

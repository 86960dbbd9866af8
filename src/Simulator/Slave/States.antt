-- ===== src/Simulator/Slave/States.antt =====
-- The states of a slave simulator against a transition table.
use mathlib.Core.Logic.{if_pos, if_neg}
use libcosim.Base.{Bool, true, false, Option, ◌≡◌, ◌≢◌, refl, sym, ap, ◌∙◌}
use libcosim.Base.Int.{ℤ}
use libcosim.Base.Outcome.{Outcome, ok, err, terminated}
use libcosim.Base.Method.{Method}
use libcosim.Simulator.Impl.{SlaveOps}
use libcosim.Simulator.Slave.{
  SlaveState, created, initialisation, simulation, error, indeterminate, SlaveState-discrete,
  SlaveSimulator, guarded, require, setup, start_simulation, do_step,
}

abbrev pub is_ok : {A : Type 0} → Outcome A → Bool
is_ok (ok a) = true
is_ok (err e) = false

-- The calls that a simulator gets, that change its state.
pub data Kind : Type 0 where
  setting_up starting stepping : Kind

-- The table: where a call leads, by whether it returns or throws.
abbrev pub next_state : Kind → SlaveState → Bool → SlaveState
next_state setting_up created true = initialisation
next_state setting_up created false = error
next_state starting initialisation true = simulation
next_state starting initialisation false = error
next_state stepping simulation true = simulation
next_state stepping simulation false = error
next_state _ st _ = st

-- A call outside its state ends the process (`COSIM_PRECONDITION`).
abbrev pub is_allowed : Kind → SlaveState → Bool
is_allowed setting_up created = true
is_allowed starting initialisation = true
is_allowed stepping simulation = true
is_allowed _ _ = false

clash : true ≢ false
clash e = cc

module _ (Real : Type 0) (zero_real : Real) (ops : SlaveOps Real) where
  abbrev Sim : Type 0
  Sim = SlaveSimulator Real zero_real ops

  abbrev Refused : {A : Type 0} → Bool → Sim → Outcome A × Sim → Type 0
  Refused true s r = Unit {0}
  Refused false s r = (r.0 ≡ err terminated) × (r.1 ≡ s)

  -- Follows the table: the state after the call, and termination where it is not allowed.
  pub record Follows {A : Type 0} (k : Kind) (s : Sim) (r : Outcome A × Sim) : Type 0 where
    pub state_is : r.1.state ≡ next_state k s.state (is_ok r.0)
    pub refused : Refused (is_allowed k s.state) s r

  Refused-out : (A : Type 0) (b : Bool) (s : Sim) → Refused {A = A} b s (err terminated, s)
  Refused-out A true s = tt
  Refused-out A false s = (refl, refl)

  guarded_state :
      {A : Type 0} (final : SlaveState) (m : Method Sim A) (s : Sim)
      → (guarded Real zero_real ops final m s).1.state
        ≡ elim (is_ok (guarded Real zero_real ops final m s).0) [ true ↦ final | false ↦ error ]
  unfolding guarded
  guarded_state {A} final m s = go (m (record s { state = indeterminate })).0
    where
      go :
          (o : Outcome A)
          → elim o [ ok a ↦ final | err e ↦ error ]
            ≡ elim (is_ok o) [ true ↦ final | false ↦ error ]
      go (ok a) = refl
      go (err e) = refl

  module _ {A : Type 0} (k : Kind) (required final : SlaveState) (m : Method Sim A)
      (table : (b : Bool) → next_state k required b ≡ elim b [ true ↦ final | false ↦ error ])
      (other : (st : SlaveState) (b : Bool) → st ≢ required → next_state k st b ≡ st)
      (allowed : is_allowed k required ≡ true) where
    require-Follows :
        (s : Sim)
        → Follows k s (require Real zero_real ops required (guarded Real zero_real ops final m) s)
    unfolding require
    require-Follows s = elim (SlaveState-discrete s.state required) [
      | yes p ↦
          rw
            (if_pos (SlaveState-discrete s.state required) p (guarded Real zero_real ops final m s)
              (err terminated, s))
            (record {
              state_is =
                  guarded_state final m s
                  ∙ sym (table (is_ok (guarded Real zero_real ops final m s).0))
                  ∙ ap (λ st. next_state k st (is_ok (guarded Real zero_real ops final m s).0))
                      (sym p);
              refused = rw (p, allowed) tt;
            })
      | no n ↦
          rw
            (if_neg (SlaveState-discrete s.state required) n (guarded Real zero_real ops final m s)
              (err terminated, s))
            (record {
              state_is = sym (other s.state false n);
              refused = Refused-out A (is_allowed k s.state) s;
            })
    ]

  setup-Follows :
      (s : Sim) (t : ℤ) (stop : Option ℤ) (tolerance : Option Real)
      → Follows setting_up s (setup Real zero_real ops t stop tolerance s)
  unfolding setup
  setup-Follows s t stop tolerance =
      require-Follows setting_up created initialisation _ table other refl s
    where
      table :
          (b : Bool)
          → next_state setting_up created b ≡ elim b [ true ↦ initialisation | false ↦ error ]
      table true = refl
      table false = refl

      other : (st : SlaveState) (b : Bool) → st ≢ created → next_state setting_up st b ≡ st
      other created b n = absurd (n refl)
      other _ b n = refl

  start-Follows : (s : Sim) → Follows starting s (start_simulation Real zero_real ops s)
  unfolding start_simulation
  start-Follows s = require-Follows starting initialisation simulation _ table other refl s
    where
      table :
          (b : Bool)
          → next_state starting initialisation b ≡ elim b [ true ↦ simulation | false ↦ error ]
      table true = refl
      table false = refl

      other : (st : SlaveState) (b : Bool) → st ≢ initialisation → next_state starting st b ≡ st
      other initialisation b n = absurd (n refl)
      other _ b n = refl

  step-Follows : (s : Sim) (t dt : ℤ) → Follows stepping s (do_step Real zero_real ops t dt s)
  unfolding do_step
  step-Follows s t dt = require-Follows stepping simulation simulation _ table other refl s
    where
      table :
          (b : Bool)
          → next_state stepping simulation b ≡ elim b [ true ↦ simulation | false ↦ error ]
      table true = refl
      table false = refl

      other : (st : SlaveState) (b : Bool) → st ≢ simulation → next_state stepping st b ≡ st
      other simulation b n = absurd (n refl)
      other _ b n = refl

  -- Whatever the slave does, `setup`, `start_simulation` and `do_step` move the state by the table:
  -- forward when they return, to `error` when they throw, and never to `indeterminate`. Out of
  -- their state they end the process and change nothing.
  pub calls-Follow :
      (s : Sim) (t dt : ℤ) (stop : Option ℤ) (tolerance : Option Real)
      → Follows setting_up s (setup Real zero_real ops t stop tolerance s)
        × Follows starting s (start_simulation Real zero_real ops s)
        × Follows stepping s (do_step Real zero_real ops t dt s)
  calls-Follow s t dt stop tolerance =
      (setup-Follows s t stop tolerance, start-Follows s, step-Follows s t dt)

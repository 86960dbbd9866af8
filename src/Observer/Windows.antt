-- ===== src/Observer/Windows.antt =====
-- `get_samples` gives the samples of a window of steps.
use libcosim.Base.{
  ℕ, zero, suc, ◌+◌, ◌≤◌, ◌<◌, ◌&&◌, Bool, true, false, List, [], ◌∷◌, some, ltb, leb,
  if◌then◌else◌, ◌≡◌, ◌≢◌, refl, ap, ◌∙◌, arith, ◌⊎◌, inl, inr, ℕ_discrete,
}
use libcosim.Base.Int.{ℤ}
use libcosim.Base.Outcome.{ok, err, out_of_range}
use libcosim.Base.Assoc.{find}
use libcosim.Observer.Series.{Series, samples_from, read_samples, time_at, get_samples}
use libcosim.Observer.Times.{steps_of}

abbrev AllAtLeast : ℕ → List ℕ → Type 0
AllAtLeast n [] = Unit {0}
AllAtLeast n (k ∷ ks) = (n ≤ k) × AllAtLeast n ks

-- The keys of a map, in their order
abbrev pub Rising : List ℕ → Type 0
Rising [] = Unit {0}
Rising (k ∷ ks) = AllAtLeast (suc k) ks × Rising ks

weaken : (n m : ℕ) (ks : List ℕ) → n ≤ m → AllAtLeast m ks → AllAtLeast n ks
weaken n m [] le h = tt
weaken n m (k ∷ ks) le h = (omega (arith, le, h.0), weaken n m ks le h.1)

below_or : (a b : ℕ) → ((a < b) × (ltb a b ≡ true)) ⊎ ((b ≤ a) × (ltb a b ≡ false))
below_or a b = ground arith

leb-true : (a b : ℕ) → a ≤ b → leb a b ≡ true
leb-true a b h = ground arith

and_false : (b : Bool) → (b && false) ≡ false
and_false true = refl
and_false false = refl

leb-false : (a b : ℕ) → b < a → leb a b ≡ false
leb-false a b h = ground arith

module _ {V : Type 0} where
  -- The samples of the steps from `from` on and below `end`
  abbrev pub window : ℕ → ℕ → Series V → Series V
  window from end [] = []
  window from end ((k, v) ∷ m) =
      if leb from k && ltb k end then (k, v) ∷ window from end m else window from end m

  abbrev pub with_times : Series ℤ → Series V → List (ℕ × V × ℤ)
  with_times times [] = []
  with_times times ((k, v) ∷ m) = (k, v, time_at times k) ∷ with_times times m

  no_window : (from end : ℕ) (m : Series V) → AllAtLeast end (steps_of m) → window from end m ≡ []
  no_window from end [] h = refl
  no_window from end ((k, v) ∷ m) h = elim (below_or k end) [
    | inl (lt, e) ↦ absurd (omega (arith, lt, h.0))
    | inr (le, e) ↦ rw (e, and_false (leb from k)) (no_window from end m h.1)
  ]

  read_samples-window :
      (times : Series ℤ) (from cur count end : ℕ) (m : Series V)
      → from ≤ cur
      → end ≡ cur + count
      → AllAtLeast cur (steps_of m)
      → Rising (steps_of m)
      → read_samples count end times m ≡ with_times times (window from end m)
  unfolding read_samples
  read_samples-window times from cur zero end m le e least rising =
      rw (no_window from end m (weaken end cur (steps_of m) (omega (arith, e)) least)) refl
  read_samples-window times from cur (suc count) end [] le e least rising = refl
  read_samples-window times from cur (suc count) end ((k, v) ∷ m) le e least rising =
      elim (below_or k end) [
        | inl (lt, t) ↦
            rw (t, leb-true from k (omega (arith, le, least.0)))
              (ap (◌∷◌ (k, v, time_at times k)) (
                read_samples-window times from (suc cur) count end m (omega (arith, le))
                  (omega (arith, e))
                  (weaken (suc cur) (suc k) (steps_of m) (omega (arith, least.0)) rising.0)
                  rising.1))
        | inr (ge, t) ↦
            rw
              (
                t,
                and_false (leb from k),
                no_window from end m (weaken end (suc k) (steps_of m) (omega (arith, ge)) rising.0),
              )
              refl
      ]

  samples_from-window :
      (from end : ℕ) (m : Series V)
      → Rising (steps_of m)
      → AllAtLeast from (steps_of (samples_from from m))
        × Rising (steps_of (samples_from from m))
        × (window from end (samples_from from m) ≡ window from end m)
  unfolding samples_from
  samples_from-window from end [] rising = (tt, tt, refl)
  samples_from-window from end ((k, v) ∷ m) rising = elim (below_or k from) [
    | inl (lt, t) ↦ rw (t, leb-false from k lt) (samples_from-window from end m rising.1)
    | inr (ge, t) ↦
        rw (t) ((ge, weaken from (suc k) (steps_of m) (omega (arith, ge)) rising.0), rising, refl)
  ]

  -- For a variable with samples, whose steps rise as the keys of a map do, `get_samples` gives exactly
  -- the samples of the steps from the first one asked for on, as many steps as there is space for,
  -- each with its time.
  pub get_samples-window :
      (i : ℕ) (variables : List (ℕ × Series V)) (times : Series ℤ) (from size : ℕ) {m : Series V}
      → find ℕ_discrete i variables ≡ some m
      → m ≢ []
      → Rising (steps_of m)
      → get_samples i variables times from size
        ≡ ok (with_times times (window from (from + size) m))
  unfolding get_samples
  get_samples-window i variables times from size {m} h nonempty rising =
      rw (h, get_samples) (go m nonempty rising)
    where
      go :
          (l : Series V)
          → l ≢ []
          → Rising (steps_of l)
          → elim l [
            | [] ↦ err out_of_range
            | x ∷ rest ↦ ok (read_samples size (from + size) times (samples_from from (x ∷ rest)))
          ]
            ≡ ok (with_times times (window from (from + size) l))
      go [] n r = absurd (n refl)
      go (x ∷ rest) n r =
          let (least, still, same) = samples_from-window from (from + size) (x ∷ rest) r in
          ap ok (
            read_samples-window times from from size (from + size) (samples_from from (x ∷ rest))
              (omega arith) refl least still
            ∙ ap (with_times times) same)

-- ===== src/Manipulator/Scenario/Moves.antt =====
-- How a step of scenario_manager.cpp moves events from the map of the remaining ones to that of the
-- executed ones.
use mathlib.Core.Path.{subst}
use mathlib.Core.List.Memᴰ.{Memᴰ, head, tail}
use libcosim.Base.{
  ℕ, Bool, true, false, List, [], ◌∷◌, some, ◌≡◌, ◌≢◌, ◌⊎◌, inl, inr, refl, sym, ap, ◌∙◌,
  ℕ_discrete, Bool-cases, true-ne-false, get_elem?,
}
use libcosim.Base.Int.{ℤ, le_ℤ}
use libcosim.Base.Assoc.{assign, erase}
use libcosim.Base.Positions.{some_cancel}
use libcosim.Base.Entries.{of_mem-assign, mem-assign_self, mem-assign_ne, of_mem-erase, mem-erase}
use libcosim.Manipulator.Actions.{Event}
use libcosim.Manipulator.Scenario.{Events, ScenarioState, keep, record_executed}

abbrev pub Entry : Type 0 → Type 0
Entry Real = ℕ × Event Real

module _ {Real : Type 0} where
  abbrev pub due : ℤ → Entry Real → Bool
  due now x = le_ℤ x.1.time now

  -- The entries whose time has come, added to the map of those that were run.
  abbrev pub collect : ℤ → List (Entry Real) → List (Entry Real) → List (Entry Real)
  collect now [] ex = ex
  collect now (p ∷ es) ex = collect now es (keep (due now p) p ex)

  -- Entries under the key of `x` are `x`.
  abbrev Sole : Entry Real → List (Entry Real) → Type 0
  Sole x es = (y : Entry Real) → Memᴰ y es → y.0 ≡ x.0 → y ≡ x

  of_mem-keep :
      (b : Bool) (p : Entry Real) (ex : List (Entry Real)) {x : Entry Real}
      → Memᴰ x (keep b p ex)
      → ((x ≡ p) × (b ≡ true)) ⊎ Memᴰ x ex
  of_mem-keep true p ex h = elim (of_mem-assign ℕ_discrete p.0 p.1 ex h) [
    | inl e ↦ inl (e, refl)
    | inr m ↦ inr m
  ]
  of_mem-keep false p ex h = inr h

  mem-keep :
      (b : Bool) (p : Entry Real) (ex : List (Entry Real)) {x : Entry Real}
      → (p.0 ≡ x.0 → p ≡ x)
      → Memᴰ x ex
      → Memᴰ x (keep b p ex)
  mem-keep false p ex agree h = h
  mem-keep true p ex {x} agree h = elim (ℕ_discrete x.0 p.0) [
    | yes same ↦
        subst (λ (y : Entry Real). Memᴰ y (assign ℕ_discrete p.0 p.1 ex)) (agree (sym same))
          (mem-assign_self ℕ_discrete p.0 p.1 ex)
    | no other ↦ mem-assign_ne ℕ_discrete p.0 p.1 ex other h
  ]

  of_mem-collect :
      (now : ℤ) (es ex : List (Entry Real)) {x : Entry Real}
      → Memᴰ x (collect now es ex)
      → (Memᴰ x es × (due now x ≡ true)) ⊎ Memᴰ x ex
  of_mem-collect now [] ex h = inr h
  of_mem-collect now (p ∷ es) ex h = elim (of_mem-collect now es (keep (due now p) p ex) h) [
    | inl l ↦ inl (tail l.0, l.1)
    | inr k ↦ elim (of_mem-keep (due now p) p ex k) [
      | inl q ↦ inl (head q.0, ap (due now) q.0 ∙ q.1)
      | inr m ↦ inr m
    ]
  ]

  collect-keeps :
      (now : ℤ) (es ex : List (Entry Real)) {x : Entry Real}
      → Sole x es
      → Memᴰ x ex
      → Memᴰ x (collect now es ex)
  collect-keeps now [] ex sole h = h
  collect-keeps now (p ∷ es) ex sole h =
      collect-keeps now es (keep (due now p) p ex) (λ y m. sole y (tail m))
        (mem-keep (due now p) p ex (sole p (head refl)) h)

  mem-collect :
      (now : ℤ) (es ex : List (Entry Real)) {x : Entry Real}
      → Sole x es
      → Memᴰ x es
      → due now x ≡ true
      → Memᴰ x (collect now es ex)
  mem-collect now [] ex sole h d = elim h [ ]
  mem-collect now (p ∷ es) ex {x} sole (head e) d =
      collect-keeps now es (keep (due now p) p ex) (λ y m. sole y (tail m))
        (subst (λ (b : Bool). Memᴰ x (keep b p ex)) (sym (ap (due now) (sym e) ∙ d))
          (subst (λ (y : Entry Real). Memᴰ y (keep true p ex)) (sym e)
            (mem-assign_self ℕ_discrete p.0 p.1 ex)))
  mem-collect now (p ∷ es) ex sole (tail t) d =
      mem-collect now es (keep (due now p) p ex) (λ y m. sole y (tail m)) t d

  abbrev run : List (Entry Real) → ScenarioState Real → ScenarioState Real
  run = record_executed

  of_remaining-run :
      (out : List (Entry Real)) (s : ScenarioState Real) {x : Entry Real}
      → Memᴰ x (run out s).remaining_events
      → Memᴰ x s.remaining_events × ((y : Entry Real) → Memᴰ y out → x.0 ≢ y.0)
  unfolding record_executed
  of_remaining-run [] s h = (h, λ y m. elim m [ ])
  of_remaining-run ((i, e) ∷ out) s {x} h =
      let r =
        of_remaining-run out
          (record s {
            remaining_events = erase ℕ_discrete i s.remaining_events;
            executed_events = assign ℕ_discrete i e s.executed_events;
          })
          h in
      let q = of_mem-erase ℕ_discrete i s.remaining_events r.0 in
      (
        q.0,
        λ y m. elim m [ head p ↦ λ k. q.1 (k ∙ ap (λ (z : Entry Real). z.0) p) | tail t ↦ r.1 y t ],
      )

  remaining-run :
      (out : List (Entry Real)) (s : ScenarioState Real) {x : Entry Real}
      → Memᴰ x s.remaining_events
      → ((y : Entry Real) → Memᴰ y out → x.0 ≢ y.0)
      → Memᴰ x (run out s).remaining_events
  unfolding record_executed
  remaining-run [] s h ne = h
  remaining-run ((i, e) ∷ out) s h ne =
      remaining-run out _ (mem-erase ℕ_discrete i s.remaining_events (ne (i, e) (head refl)) h)
        (λ y m. ne y (tail m))

  of_executed-run :
      (out : List (Entry Real)) (s : ScenarioState Real) {x : Entry Real}
      → Memᴰ x (run out s).executed_events
      → Memᴰ x out ⊎ Memᴰ x s.executed_events
  unfolding record_executed
  of_executed-run [] s h = inr h
  of_executed-run ((i, e) ∷ out) s h = elim (of_executed-run out _ h) [
    | inl m ↦ inl (tail m)
    | inr m ↦ elim (of_mem-assign ℕ_discrete i e s.executed_events m) [
      | inl p ↦ inl (head p)
      | inr k ↦ inr k
    ]
  ]

  executed-run_kept :
      (out : List (Entry Real)) (s : ScenarioState Real) {x : Entry Real}
      → Sole x out
      → Memᴰ x s.executed_events
      → Memᴰ x (run out s).executed_events
  unfolding record_executed
  executed-run_kept [] s sole h = h
  executed-run_kept ((i, e) ∷ out) s sole h =
      executed-run_kept out _ (λ y m. sole y (tail m))
        (mem-keep true (i, e) s.executed_events (sole (i, e) (head refl)) h)

  executed-run :
      (out : List (Entry Real)) (s : ScenarioState Real) {x : Entry Real}
      → Sole x out
      → Memᴰ x out
      → Memᴰ x (run out s).executed_events
  unfolding record_executed
  executed-run [] s sole h = elim h [ ]
  executed-run ((i, e) ∷ out) s {x} sole (head p) =
      executed-run_kept out _ (λ y m. sole y (tail m))
        (subst (λ (z : Entry Real). Memᴰ z (assign ℕ_discrete i e s.executed_events)) (sym p)
          (mem-assign_self ℕ_discrete i e s.executed_events))
  executed-run ((i, e) ∷ out) s sole (tail t) = executed-run out _ (λ y m. sole y (tail m)) t

  run-rest :
      (out : List (Entry Real)) (s : ScenarioState Real)
      → let t = run out s in
        (t.start_time ≡ s.start_time) × (t.end_time ≡ s.end_time) × (t.running ≡ s.running)
  unfolding record_executed
  run-rest [] s = (refl, refl, refl)
  run-rest (p ∷ out) s = run-rest out _

  -- What a step that ran its events did to the maps.
  pub record Moved (now : ℤ) (s t : ScenarioState Real) : Type 0 where
    pub waits :
        (x : Entry Real)
        → Memᴰ x t.remaining_events
        → Memᴰ x s.remaining_events × (due now x ≡ false)
    pub stays :
        (x : Entry Real) → Memᴰ x s.remaining_events → due now x ≡ false → Memᴰ x t.remaining_events
    pub ran :
        (x : Entry Real) → Memᴰ x s.remaining_events → due now x ≡ true → Memᴰ x t.executed_events
    pub kept : (x : Entry Real) → Memᴰ x s.executed_events → Memᴰ x t.executed_events
    pub only :
        (x : Entry Real)
        → Memᴰ x t.executed_events
        → Memᴰ x s.executed_events ⊎ (Memᴰ x s.remaining_events × (due now x ≡ true))
    pub start_time : t.start_time ≡ s.start_time
    pub end_time : t.end_time ≡ s.end_time
    pub running : t.running ≡ s.running

  -- The numbers of the events are those of the scenario, and an event is not in both maps.
  pub record IsSplit (events : List (Event Real)) (s : ScenarioState Real) : Type 0 where
    pub remaining : (x : Entry Real) → Memᴰ x s.remaining_events → get_elem? events x.0 ≡ some x.1
    pub executed : (x : Entry Real) → Memᴰ x s.executed_events → get_elem? events x.0 ≡ some x.1
    pub apart : (x : Entry Real) → Memᴰ x s.remaining_events → Memᴰ x s.executed_events → ⊥
    pub covered :
        (i : ℕ) (e : Event Real)
        → get_elem? events i ≡ some e
        → Memᴰ (i, e) s.remaining_events ⊎ Memᴰ (i, e) s.executed_events

  -- Where two entries stand under one number, they are one.
  numbered-eq :
      (events : List (Event Real)) {x y : Entry Real}
      → get_elem? events x.0 ≡ some x.1
      → get_elem? events y.0 ≡ some y.1
      → y.0 ≡ x.0
      → y ≡ x
  numbered-eq events {x} {y} p q same =
      let e : y.1 ≡ x.1 = some_cancel (sym q ∙ ap (get_elem? events) same ∙ p) in
      ap (λ (i : ℕ). (i, y.1)) same ∙ ap (λ (v : Event Real). (x.0, v)) e

  module _ (visit : Events Real → Events Real)
      (visits : (m : Events Real) (x : Entry Real)
        → (Memᴰ x (visit m) → Memᴰ x m) × (Memᴰ x m → Memᴰ x (visit m))) where
    pub record_executed-Moved :
        {events : List (Event Real)} (now : ℤ) (s : ScenarioState Real)
        → IsSplit events s
        → Moved now s (run (collect now (visit s.remaining_events) []) s)
    record_executed-Moved {events} now s split = record {
      waits = λ x h.
          let q = of_remaining-run out s h in
          (
            q.0,
            elim (Bool-cases (due now x)) [
              | inl d ↦ absurd (q.1 x (out-of x q.0 d) refl)
              | inr d ↦ d
            ],
          );
      stays = λ x h d. remaining-run out s h (λ y m k.
          true-ne-false
            (sym (of_out y m).1 ∙ ap (due now) (alike x y h (of_out y m).0 (sym k)) ∙ d));
      ran = λ x h d. executed-run out s (λ y m k. alike x y h (of_out y m).0 k) (out-of x h d);
      kept = λ x h.
          executed-run_kept out s
            (λ y m k. numbered-eq events (split.executed x h) (split.remaining y (of_out y m).0) k)
            h;
      only = λ x h. elim (of_executed-run out s h) [ inl m ↦ inr (of_out x m) | inr m ↦ inl m ];
      start_time = (run-rest out s).0;
      end_time = (run-rest out s).1;
      running = (run-rest out s).2;
    }
      where
        out : List (Entry Real)
        out = collect now (visit s.remaining_events) []

        of_out : (x : Entry Real) → Memᴰ x out → Memᴰ x s.remaining_events × (due now x ≡ true)
        of_out x h = elim (of_mem-collect now (visit s.remaining_events) [] h) [
          | inl l ↦ ((visits s.remaining_events x).0 l.0, l.1)
          | inr m ↦ elim m [ ]
        ]

        alike :
            (x y : Entry Real)
            → Memᴰ x s.remaining_events
            → Memᴰ y s.remaining_events
            → y.0 ≡ x.0
            → y ≡ x
        alike x y h k same = numbered-eq events (split.remaining x h) (split.remaining y k) same

        out-of : (x : Entry Real) → Memᴰ x s.remaining_events → due now x ≡ true → Memᴰ x out
        out-of x h d =
            mem-collect now (visit s.remaining_events) []
              (λ y m k. alike x y h ((visits s.remaining_events y).0 m) k)
              ((visits s.remaining_events x).1 h) d

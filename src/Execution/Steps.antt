-- ===== src/Execution/Steps.antt =====
-- How a step of an execution, and a run of several, ends.
use libcosim.Base.{
  ℕ, suc, Bool, true, false, List, [], ◌∷◌, if◌then◌else◌, ◌≡◌, refl, ap, ◌∙◌, ◌⊎◌, inl, inr,
}
use libcosim.Base.Int.{ℤ, add_ℤ}
use libcosim.Base.Outcome.{ok_cancel, Outcome, ok, err}
use libcosim.Base.Method.{Method, pure, ◌>>=◌, ◌>>◌, >>=-ends, modify}
use libcosim.Execution.Defs.{Parts, Execution, E, call, for_each}
use libcosim.Execution.Step.{start, commence, advance, tell, initialize_once, notify, step}

module _ {Real : Type 0} (parts : Parts Real) where
  abbrev X : Type 0
  X = Execution parts

  abbrev pub put_world : parts.World → X → X
  put_world w e = record e { world = w }

  -- Only the shared objects differ.
  abbrev pub Within : X → X → Type 0
  Within e f = (w : parts.World) × (f ≡ record e { world = w })

  abbrev pub started : X → parts.World → X
  started e w = record e { world = w; initialized = true }

  abbrev pub advanced : X → ℤ → parts.World → X
  advanced e d w = record e {
    world = w;
    initialized = true;
    current_time = add_ℤ e.current_time d;
    last_step = suc e.last_step;
  }

  -- A step that fails leaves the time and the counter, unless it fails when the observers are told.
  abbrev pub StepEnds : X → Outcome ℤ → X → Type 0
  StepEnds e (ok d) f = (w : parts.World) × (f ≡ advanced e d w)
  StepEnds e (err x) f =
      Within e f
      ⊎ ((w : parts.World) × (f ≡ started e w))
      ⊎ ((d : ℤ) × (w : parts.World) × (f ≡ advanced e d w))

  call-Within : {B : Type 0} (m : Method parts.World B) (e : X) → Within e (call parts m e).1
  call-Within m e = ((m e.world).1, refl)

  pub for_each-Within :
      {B : Type 0} (f : B → Method parts.World (Unit {0})) (xs : List B) (e : X)
      → Within e (for_each parts f xs e).1
  unfolding for_each
  for_each-Within f [] e = (e.world, refl)
  for_each-Within f (x ∷ xs) e =
      >>=-ends (call parts (f x)) (λ _. for_each parts f xs) e (λ _ t. Within e t)
        (λ _ t. Within e t) (call-Within (f x) e)
        (λ _ t h. let (w, p) = for_each-Within f xs t in (w, p ∙ ap (put_world w) h.1)) (λ _ t h. h)

  abbrev StartEnds : X → Outcome (Unit {0}) → X → Type 0
  StartEnds e (ok u) f = (w : parts.World) × (f ≡ started e w)
  StartEnds e (err x) f = Within e f ⊎ ((w : parts.World) × (f ≡ started e w))

  started-ends :
      (e : X) (o : Outcome (Unit {0})) (f : X)
      → (w : parts.World) × (f ≡ started e w)
      → StartEnds e o f
  started-ends e (ok u) f h = h
  started-ends e (err x) f h = inr h

  abbrev put_initialized : X → Bool → X
  put_initialized e b = record e { initialized = b }

  start-ends :
      (n : ℕ) (t : ℤ) (os : List parts.Observer) (e : X)
      → StartEnds e (start parts n t os e).0 (start parts n t os e).1
  unfolding start
  start-ends n t os e =
      let announce : E parts (Unit {0}) =
        for_each parts (λ o. parts.simulation_initialized o n t) os in
      >>=-ends (call parts parts.initialize)
        (λ _. modify (λ e. record e { initialized = true }) >> announce) e (λ _ f. Within e f)
        (StartEnds e) (call-Within parts.initialize e)
        (λ _ f h.
          let g : X = put_initialized f true in
          let (w, p) = for_each-Within (λ o. parts.simulation_initialized o n t) os g in
          started-ends e (announce g).0 (announce g).1 (w, p ∙ ap (λ y. started y w) h.1))
        (λ _ f h. inl h)

  initialize_once-ends :
      (e : X) → StartEnds e (initialize_once parts e).0 (initialize_once parts e).1
  unfolding initialize_once
  initialize_once-ends e = go e.initialized refl
    where
      m : E parts (Unit {0})
      m = start parts e.last_step e.current_time e.observers

      go :
          (b : Bool)
          → e.initialized ≡ b
          → StartEnds e ((if b then pure tt else m) e).0 ((if b then pure tt else m) e).1
      go true h = (e.world, ap (put_initialized e) h)
      go false h = start-ends e.last_step e.current_time e.observers e

  commence-Within : (e : X) → Within e (commence parts e).1
  unfolding commence
  commence-Within e = for_each-Within (λ m. parts.step_commencing m e.current_time) e.manipulators e

  tell-Within : (result : ℤ × List ℕ) (e : X) → Within e (tell parts result e).1
  unfolding tell
  tell-Within result e =
      for_each-Within (λ o. notify parts o result.1 e.last_step result.0 e.current_time) e.observers
        e

  abbrev moved : X → ℤ → parts.World → X
  moved e d w = record e {
    world = w;
    current_time = add_ℤ e.current_time d;
    last_step = suc e.last_step;
  }

  abbrev AdvanceEnds : X → Outcome (ℤ × List ℕ) → X → Type 0
  AdvanceEnds e (ok result) f = (w : parts.World) × (f ≡ moved e result.0 w)
  AdvanceEnds e (err x) f = Within e f

  advance-ends : (e : X) → AdvanceEnds e (advance parts e).0 (advance parts e).1
  unfolding advance
  advance-ends e =
      >>=-ends (call parts (parts.do_step e.current_time))
        (λ result.
          modify (λ f. record f {
            current_time = add_ℤ f.current_time result.0;
            last_step = suc f.last_step;
          })
          >> pure result)
        e (λ _ f. Within e f) (AdvanceEnds e) (call-Within (parts.do_step e.current_time) e)
        (λ result f h. (h.0, ap (λ y. moved y result.0 y.world) h.1)) (λ _ f h. h)

  abbrev Advanced : X → ℤ → X → Type 0
  Advanced e d f = (w : parts.World) × (f ≡ advanced e d w)

  told-ends :
      (e : X) (result : ℤ × List ℕ) (f : X)
      → Advanced e result.0 f
      → StepEnds e
          ((tell parts result >> pure result.0) f).0
          ((tell parts result >> pure result.0) f).1
  told-ends e result f h =
      >>=-ends (tell parts result) (λ _. pure result.0) f (λ _ g. Advanced e result.0 g)
        (StepEnds e) (let (w, p) = tell-Within result f in (w, p ∙ ap (put_world w) h.1))
        (λ _ g k. k) (λ _ g k. inr (inr (result.0, k.0, k.1)))

  advanced-ends :
      (e f : X)
      → (w : parts.World) × (f ≡ started e w)
      → (let rest : E parts ℤ = advance parts >>= λ r. tell parts r >> pure r.0 in
          StepEnds e (rest f).0 (rest f).1)
  advanced-ends e f h =
      >>=-ends (advance parts) (λ r. tell parts r >> pure r.0) f (AdvanceEnds f) (StepEnds e)
        (advance-ends f) (λ r g k. told-ends e r g (k.0, k.1 ∙ ap (λ y. moved y r.0 k.0) h.1))
        (λ _ g k. inr (inl (k.0, k.1 ∙ ap (put_world k.0) h.1)))

  -- Whether a step returns or throws, it leaves all but the shared objects, the flag of the
  -- initialization, the time and the counter. If it returns `d`, the simulation is initialized, the
  -- time is `d` later and the counter one higher. If it throws, either the time and the counter are
  -- what they were or, after a step of the algorithm that took `d`, they have moved as if it returned.
  pub step_lem : (e : X) → StepEnds e (step parts e).0 (step parts e).1
  unfolding step
  step_lem e =
      >>=-ends (initialize_once parts)
        (λ _. commence parts >> (advance parts >>= λ r. tell parts r >> pure r.0)) e (StartEnds e)
        (StepEnds e) (initialize_once-ends e)
        (λ _ f h.
          >>=-ends (commence parts) (λ _. advance parts >>= λ r. tell parts r >> pure r.0) f
            (λ _ g. (w : parts.World) × (g ≡ started e w)) (StepEnds e)
            (let (w, p) = commence-Within f in (w, p ∙ ap (put_world w) h.1))
            (λ _ g k. advanced-ends e g k) (λ _ g k. inr (inl k)))
        (λ _ f h. elim h [ inl p ↦ inl p | inr p ↦ inr (inl p) ])

  pub step_ok :
      (e : X) {d : ℤ}
      → (step parts e).0 ≡ ok d
      → (w : parts.World) × ((step parts e).1 ≡ advanced e d w)
  step_ok e {d} h = go (step parts e).0 (step_lem e) h
    where
      go :
          (o : Outcome ℤ)
          → StepEnds e o (step parts e).1
          → o ≡ ok d
          → (w : parts.World) × ((step parts e).1 ≡ advanced e d w)
      go (ok c) ends same = rw (← ok_cancel same) ends
      go (err x) ends same = cc

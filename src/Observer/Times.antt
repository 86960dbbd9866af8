-- ===== src/Observer/Times.antt =====
-- Every sample that an observer keeps has a time.
use mathlib.Core.Path.{subst}
use libcosim.Base.{
  ℕ, suc, ◌<◌, Bool, true, false, List, [], ◌∷◌, ◌++◌, length, drop, ltb, ◌==◌, if◌then◌else◌, ◌≡◌,
  refl, sym, ap, ◌∙◌, arith, ℕ_discrete, ite-both,
}
use libcosim.Base.Outcome.{Outcome, ok, err}
use libcosim.Base.Assoc.{assign, erase}
use libcosim.Observer.Series.{Series, put_sample, adjust_if_full, observe_all}

abbrev pub IsSuffix : List ℕ → List ℕ → Type 0
IsSuffix xs ys = (before : List ℕ) × (ys ≡ before ++ xs)

-- All the numbers are below a bound.
abbrev pub AllBelow : ℕ → List ℕ → Type 0
AllBelow n [] = Unit {0}
AllBelow n (k ∷ ks) = (k < n) × AllBelow n ks

abbrev pub trim : ℕ → List ℕ → List ℕ
trim size xs = if ltb size (length xs) then drop 1 xs else xs

AllBelow-append : (n : ℕ) (xs ys : List ℕ) → AllBelow n (xs ++ ys) → AllBelow n ys
AllBelow-append n [] ys h = h
AllBelow-append n (x ∷ xs) ys h = AllBelow-append n xs ys h.1

append_assoc : (xs ys zs : List ℕ) → (xs ++ ys) ++ zs ≡ xs ++ (ys ++ zs)
append_assoc [] ys zs = refl
append_assoc (x ∷ xs) ys zs = ap (◌∷◌ x) (append_assoc xs ys zs)

-- Where the shorter list loses its front, the longer one does too.
trim-IsSuffix :
    (size : ℕ) (xs ys : List ℕ) → IsSuffix xs ys → IsSuffix (trim size xs) (trim size ys)
trim-IsSuffix size xs ys ([], e) = ([], ap (trim size) e)
trim-IsSuffix size xs ys (b ∷ before, e) =
    subst (λ zs. IsSuffix (trim size xs) (trim size zs)) (sym e)
      (go xs (ltb size (length xs)) (ltb size (length (b ∷ before ++ xs))))
  where
    go :
        (zs : List ℕ) (p q : Bool)
        → IsSuffix (if p then drop 1 zs else zs) (if q then before ++ zs else b ∷ before ++ zs)
    go zs false true = (before, refl)
    go zs false false = (b ∷ before, refl)
    go [] true true = (before, refl)
    go [] true false = (b ∷ before, refl)
    go (z ∷ zs) true true = (before ++ z ∷ [], sym (append_assoc before (z ∷ []) zs))
    go (z ∷ zs) true false =
        (b ∷ before ++ z ∷ [], ap (◌∷◌ b) (sym (append_assoc before (z ∷ []) zs)))

append-IsSuffix : (n : ℕ) (xs ys : List ℕ) → IsSuffix xs ys → IsSuffix (xs ++ n ∷ []) (ys ++ n ∷ [])
append-IsSuffix n xs ys (before, e) =
    (before, ap (λ zs. zs ++ n ∷ []) e ∙ append_assoc before xs (n ∷ []))

append_nil : (xs : List ℕ) → xs ++ [] ≡ xs
append_nil [] = refl
append_nil (x ∷ xs) = ap (◌∷◌ x) (append_nil xs)

not_lt : (n k : ℕ) → k < n → ltb n k ≡ false
not_lt n k h = ground arith

not_eq : (n k : ℕ) → k < n → (n == k) ≡ false
not_eq n k h = ground arith

module _ {V : Type 0} where
  abbrev pub steps_of : Series V → List ℕ
  steps_of [] = []
  steps_of ((k, v) ∷ m) = k ∷ steps_of m

  length-steps_of : (m : Series V) → length (steps_of m) ≡ length m
  length-steps_of [] = refl
  length-steps_of ((k, v) ∷ m) = ap suc (length-steps_of m)

  pub steps_of-adjust :
      (size : ℕ) (m : Series V) → steps_of (adjust_if_full size m) ≡ trim size (steps_of m)
  unfolding adjust_if_full
  steps_of-adjust size m =
      go (ltb size (length m)) m
      ∙ ap (λ n. if ltb size n then drop 1 (steps_of m) else steps_of m) (sym (length-steps_of m))
    where
      go :
          (b : Bool) (l : Series V)
          → steps_of (if b then drop 1 l else l) ≡ (if b then drop 1 (steps_of l) else steps_of l)
      go true [] = refl
      go true ((k, v) ∷ l) = refl
      go false l = refl

  -- A new last step is put behind the others.
  pub steps_of-put_sample :
      (n : ℕ) (v : V) (m : Series V)
      → AllBelow n (steps_of m)
      → steps_of (put_sample n v m) ≡ steps_of m ++ n ∷ []
  unfolding put_sample
  steps_of-put_sample n v [] h = refl
  steps_of-put_sample n v ((k, x) ∷ m) h =
      rw (not_lt n k h.0, not_eq n k h.0) (ap (◌∷◌ k) (steps_of-put_sample n v m h.1))

  put-IsSuffix :
      (size n : ℕ) (v : V) (m : Series V) (times : List ℕ)
      → AllBelow n times
      → IsSuffix (steps_of m) times
      → IsSuffix (steps_of (adjust_if_full size (put_sample n v m))) (trim size (times ++ n ∷ []))
  put-IsSuffix size n v m times below (before, e) =
      let below_m = AllBelow-append n before (steps_of m) (subst (AllBelow n) e below) in
      subst (λ xs. IsSuffix xs (trim size (times ++ n ∷ [])))
        (ap (trim size) (sym (steps_of-put_sample n v m below_m))
          ∙ sym (steps_of-adjust size (put_sample n v m)))
        (trim-IsSuffix size (steps_of m ++ n ∷ []) (times ++ n ∷ [])
          (append-IsSuffix n (steps_of m) times (before, e)))

  -- The steps of each series end the list of times.
  abbrev pub AllTimed : List (ℕ × Series V) → List ℕ → Type 0
  AllTimed [] times = Unit {0}
  AllTimed ((i, m) ∷ rest) times = IsSuffix (steps_of m) times × AllTimed rest times

  pub observe_all-AllTimed :
      (get : ℕ → Outcome V) (size n : ℕ) (samples : List (ℕ × Series V)) (times : List ℕ)
      → AllBelow n times
      → AllTimed samples times
      → (observe_all get size n samples).0 ≡ ok tt
      → AllTimed (observe_all get size n samples).1 (trim size (times ++ n ∷ []))
  unfolding observe_all
  observe_all-AllTimed get size n [] times below h e = tt
  observe_all-AllTimed get size n ((i, m) ∷ rest) times below h e =
      go (get i) (observe_all-AllTimed get size n rest times below h.1) e
    where
      go :
          (o : Outcome V)
          → ((observe_all get size n rest).0 ≡ ok tt
              → AllTimed (observe_all get size n rest).1 (trim size (times ++ n ∷ [])))
          → (let later = observe_all get size n rest in
              let r : Outcome (Unit {0}) × List (ℕ × Series V) = elim o [
                | err x ↦ (err x, (i, m) ∷ rest)
                | ok v ↦ (later.0, (i, adjust_if_full size (put_sample n v m)) ∷ later.1)
              ] in
              r.0 ≡ ok tt → AllTimed r.1 (trim size (times ++ n ∷ [])))
      go (err x) timed k = cc
      go (ok v) timed k = (put-IsSuffix size n v m times below h.0, timed k)

  pub assign-AllTimed :
      (i : ℕ) (samples : List (ℕ × Series V)) (times : List ℕ)
      → AllTimed samples times
      → AllTimed (assign ℕ_discrete i [] samples) times
  unfolding assign
  assign-AllTimed i [] times h = ((times, sym (append_nil times)), tt)
  assign-AllTimed i ((j, m) ∷ rest) times h =
      ite-both (ℕ_discrete j i) (λ l. AllTimed l times) ((j, []) ∷ rest)
        ((j, m) ∷ assign ℕ_discrete i [] rest) ((times, sym (append_nil times)), h.1)
        (h.0, assign-AllTimed i rest times h.1)

  pub erase-AllTimed :
      (i : ℕ) (samples : List (ℕ × Series V)) (times : List ℕ)
      → AllTimed samples times
      → AllTimed (erase ℕ_discrete i samples) times
  unfolding erase
  erase-AllTimed i [] times h = tt
  erase-AllTimed i ((j, m) ∷ rest) times h =
      let later = erase-AllTimed i rest times h.1 in
      ite-both (ℕ_discrete j i) (λ l. AllTimed l times) (erase ℕ_discrete i rest)
        ((j, m) ∷ erase ℕ_discrete i rest) later (h.0, later)

-- ===== src/Manipulator/Scenario/Cleanup.antt =====
-- What the cleanup of scenario_manager.cpp leaves: the variables that it resets have no modifier.
use mathlib.Core.Path.{subst}
use libcosim.Base.{
  ℕ, zero, suc, Bool, true, false, not, List, [], ◌∷◌, Option, none, some, ◌≡◌, ◌≢◌, refl, sym, ap,
  ◌∙◌, if◌then◌else◌, ℕ_discrete, get_elem?, set, length, ltb,
}
use libcosim.Base.Outcome.{
  Outcome, ok, err, of_option, out_of_range, terminated, undefined, guard, ok_cancel, >>=-eq-ok,
}
use libcosim.Base.Outcome as O
use libcosim.Base.Assoc.{
  find, assign, erase, find-erase_self, find-erase_ne, find-assign_self, find-assign_ne,
}
use libcosim.Base.Method.{Method, modify, ◌>>◌}
use libcosim.Simulator.GetCache.{Modifier, GetCache, index_or_insert}
use libcosim.Simulator.GetCache
use libcosim.Simulator.SetCache.{SetCache, Exposed, put_modifier, ensure_listed, append_value}
use libcosim.Simulator.SetCache
use libcosim.Simulator.Impl.{
  Channel, set_input_modifier, set_output_modifier, set_modified_reference,
}

index_or_insert-finds :
    (r : ℕ) (m : List (ℕ × ℕ)) → let p = index_or_insert r m in find ℕ_discrete r p.1 ≡ some p.0
unfolding index_or_insert
index_or_insert-finds r m = go (find ℕ_discrete r m) refl
  where
    go :
        (o : Option ℕ)
        → find ℕ_discrete r m ≡ o
        → let p = (elim o as (λ x. ℕ × List (ℕ × ℕ)) [
          | some i ↦ (i, m)
          | none ↦ (0, assign ℕ_discrete r 0 m)
        ]) in
          find ℕ_discrete r p.1 ≡ some p.0
    go none e = find-assign_self ℕ_discrete r 0 m
    go (some i) e = e

index_or_insert-ne :
    (r j : ℕ) (m : List (ℕ × ℕ))
    → r ≢ j
    → find ℕ_discrete j (index_or_insert r m).1 ≡ find ℕ_discrete j m
unfolding index_or_insert
index_or_insert-ne r j m ne = go (find ℕ_discrete r m)
  where
    go :
        (o : Option ℕ)
        → find ℕ_discrete j
            (elim o as (λ x. ℕ × List (ℕ × ℕ)) [
              | some i ↦ (i, m)
              | none ↦ (0, assign ℕ_discrete r 0 m)
            ]).1
          ≡ find ℕ_discrete j m
    go none = find-assign_ne ℕ_discrete r j 0 m ne
    go (some i) = refl

find-erase-none :
    {V : Type 0} (k j : ℕ) (m : List (ℕ × V))
    → find ℕ_discrete j m ≡ none
    → find ℕ_discrete j (erase ℕ_discrete k m) ≡ none
find-erase-none k j m h = elim (ℕ_discrete k j) [
  | yes same ↦
      subst (λ (i : ℕ). find ℕ_discrete i (erase ℕ_discrete k m) ≡ none) same
        (find-erase_self ℕ_discrete k m)
  | no other ↦ find-erase_ne ℕ_discrete k j m other ∙ h
]

module _ {T : Type 0} where
  -- The modifier that stands in the cache of written values, and that of read values
  abbrev pub input_modifier : ℕ → SetCache T → Option (Modifier T)
  input_modifier r c = find ℕ_discrete r c.modifiers

  abbrev flat : Option (Option (Modifier T)) → Option (Modifier T)
  flat none = none
  flat (some m) = m

  abbrev modifier_at : Option ℕ → List (Option (Modifier T)) → Option (Modifier T)
  modifier_at none ms = none
  modifier_at (some i) ms = flat (get_elem? ms i)

  abbrev pub output_modifier : ℕ → GetCache T → Option (Modifier T)
  output_modifier r c = modifier_at (find ℕ_discrete r c.index_mapping) c.modifiers

  set-none :
      (ms : List (Option (Modifier T))) (i j : ℕ)
      → flat (get_elem? ms j) ≡ none
      → flat (get_elem? (set ms i none) j) ≡ none
  set-none [] i j h = refl
  set-none (m ∷ ms) zero zero h = refl
  set-none (m ∷ ms) zero (suc j) h = h
  set-none (m ∷ ms) (suc i) zero h = h
  set-none (m ∷ ms) (suc i) (suc j) h = set-none ms i j h

  set-none_self :
      (ms : List (Option (Modifier T))) (i : ℕ) → flat (get_elem? (set ms i none) i) ≡ none
  set-none_self [] i = refl
  set-none_self (m ∷ ms) zero = refl
  set-none_self (m ∷ ms) (suc i) = set-none_self ms i

  -- A reset of an output leaves no modifier of it, and makes none of another.
  pub output_modifier-reset_self :
      (r : ℕ) (c : GetCache T) → output_modifier r (GetCache.put_modifier r none c) ≡ none
  unfolding GetCache.put_modifier
  output_modifier-reset_self r c =
      let p = index_or_insert r c.index_mapping in
      ap (λ (o : Option ℕ). modifier_at o (set c.modifiers p.0 none))
        (index_or_insert-finds r c.index_mapping)
      ∙ set-none_self c.modifiers p.0

  set-none_at :
      (o : Option ℕ) (ms : List (Option (Modifier T))) (i : ℕ)
      → modifier_at o ms ≡ none
      → modifier_at o (set ms i none) ≡ none
  set-none_at none ms i h = refl
  set-none_at (some j) ms i h = set-none ms i j h

  pub output_modifier-reset :
      (r j : ℕ) (c : GetCache T)
      → output_modifier j c ≡ none
      → output_modifier j (GetCache.put_modifier r none c) ≡ none
  unfolding GetCache.put_modifier
  output_modifier-reset r j c h = elim (ℕ_discrete r j) [
    | yes same ↦
        subst (λ (k : ℕ). output_modifier k (GetCache.put_modifier r none c) ≡ none) same
          (output_modifier-reset_self r c)
    | no other ↦ kept other
  ]
    where
      kept : r ≢ j → output_modifier j (GetCache.put_modifier r none c) ≡ none
      kept other =
          let p = index_or_insert r c.index_mapping in
          ap (λ (o : Option ℕ). modifier_at o (set c.modifiers p.0 none))
            (index_or_insert-ne r j c.index_mapping other)
          ∙ set-none_at (find ℕ_discrete j c.index_mapping) c.modifiers p.0 h

  ensure_listed-modifiers :
      (r : ℕ) (e : Exposed T) (c : SetCache T) → (ensure_listed r e c).modifiers ≡ c.modifiers
  unfolding ensure_listed append_value
  ensure_listed-modifiers r e c = go e.array_index
    where
      go :
          (o : Option ℕ)
          → (elim o as (λ x. SetCache T) [
            | none ↦ append_value r e.last_value e.last_value c
            | some i ↦ c
          ]).modifiers
            ≡ c.modifiers
      go none = refl
      go (some i) = refl

  -- A reset of an input that returns removes its modifier.
  pub input_modifier-reset :
      (r : ℕ) (c d : SetCache T)
      → SetCache.set_modifier r none c ≡ ok d
      → d.modifiers ≡ erase ℕ_discrete r c.modifiers
  unfolding SetCache.set_modifier put_modifier
  input_modifier-reset r c d e =
      let (u, h, k) =
        >>=-eq-ok (guard (not c.has_run_modifiers) terminated)
          (λ u.
            O.◌>>=◌ (of_option out_of_range (find ℕ_discrete r c.exposed_variables))
              (λ x. ok (put_modifier r none (ensure_listed r x c))))
          e in
      let (x, f, g) =
        >>=-eq-ok (of_option out_of_range (find ℕ_discrete r c.exposed_variables))
          (λ x. ok (put_modifier r none (ensure_listed r x c))) k in
      ap (λ (y : SetCache T). y.modifiers) (sym (ok_cancel g))
      ∙ ap (erase ℕ_discrete r) (ensure_listed-modifiers r x c)

  -- No modifier of the variable, as an input or as an output
  abbrev pub Absent : Bool → ℕ → Channel T → Type 0
  Absent true r c = input_modifier r c.set_cache ≡ none
  Absent false r c = output_modifier r c.get_cache ≡ none

  abbrev pub unset : Bool → ℕ → Method (Channel T) (Unit {0})
  unset is_input r = if is_input then set_input_modifier r none else set_output_modifier r none

  Erased : ℕ → Channel T → Outcome (Unit {0}) → Channel T → Type 0
  Erased r c (ok u) d =
      (d.get_cache ≡ c.get_cache)
      × (d.set_cache.modifiers ≡ erase ℕ_discrete r c.set_cache.modifiers)
  Erased r c (err x) d = d ≡ c

  set_input_modifier-Erased :
      (r : ℕ) (c : Channel T) → let p = set_input_modifier r none c in Erased r c p.0 p.1
  unfolding set_input_modifier Erased
  set_input_modifier-Erased r c = go (SetCache.set_modifier r none c.set_cache) refl
    where
      after : Outcome (SetCache T) → Outcome (Unit {0}) × Channel T
      after o =
          ((λ (b : Channel T). elim o as (λ x. Outcome (Unit {0}) × Channel T) [
            | ok d ↦ (ok tt, record c { set_cache = d })
            | err e ↦ (err e, c)
          ])
              >> modify
                  (λ b. record b { modified = set_modified_reference {T = T} r none b.modified }))
            c

      go :
          (o : Outcome (SetCache T))
          → SetCache.set_modifier r none c.set_cache ≡ o
          → Erased r c (after o).0 (after o).1
      go (ok d) e = (refl, input_modifier-reset r c.set_cache d e)
      go (err x) e = refl

  OutputReset : ℕ → Channel T → Outcome (Unit {0}) → Channel T → Type 0
  OutputReset r c (ok u) d =
      (d.get_cache ≡ GetCache.put_modifier r none c.get_cache) × (d.set_cache ≡ c.set_cache)
  OutputReset r c (err x) d = d ≡ c

  set_output_modifier-OutputReset :
      (r : ℕ) (c : Channel T) → let p = set_output_modifier r none c in OutputReset r c p.0 p.1
  unfolding set_output_modifier GetCache.set_modifier OutputReset
  set_output_modifier-OutputReset r c =
      go (ltb (index_or_insert r c.get_cache.index_mapping).0 (length c.get_cache.modifiers))
    where
      after : Outcome (GetCache T) → Outcome (Unit {0}) × Channel T
      after o =
          ((λ (b : Channel T). elim o as (λ x. Outcome (Unit {0}) × Channel T) [
            | ok d ↦ (ok tt, record c { get_cache = d })
            | err e ↦ (err e, c)
          ])
              >> modify
                  (λ b. record b { modified = set_modified_reference {T = T} r none b.modified }))
            c

      go :
          (b : Bool)
          → let p =
              after (if b then ok (GetCache.put_modifier r none c.get_cache) else err undefined) in
            OutputReset r c p.0 p.1
      go true = (refl, refl)
      go false = refl

  pub unset_self :
      (b : Bool) (r : ℕ) (c : Channel T) → (unset b r c).0 ≡ ok tt → Absent b r (unset b r c).1
  unfolding Erased OutputReset
  unset_self true r c e =
      go (set_input_modifier r none c).0 (set_input_modifier r none c).1
        (set_input_modifier-Erased r c) e
    where
      go :
          (o : Outcome (Unit {0})) (d : Channel T)
          → Erased r c o d
          → o ≡ ok tt
          → input_modifier r d.set_cache ≡ none
      go (ok u) d h e =
          ap (find ℕ_discrete r) h.1 ∙ find-erase_self ℕ_discrete r c.set_cache.modifiers
      go (err x) d h e = cc
  unset_self false r c e =
      go (set_output_modifier r none c).0 (set_output_modifier r none c).1
        (set_output_modifier-OutputReset r c) e
    where
      go :
          (o : Outcome (Unit {0})) (d : Channel T)
          → OutputReset r c o d
          → o ≡ ok tt
          → output_modifier r d.get_cache ≡ none
      go (ok u) d h e = ap (output_modifier r) h.0 ∙ output_modifier-reset_self r c.get_cache
      go (err x) d h e = cc

  pub unset_other :
      (b : Bool) (r : ℕ) (a : Bool) (j : ℕ) (c : Channel T)
      → Absent a j c
      → Absent a j (unset b r c).1
  unfolding Erased OutputReset
  unset_other false r a j c h =
      go a (set_output_modifier r none c).0 (set_output_modifier r none c).1
        (set_output_modifier-OutputReset r c) h
    where
      go :
          (a : Bool) (o : Outcome (Unit {0})) (d : Channel T)
          → OutputReset r c o d
          → Absent a j c
          → Absent a j d
      go true (ok u) d e h = ap (input_modifier j) e.1 ∙ h
      go false (ok u) d e h = ap (output_modifier j) e.0 ∙ output_modifier-reset r j c.get_cache h
      go a (err x) d e h = subst (Absent a j) (sym e) h
  unset_other true r a j c h =
      go a (set_input_modifier r none c).0 (set_input_modifier r none c).1
        (set_input_modifier-Erased r c) h
    where
      go :
          (a : Bool) (o : Outcome (Unit {0})) (d : Channel T)
          → Erased r c o d
          → Absent a j c
          → Absent a j d
      go true (ok u) d e h =
          ap (find ℕ_discrete j) e.1 ∙ find-erase-none r j c.set_cache.modifiers h
      go false (ok u) d e h = ap (output_modifier j) e.0 ∙ h
      go a (err x) d e h = subst (Absent a j) (sym e) h

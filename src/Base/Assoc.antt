-- ===== src/Base/Assoc.antt =====
-- `std::unordered_map` as an association list, over the decidable equality of its keys.
use mathlib.Core.Path.{◌≡◌, refl, sym, ◌∙◌}
use mathlib.Core.Logic.{◌≢◌, ite, inl, inr, if_pos, if_neg}
use mathlib.Core.Bool.{Bool, true, false}
use mathlib.Core.Option.{Option, none, some}
use mathlib.Core.List.{List, [], ◌∷◌}
use native.Mathlib.Omega.{arith}
use libcosim.Base.Tests.{true-ne-false, Option-cases}

module _ {ℓ} {K V : Type ℓ} (d : Discrete K) where
  -- `find`, and `at` where the caller throws on a missing key
  unfoldable pub find : K → List (K × V) → Option V
  find k [] = none
  find k ((j, v) ∷ m) = ite (d j k) (some v) (find k m)

  -- `m[k] = v`, `insert_or_assign`
  unfoldable pub assign : K → V → List (K × V) → List (K × V)
  assign k v [] = (k, v) ∷ []
  assign k v ((j, w) ∷ m) = ite (d j k) ((j, v) ∷ m) ((j, w) ∷ assign k v m)

  -- `emplace`: an entry that is there already is kept.
  unfoldable pub emplace : K → V → List (K × V) → List (K × V)
  emplace k v [] = (k, v) ∷ []
  emplace k v ((j, w) ∷ m) = ite (d j k) ((j, w) ∷ m) ((j, w) ∷ emplace k v m)

  unfoldable pub erase : K → List (K × V) → List (K × V)
  erase k [] = []
  erase k ((j, v) ∷ m) = let rest = erase k m in ite (d j k) rest ((j, v) ∷ rest)

  -- `count(k) != 0`
  unfoldable pub contains : K → List (K × V) → Bool
  contains k [] = false
  contains k ((j, v) ∷ m) = ite (d j k) true (contains k m)

  pub find-assign_self : (k : K) (v : V) (m : List (K × V)) → find k (assign k v m) ≡ some v
  unfolding find assign
  find-assign_self k v [] = ground arith
  find-assign_self k v ((j, w) ∷ m) = ground (arith, find-assign_self k v m)

  pub find-assign_ne :
      (k j : K) (v : V) (m : List (K × V)) → k ≢ j → find j (assign k v m) ≡ find j m
  unfolding find assign
  find-assign_ne k j v [] ne = ground arith
  find-assign_ne k j v ((i, w) ∷ m) ne = ground (arith, find-assign_ne k j v m ne)

  pub find-erase_self : (k : K) (m : List (K × V)) → find k (erase k m) ≡ none
  unfolding find erase
  find-erase_self k [] = refl
  find-erase_self k ((j, w) ∷ m) = ground (arith, find-erase_self k m)

  pub find-erase_ne : (k j : K) (m : List (K × V)) → k ≢ j → find j (erase k m) ≡ find j m
  unfolding find erase
  find-erase_ne k j [] ne = refl
  find-erase_ne k j ((i, w) ∷ m) ne = ground (arith, find-erase_ne k j m ne)

  pub find-emplace_self :
      (k : K) (v : V) (m : List (K × V))
      → find k (emplace k v m) ≡ elim (find k m) [ none ↦ some v | some w ↦ some w ]
  unfolding find emplace
  find-emplace_self k v [] = ground arith
  find-emplace_self k v ((j, w) ∷ m) = ground (arith, find-emplace_self k v m)

  pub find-emplace_ne :
      (k j : K) (v : V) (m : List (K × V)) → k ≢ j → find j (emplace k v m) ≡ find j m
  unfolding find emplace
  find-emplace_ne k j v [] ne = ground arith
  find-emplace_ne k j v ((i, w) ∷ m) ne = ground (arith, find-emplace_ne k j v m ne)

  -- An entry that is found is not changed by one that is new.
  pub find-emplace_found :
      (k j : K) (v : V) (m : List (K × V)) {w : V}
      → find j m ≡ some w
      → find j (emplace k v m) ≡ some w
  find-emplace_found k j v m h = elim (d k j) [
    | yes same ↦ rw (same) (find-emplace_self j v m ∙ rw (h) refl)
    | no other ↦ find-emplace_ne k j v m other ∙ h
  ]

  pub contains-find : (k : K) (m : List (K × V)) {w : V} → find k m ≡ some w → contains k m ≡ true
  unfolding find contains
  contains-find k [] h = cc
  contains-find k ((i, x) ∷ m) h = elim (d i k) [
    | yes same ↦ if_pos (d i k) same true (contains k m)
    | no other ↦
        if_neg (d i k) other true (contains k m)
        ∙ contains-find k m (sym (if_neg (d i k) other (some x) (find k m)) ∙ h)
  ]

  pub find-assign_found :
      (k j : K) (v : V) (m : List (K × V)) {w : V}
      → contains k m ≡ false
      → find j m ≡ some w
      → find j (assign k v m) ≡ some w
  find-assign_found k j v m n h = elim (d k j) [
    | yes same ↦ absurd (true-ne-false (sym (contains-find j m h) ∙ rw (← same) n))
    | no other ↦ find-assign_ne k j v m other ∙ h
  ]

  pub find-of_absent : (k : K) (m : List (K × V)) → contains k m ≡ false → find k m ≡ none
  find-of_absent k m n = elim (Option-cases (find k m)) [
    | inl e ↦ e
    | inr (v, e) ↦ absurd (true-ne-false (sym (contains-find k m e) ∙ n))
  ]

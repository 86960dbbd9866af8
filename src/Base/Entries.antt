-- ===== src/Base/Entries.antt =====
-- The entries of an association list after an assignment and after an erasure.
use mathlib.Core.Path.{◌≡◌, refl, sym, ap, ◌∙◌}
use mathlib.Core.Logic.{◌≢◌, ◌⊎◌, inl, inr, ite}
use mathlib.Core.List.{List, [], ◌∷◌}
use mathlib.Core.List.Memᴰ.{Memᴰ, head, tail}
use libcosim.Base.Assoc.{assign, erase}

-- A list that a decision chooses
module _ {A P : Type 0} {x : A} {xs ys : List A} where
  mem-ite : (c : Dec P) → (P → Memᴰ x xs) → (¬ P → Memᴰ x ys) → Memᴰ x (ite c xs ys)
  mem-ite (yes p) f g = f p
  mem-ite (no n) f g = g n

  of_mem-ite :
      {R : Type 0} (c : Dec P)
      → (P → Memᴰ x xs → R)
      → (¬ P → Memᴰ x ys → R)
      → Memᴰ x (ite c xs ys)
      → R
  of_mem-ite (yes p) f g = f p
  of_mem-ite (no n) f g = g n

module _ {K V : Type 0} (d : Discrete K) where
  pub of_mem-assign :
      (k : K) (v : V) (m : List (K × V)) {x : K × V}
      → Memᴰ x (assign d k v m)
      → (x ≡ (k, v)) ⊎ Memᴰ x m
  unfolding assign
  of_mem-assign k v [] (head e) = inl e
  of_mem-assign k v [] (tail h) = elim h [ ]
  of_mem-assign k v ((j, w) ∷ m) {x} h =
      of_mem-ite (d j k) (λ same. found same) (λ other. kept (of_mem-assign k v m)) h
    where
      found : j ≡ k → Memᴰ x ((j, v) ∷ m) → (x ≡ (k, v)) ⊎ Memᴰ x ((j, w) ∷ m)
      found same (head e) = inl (e ∙ ap (λ (i : K). (i, v)) same)
      found same (tail t) = inr (tail t)

      kept :
          (Memᴰ x (assign d k v m) → (x ≡ (k, v)) ⊎ Memᴰ x m)
          → Memᴰ x ((j, w) ∷ assign d k v m)
          → (x ≡ (k, v)) ⊎ Memᴰ x ((j, w) ∷ m)
      kept again (head e) = inr (head e)
      kept again (tail t) = elim (again t) [ inl e ↦ inl e | inr l ↦ inr (tail l) ]

  pub mem-assign_self : (k : K) (v : V) (m : List (K × V)) → Memᴰ (k, v) (assign d k v m)
  unfolding assign
  mem-assign_self k v [] = head refl
  mem-assign_self k v ((j, w) ∷ m) =
      mem-ite (d j k) (λ same. head (ap (λ (i : K). (i, v)) (sym same)))
        (λ other. tail (mem-assign_self k v m))

  pub mem-assign_ne :
      (k : K) (v : V) (m : List (K × V)) {x : K × V} → x.0 ≢ k → Memᴰ x m → Memᴰ x (assign d k v m)
  unfolding assign
  mem-assign_ne k v [] ne h = elim h [ ]
  mem-assign_ne k v ((j, w) ∷ m) ne (head e) =
      mem-ite (d j k) (λ same. absurd (ne (ap (λ (y : K × V). y.0) e ∙ same))) (λ other. head e)
  mem-assign_ne k v ((j, w) ∷ m) ne (tail t) =
      mem-ite (d j k) (λ same. tail t) (λ other. tail (mem-assign_ne k v m ne t))

  pub of_mem-erase :
      (k : K) (m : List (K × V)) {x : K × V} → Memᴰ x (erase d k m) → Memᴰ x m × (x.0 ≢ k)
  unfolding erase
  of_mem-erase k [] h = elim h [ ]
  of_mem-erase k ((j, w) ∷ m) {x} h =
      of_mem-ite (d j k) (λ same t. let r = of_mem-erase k m t in (tail r.0, r.1))
        (λ other. kept other (of_mem-erase k m)) h
    where
      kept :
          (j ≢ k)
          → (Memᴰ x (erase d k m) → Memᴰ x m × (x.0 ≢ k))
          → Memᴰ x ((j, w) ∷ erase d k m)
          → Memᴰ x ((j, w) ∷ m) × (x.0 ≢ k)
      kept other f (head e) = (head e, λ q. other (sym (ap (λ (y : K × V). y.0) e) ∙ q))
      kept other f (tail t) = let r = f t in (tail r.0, r.1)

  pub mem-erase : (k : K) (m : List (K × V)) {x : K × V} → x.0 ≢ k → Memᴰ x m → Memᴰ x (erase d k m)
  unfolding erase
  mem-erase k [] ne h = elim h [ ]
  mem-erase k ((j, w) ∷ m) ne (head e) =
      mem-ite (d j k) (λ same. absurd (ne (ap (λ (y : K × V). y.0) e ∙ same))) (λ other. head e)
  mem-erase k ((j, w) ∷ m) ne (tail t) =
      mem-ite (d j k) (λ same. mem-erase k m ne t) (λ other. tail (mem-erase k m ne t))

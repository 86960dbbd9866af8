-- ===== src/Simulator/SetCache/Reset.antt =====
-- What `set_variable_cache<T>::reset` leaves: no pending value, and all last values.
use mathlib.Core.Option
use libcosim.Base.{
  ℕ, suc, Bool, true, false, List, [], ◌∷◌, Option, none, some, get_elem?, ℕ_discrete, ◌≡◌, ◌≢◌,
  refl, sym, ap, ◌∙◌, inl, inr, Option-cases, Bool-cases,
}
use mathlib.Core.Logic.{if_pos, if_neg}
use libcosim.Base.Positions.{is_in, is_in-get_elem?, none-ne-some, some_cancel}
use libcosim.Base.Outcome.{ok}
use libcosim.Base.Assoc.{find, assign, find-assign_self, find-assign_ne}
use libcosim.Simulator.SetCache.{Exposed, SetCache, clear_indices, reset}
use libcosim.Simulator.SetCache.Laws.{IsListed, pending, value_at, value_of}

true-ne-false : true ≢ false
true-ne-false e = cc

module _ {T : Type 0} where
  abbrev clear_if : Bool → Exposed T → Exposed T
  clear_if true e = record e { array_index = none }
  clear_if false e = e

  abbrev AllFound : List ℕ → List (ℕ × Exposed T) → Type 0
  AllFound rs m =
      (i r : ℕ) → get_elem? rs i ≡ some r → (e : Exposed T) × (find ℕ_discrete r m ≡ some e)

  -- The table in which the entries listed, and no others, have lost their index.
  abbrev Cleared : List ℕ → List (ℕ × Exposed T) → List (ℕ × Exposed T) → Type 0
  Cleared rs m m' =
      (k : ℕ) → find ℕ_discrete k m' ≡ Option.map (clear_if (is_in k rs)) (find ℕ_discrete k m)

  map_same : (o : Option (Exposed T)) → o ≡ Option.map (clear_if false) o
  map_same none = refl
  map_same (some e) = refl

  AllFound-assign :
      (rs : List ℕ) (m : List (ℕ × Exposed T)) (r : ℕ) (e : Exposed T)
      → AllFound rs m
      → AllFound rs (assign ℕ_discrete r e m)
  AllFound-assign rs m r e h i k g = elim (ℕ_discrete r k) [
    | yes p ↦ (
      e,
      ap (λ x. find ℕ_discrete x (assign ℕ_discrete r e m)) (sym p)
          ∙ find-assign_self ℕ_discrete r e m,
    )
    | no n ↦ let (x, f) = h i k g in (x, find-assign_ne ℕ_discrete r k e m n ∙ f)
  ]

  clear_twice :
      (b : Bool) (e : Exposed T) → some (clear_if b (clear_if true e)) ≡ some (clear_if true e)
  clear_twice true e = refl
  clear_twice false e = refl

  Cleared-cons :
      (r : ℕ) (rs : List ℕ) (m m' : List (ℕ × Exposed T)) (e : Exposed T)
      → find ℕ_discrete r m ≡ some e
      → Cleared rs (assign ℕ_discrete r (clear_if true e) m) m'
      → Cleared (r ∷ rs) m m'
  Cleared-cons r rs m m' e f h k = elim (ℕ_discrete r k) [
    | yes p ↦
        h k
        ∙ ap (Option.map (clear_if (is_in k rs))) (
            ap (λ x. find ℕ_discrete x (assign ℕ_discrete r (clear_if true e) m)) (sym p)
            ∙ find-assign_self ℕ_discrete r (clear_if true e) m)
        ∙ clear_twice (is_in k rs) e
        ∙ ap (Option.map (clear_if true)) (sym f ∙ ap (λ x. find ℕ_discrete x m) p)
        ∙ ap (λ b. Option.map (clear_if b) (find ℕ_discrete k m))
            (sym (if_pos (ℕ_discrete r k) p true (is_in k rs)))
    | no n ↦
        h k
        ∙ ap (Option.map (clear_if (is_in k rs)))
            (find-assign_ne ℕ_discrete r k (clear_if true e) m n)
        ∙ ap (λ b. Option.map (clear_if b) (find ℕ_discrete k m))
            (sym (if_neg (ℕ_discrete r k) n true (is_in k rs)))
  ]

  clear_indices-Cleared :
      (rs : List ℕ) (m : List (ℕ × Exposed T))
      → AllFound rs m
      → (m' : List (ℕ × Exposed T)) × (clear_indices rs m ≡ ok m') × Cleared rs m m'
  unfolding clear_indices
  clear_indices-Cleared [] m h = (m, refl, λ k. map_same (find ℕ_discrete k m))
  clear_indices-Cleared (r ∷ rs) m h =
      let (e, f) = h 0 r refl in
      let (m', g, c) =
        clear_indices-Cleared rs (assign ℕ_discrete r (clear_if true e) m)
          (AllFound-assign rs m r (clear_if true e) (λ i k q. h (suc i) k q)) in
      (m', rw f g, Cleared-cons r rs m m' e f c)

  value_at_nil : (o : Option ℕ) → value_at {T = T} o [] ≡ none
  value_at_nil none = refl
  value_at_nil (some i) = refl

  value_of_nil : (o : Option (Exposed T)) → value_of o [] ≡ none
  value_of_nil none = refl
  value_of_nil (some e) = value_at_nil e.array_index

  cleared-ne-some :
      (b : Bool) (x : Exposed T) (i : ℕ) → b ≡ true → (clear_if b x).array_index ≢ some i
  cleared-ne-some true x i h e = none-ne-some e
  cleared-ne-some false x i h e = cc

  -- No entry of the cleared table has an index.
  Cleared-no_index :
      (c : SetCache T) (m : List (ℕ × Exposed T)) (r i : ℕ) (e : Exposed T)
      → IsListed c
      → Cleared c.references c.exposed_variables m
      → find ℕ_discrete r m ≡ some e
      → e.array_index ≢ some i
  Cleared-no_index c m r i e a cl f q =
      elim (Option-cases (find ℕ_discrete r c.exposed_variables)) [
        | inl h ↦
            none-ne-some (sym (cl r ∙ ap (Option.map (clear_if (is_in r c.references))) h) ∙ f)
        | inr (x, h) ↦
            let same : clear_if (is_in r c.references) x ≡ e =
              some_cancel (sym (cl r ∙ ap (Option.map (clear_if (is_in r c.references))) h) ∙ f) in
            let index = ap (λ (y : Exposed T). y.array_index) same ∙ q in
            elim (Bool-cases (is_in r c.references)) [
              | inl b ↦ cleared-ne-some (is_in r c.references) x i b index
              | inr b ↦
                  let kept = ap (λ b. (clear_if b x).array_index) (sym b) ∙ index in
                  true-ne-false (sym (is_in-get_elem? i r c.references (a.listed r i x h kept)) ∙ b)
            ]
      ]

  -- The last value of a variable, which it has if it is exposed.
  abbrev pub last_value_of : SetCache T → ℕ → Option T
  last_value_of c k =
      Option.map (λ (e : Exposed T). e.last_value) (find ℕ_discrete k c.exposed_variables)

  map_last_value :
      (b : Bool) (o : Option (Exposed T))
      → Option.map (λ (e : Exposed T). e.last_value) (Option.map (clear_if b) o)
        ≡ Option.map (λ (e : Exposed T). e.last_value) o
  map_last_value b none = refl
  map_last_value true (some e) = refl
  map_last_value false (some e) = refl

  -- What `reset` promises of the cache `d` that it leaves.
  pub record IsReset (c d : SetCache T) : Type 0 where
    pub listed : IsListed d
    pub nothing_pending : (k : ℕ) → pending d k ≡ none
    pub values_kept : (k : ℕ) → last_value_of d k ≡ last_value_of c k
    pub modifiers_kept : d.modifiers ≡ c.modifiers
    pub modifiers_due : d.has_run_modifiers ≡ false

  -- `reset` never fails on a consistent cache, and leaves a consistent one, in which no value is
  -- pending, every exposed variable has its last value, and the modifiers are to be run again.
  pub reset_lem : (c : SetCache T) → IsListed c → (d : SetCache T) × (reset c ≡ ok d) × IsReset c d
  unfolding reset
  reset_lem c a =
      let (m, g, cl) =
        clear_indices-Cleared c.references c.exposed_variables
          (λ i r q. let (e, f, h) = a.indexed r i q in (e, f)) in
      (
        record c { exposed_variables = m; references = []; values = []; has_run_modifiers = false },
        rw g refl,
        record {
          listed = record {
            lengths = refl;
            listed = λ r i e f q. absurd (Cleared-no_index c m r i e a cl f q);
            indexed = λ r i q. cc;
          };
          nothing_pending = λ k. value_of_nil (find ℕ_discrete k m);
          values_kept = λ k.
              ap (Option.map (λ (e : Exposed T). e.last_value)) (cl k)
              ∙ map_last_value (is_in k c.references) (find ℕ_discrete k c.exposed_variables);
          modifiers_kept = refl;
          modifiers_due = refl;
        },
      )

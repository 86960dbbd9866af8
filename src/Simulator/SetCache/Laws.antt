-- ===== src/Simulator/SetCache/Laws.antt =====
-- The cache of variables to write against a map from references to pending values.
use mathlib.Core.Logic.{if_neg, if_pos}
use libcosim.Base.{
  ℕ, ◌<◌, Bool, true, false, not, List, [], ◌∷◌, ◌++◌, Option, none, some, length, get_elem?, set,
  ℕ_discrete, ◌≡◌, ◌≢◌, refl, sym, ap, ◌∙◌, arith, ite, inl, inr, Option-cases, length-set,
  get_elem?-set_self, get_elem?-set_ne,
}
use libcosim.Base.Positions.{
  get_elem?-append_one, get_elem?-lt, append_one_each, none-ne-some, some_cancel,
}
use libcosim.Base.Outcome.{
  Outcome, ok, err, out_of_range, terminated, of_option, guard, ◌>>=◌, ◌>>◌,
}
use libcosim.Base.Assoc.{
  find, assign, find-assign_self, find-assign_ne, find-emplace_self, find-emplace_ne,
}
use libcosim.Simulator.SetCache.{
  Exposed, SetCache, empty, expose, append_value, write_value, set_value,
}

-- The arrays have one length, and the array index of an exposed variable is its position in them.
pub record IsListed {T : Type 0} (c : SetCache T) : Type 0 where
  pub lengths : length c.values ≡ length c.references
  pub listed :
      (r i : ℕ) (e : Exposed T)
      → find ℕ_discrete r c.exposed_variables ≡ some e
      → e.array_index ≡ some i
      → get_elem? c.references i ≡ some r
  pub indexed :
      (r i : ℕ)
      → get_elem? c.references i ≡ some r
      → (e : Exposed T) × (find ℕ_discrete r c.exposed_variables ≡ some e)
        × (e.array_index ≡ some i)

module _ {T : Type 0} where
  abbrev pub value_at : Option ℕ → List T → Option T
  value_at none vs = none
  value_at (some i) vs = get_elem? vs i

  abbrev pub value_of : Option (Exposed T) → List T → Option T
  value_of none vs = none
  value_of (some e) vs = value_at e.array_index vs

  -- The value that the slave will be sent for `r`, if any.
  abbrev pub pending : SetCache T → ℕ → Option T
  pending c r = value_of (find ℕ_discrete r c.exposed_variables) c.values

  pub empty-IsListed : IsListed (empty {T = T})
  unfolding find
  empty-IsListed = record { lengths = refl; listed = λ r i e f. cc; indexed = λ r i e. cc }

  find-expose :
      (r k : ℕ) (v : T) (c : SetCache T)
      → find ℕ_discrete k (expose r v c).exposed_variables
        ≡ elim (find ℕ_discrete k c.exposed_variables) [
          | none ↦ ite (ℕ_discrete r k) (some (record { last_value = v; array_index = none })) none
          | some e ↦ some e
        ]
  unfolding expose
  find-expose r k v c = elim (ℕ_discrete r k) [
    | yes p ↦ ground (
      arith,
      find-emplace_self ℕ_discrete r (record { last_value = v; array_index = none })
          c.exposed_variables,
      p,
    )
    | no n ↦ ground (
      arith,
      find-emplace_ne ℕ_discrete r k (record { last_value = v; array_index = none })
          c.exposed_variables n,
    )
  ]

  new_entry_index :
      (r k i : ℕ) (v : T) {e : Exposed T}
      → ite (ℕ_discrete r k) (some (record { last_value = v; array_index = none })) none ≡ some e
      → e.array_index ≢ some i
  new_entry_index r k i v {e} f g = elim (ℕ_discrete r k) [
    | yes p ↦ none-ne-some (
        ap (λ (x : Exposed T). x.array_index)
          (some_cancel (
            sym (
              if_pos (ℕ_discrete r k) p (some (record { last_value = v; array_index = none })) none)
            ∙ f))
        ∙ g)
    | no n ↦ none-ne-some (
        sym (if_neg (ℕ_discrete r k) n (some (record { last_value = v; array_index = none })) none)
        ∙ f)
  ]

  -- Exposing a variable keeps the arrays, the indices and all pending values.
  pub expose-IsListed : (r : ℕ) (v : T) {c : SetCache T} → IsListed c → IsListed (expose r v c)
  unfolding expose
  expose-IsListed r v {c} a = record {
    lengths = a.lengths;
    listed = λ k i e f g. elim (Option-cases (find ℕ_discrete k c.exposed_variables)) [
      | inl h ↦ absurd (new_entry_index r k i v ((rw h at (sym (find-expose r k v c))) ∙ f) g)
      | inr (x, h) ↦ a.listed k i e (h ∙ ((rw h at (sym (find-expose r k v c))) ∙ f)) g
    ];
    indexed = λ k i g. let (e, f, h) = a.indexed k i g in (e, find-expose r k v c ∙ rw f refl, h);
  }

  module _ (c : SetCache T) (a : IsListed c) (r : ℕ) (v : T) (e : Exposed T)
      (found : find ℕ_discrete r c.exposed_variables ≡ some e) where
    n : ℕ
    n = length c.references

    entry : Exposed T
    unfolding n
    entry = record { last_value = v; array_index = some n }

    table : List (ℕ × Exposed T)
    unfolding n entry
    table = assign ℕ_discrete r entry c.exposed_variables

    not_listed : e.array_index ≡ none → (i : ℕ) → get_elem? c.references i ≢ some r
    not_listed h i g =
        let (e', f, k) = a.indexed r i g in
        none-ne-some
          (sym h ∙ ap (λ (x : Exposed T). x.array_index) (some_cancel (sym found ∙ f)) ∙ k)

    append-listed :
        (k i : ℕ) (x : Exposed T)
        → find ℕ_discrete k table ≡ some x
        → x.array_index ≡ some i
        → get_elem? (c.references ++ r ∷ []) i ≡ some k
    unfolding table entry n
    append-listed k i x f g = elim (ℕ_discrete r k) [
      | yes p ↦ ground (
        arith,
        find-assign_self ℕ_discrete r entry c.exposed_variables,
        get_elem?-append_one c.references r i,
        p,
      )
      | no q ↦
          let old =
            a.listed k i x (sym (find-assign_ne ℕ_discrete r k entry c.exposed_variables q) ∙ f)
              g in
          ground
            (arith, get_elem?-append_one c.references r i, old, get_elem?-lt c.references i old)
    ]

    append-indexed :
        e.array_index ≡ none
        → (k i : ℕ) → get_elem? (c.references ++ r ∷ []) i ≡ some k
        → (x : Exposed T) × (find ℕ_discrete k table ≡ some x) × (x.array_index ≡ some i)
    unfolding table entry n
    append-indexed h k i g = elim (ℕ_discrete i (length c.references)) [
      | yes p ↦ (
        entry,
        ground (
          arith,
          find-assign_self ℕ_discrete r entry c.exposed_variables,
          get_elem?-append_one c.references r i,
        ),
        ap some (sym p),
      )
      | no q ↦
          let old : get_elem? c.references i ≡ some k =
            sym (
              get_elem?-append_one c.references r i
              ∙ if_neg (ℕ_discrete i (length c.references)) q (some r) (get_elem? c.references i))
            ∙ g in
          let (x, f, k') = a.indexed k i old in
          (
            x,
            find-assign_ne ℕ_discrete r k entry c.exposed_variables
                  (λ p. not_listed h i (old ∙ ap some (sym p)))
                ∙ f,
            k',
          )
    ]

    append_value-IsListed : e.array_index ≡ none → IsListed (append_value r v v c)
    unfolding append_value table entry n
    append_value-IsListed h = record {
      lengths = append_one_each c.values c.references _ _ a.lengths;
      listed = append-listed;
      indexed = append-indexed h;
    }

    append-pending_self : pending (append_value r v v c) r ≡ some v
    unfolding append_value
    append-pending_self =
        ap (λ x. value_of x (c.values ++ v ∷ []))
          (find-assign_self ℕ_discrete r _ c.exposed_variables)
        ∙ ap (get_elem? (c.values ++ v ∷ [])) (sym a.lengths)
        ∙ get_elem?-append_one c.values v (length c.values)
        ∙ if_pos (ℕ_discrete (length c.values) (length c.values)) refl (some v) _

    value_at-append :
        (o : Option ℕ)
        → ((i : ℕ) → o ≡ some i → i < length c.values)
        → value_at o (c.values ++ v ∷ []) ≡ value_at o c.values
    value_at-append none h = refl
    value_at-append (some i) h = ground (arith, get_elem?-append_one c.values v i, h i refl)

    value_of-append :
        (k : ℕ) (o : Option (Exposed T))
        → find ℕ_discrete k c.exposed_variables ≡ o
        → value_of o (c.values ++ v ∷ []) ≡ value_of o c.values
    value_of-append k none h = refl
    value_of-append k (some x) h =
        value_at-append x.array_index
          (λ i p. omega (arith, a.lengths, get_elem?-lt c.references i (a.listed k i x h p)))

    append-pending_ne : (k : ℕ) → r ≢ k → pending (append_value r v v c) k ≡ pending c k
    unfolding append_value
    append-pending_ne k q =
        ap (λ x. value_of x (c.values ++ v ∷ []))
          (find-assign_ne ℕ_discrete r k _ c.exposed_variables q)
        ∙ value_of-append k (find ℕ_discrete k c.exposed_variables) refl

    -- The variable has a place already: its value is overwritten there.
    module _ (i : ℕ) (at : e.array_index ≡ some i) where
      here : Exposed T
      here = record { last_value = v; array_index = some i }

      overwritten : SetCache T
      unfolding here
      overwritten = record c {
        exposed_variables = assign ℕ_discrete r here c.exposed_variables;
        values = set c.values i v;
      }

      position : get_elem? c.references i ≡ some r
      position = a.listed r i e found at

      same_index : (j : ℕ) → get_elem? c.references j ≡ some r → some i ≡ some j
      same_index j g =
          let (e', f, k) = a.indexed r j g in
          sym at ∙ ap (λ (x : Exposed T). x.array_index) (some_cancel (sym found ∙ f)) ∙ k

      value_at-set :
          (o : Option ℕ)
          → ((j : ℕ) → o ≡ some j → i ≢ j)
          → value_at o (set c.values i v) ≡ value_at o c.values
      value_at-set none h = refl
      value_at-set (some j) h = get_elem?-set_ne c.values v (h j refl)

      overwritten-IsListed : IsListed overwritten
      unfolding overwritten here
      overwritten-IsListed = record {
        lengths = length-set c.values i v ∙ a.lengths;
        listed = λ k j x f g. elim (ℕ_discrete r k) [
          | yes p ↦
              ground (arith, find-assign_self ℕ_discrete r here c.exposed_variables, position, p)
          | no q ↦
              a.listed k j x (sym (find-assign_ne ℕ_discrete r k here c.exposed_variables q) ∙ f) g
        ];
        indexed = λ k j g. elim (ℕ_discrete r k) [
          | yes p ↦ (
            here,
            ap (λ x. find ℕ_discrete x (assign ℕ_discrete r here c.exposed_variables)) (sym p)
                ∙ find-assign_self ℕ_discrete r here c.exposed_variables,
            same_index j (g ∙ ap some (sym p)),
          )
          | no q ↦
              let (x, f, h) = a.indexed k j g in
              (x, find-assign_ne ℕ_discrete r k here c.exposed_variables q ∙ f, h)
        ];
      }

      overwritten-pending_self : pending overwritten r ≡ some v
      unfolding overwritten here
      overwritten-pending_self =
          ap (λ x. value_of x (set c.values i v))
            (find-assign_self ℕ_discrete r here c.exposed_variables)
          ∙ get_elem?-set_self c.values i v
              (omega (arith, a.lengths, get_elem?-lt c.references i position))

      value_of-set :
          (k : ℕ) (o : Option (Exposed T))
          → r ≢ k
          → find ℕ_discrete k c.exposed_variables ≡ o
          → value_of o (set c.values i v) ≡ value_of o c.values
      value_of-set k none q h = refl
      value_of-set k (some x) q h = value_at-set x.array_index (λ j f p.
          q (some_cancel (sym position ∙ ap (get_elem? c.references) p ∙ a.listed k j x h f)))

      overwritten-pending_ne : (k : ℕ) → r ≢ k → pending overwritten k ≡ pending c k
      unfolding overwritten here
      overwritten-pending_ne k q =
          ap (λ x. value_of x (set c.values i v))
            (find-assign_ne ℕ_discrete r k here c.exposed_variables q)
          ∙ value_of-set k (find ℕ_discrete k c.exposed_variables) q refl

  -- What a successful `set_value(r, v)` promises of the cache `d` that it leaves.
  pub record HasSet (c : SetCache T) (r : ℕ) (v : T) (d : SetCache T) : Type 0 where
    pub listed : IsListed d
    pub written : (k : ℕ) → pending d k ≡ ite (ℕ_discrete r k) (some v) (pending c k)

  written_from :
      (c d : SetCache T) (r : ℕ) (v : T)
      → pending d r ≡ some v
      → ((k : ℕ) → r ≢ k → pending d k ≡ pending c k)
      → (k : ℕ) → pending d k ≡ ite (ℕ_discrete r k) (some v) (pending c k)
  written_from c d r v self others k = elim (ℕ_discrete r k) [
    | yes p ↦ ap (pending d) (sym p) ∙ self ∙ sym (if_pos (ℕ_discrete r k) p (some v) (pending c k))
    | no n ↦ others k n ∙ sym (if_neg (ℕ_discrete r k) n (some v) (pending c k))
  ]

  pub write_value-HasSet :
      (c : SetCache T) (a : IsListed c) (r : ℕ) (v : T) (e : Exposed T)
      → find ℕ_discrete r c.exposed_variables ≡ some e
      → HasSet c r v (write_value r v e c)
  unfolding overwritten here write_value append_value
  write_value-HasSet c a r v e found = elim (Option-cases e.array_index) [
    | inl h ↦
        rw (h, write_value)
          (record {
            listed = append_value-IsListed c a r v e found h;
            written =
                written_from c (append_value r v v c) r v (append-pending_self c a r v e found)
                  (append-pending_ne c a r v e found);
          })
    | inr (i, h) ↦
        rw (h, write_value)
          (record {
            listed = overwritten-IsListed c a r v e found i h;
            written =
                written_from c (overwritten c a r v e found i h) r v
                  (overwritten-pending_self c a r v e found i h)
                  (overwritten-pending_ne c a r v e found i h);
          })
  ]

  -- What `set_value` may end in, by whether the modifiers have been run and by the variable's entry.
  abbrev pub SetsOrFails :
      SetCache T → ℕ → T → Bool → Option (Exposed T) → Outcome (SetCache T) → Type 0
  SetsOrFails c r v true e o = o ≡ err terminated
  SetsOrFails c r v false none o = o ≡ err out_of_range
  SetsOrFails c r v false (some e) o = (d : SetCache T) × (o ≡ ok d) × HasSet c r v d

  -- Where the modifiers have not been run on the values, `set_value` of an exposed variable succeeds:
  -- its pending value is then `v`, whether or not it had one, those of all other references stay, and
  -- the arrays stay consistent with the indices. Of any other reference it fails with `out_of_range`.
  -- Where the modifiers have been run, the assertion against that ends the process.
  pub set_value-HasSet :
      (c : SetCache T) (r : ℕ) (v : T)
      → IsListed c
      → SetsOrFails c r v c.has_run_modifiers
          (find ℕ_discrete r c.exposed_variables)
          (set_value r v c)
  unfolding set_value
  set_value-HasSet c r v a = by_flag c.has_run_modifiers
    where
      by_flag :
          (ran : Bool)
          → SetsOrFails c r v ran (find ℕ_discrete r c.exposed_variables) (
              guard (not ran) terminated
              >> (of_option out_of_range (find ℕ_discrete r c.exposed_variables) >>= λ e.
                  ok (write_value r v e c)))
      by_flag true = refl
      by_flag false = elim (Option-cases (find ℕ_discrete r c.exposed_variables)) [
        | inl h ↦ rw h refl
        | inr (e, h) ↦ rw h (write_value r v e c, refl, write_value-HasSet c a r v e h)
      ]

-- ===== src/Function/Sums.antt =====
-- What the sum of vectors gives at its output, and what its inputs keep.
use mathlib.Core.Logic.{if_pos, if_neg}
use libcosim.Base.{
  ℕ, zero, suc, false, List, [], ◌∷◌, Option, none, some, ◌≡◌, refl, ◌≢◌, ite, sym, ◌∙◌, ◌⊎◌, inl,
  inr, get_elem?, set, get_elem?-set_self, get_elem?-set_ne, arith, ◌==◌, ℕ_discrete,
}
use libcosim.Base.Positions.{get_elem?-lt}
use libcosim.Base.Outcome.{ok_cancel, Outcome, ok, err, out_of_range, of_option, >>=-eq-ok}
use libcosim.Model.{FunctionIoReference}
use libcosim.Function.VectorSum.{
  VectorSum, input_at, put_input, set_value, get_value, add_row, add_rows, calculate,
}

abbrev pub output_io : ℕ → FunctionIoReference
output_io j = record { group = 1; group_instance = 0; io = 0; io_instance = j }

get_elem?-of_option :
    {A : Type 0} (xs : List A) (i : ℕ) {x : A}
    → of_option out_of_range (get_elem? xs i) ≡ ok x
    → get_elem? xs i ≡ some x
get_elem?-of_option [] i h = cc
get_elem?-of_option (y ∷ xs) zero h = ground (arith, h)
get_elem?-of_option (y ∷ xs) (suc i) h = get_elem?-of_option xs i h

-- A reference by its fields
abbrev io_at : ℕ → ℕ → ℕ → ℕ → FunctionIoReference
io_at a i b j = record { group = a; group_instance = i; io = b; io_instance = j }

differ : (a b k i l j : ℕ) → io_at a k b l ≢ io_at a i b j → (k ≢ i) ⊎ (l ≢ j)
differ a b k i l j n = elim (ℕ_discrete k i) [
  | yes e ↦ inr (λ f. n (rw (e, f) refl))
  | no m ↦ inl m
]

throws : {A : Type 0} {o : Outcome A} {x : A} → o ≡ err out_of_range → o ≢ ok x
throws h e = cc

suc-eq_zero : (n : ℕ) → (suc n == 0) ≡ false
suc-eq_zero n = ground arith

module _ {T : Type 0} where
  -- The elements at a position of all the rows
  abbrev pub column : List (List T) → ℕ → Option (List T)
  column [] j = some []
  column (row ∷ rows) j = elim (get_elem? row j) [
    | none ↦ none
    | some x ↦ elim (column rows j) [ none ↦ none | some xs ↦ some (x ∷ xs) ]
  ]

  abbrev pub foldl : (T → T → T) → T → List T → T
  foldl add x [] = x
  foldl add x (y ∷ ys) = foldl add (add x y) ys

  column-cons :
      (row : List T) (rows : List (List T)) (j : ℕ) {x : T} {xs : List T}
      → column (row ∷ rows) j ≡ some (x ∷ xs)
      → (get_elem? row j ≡ some x) × (column rows j ≡ some xs)
  column-cons row rows j h = ground (arith, h)

  get_elem?-add_row :
      (add : T → T → T) (out row : List T) (j : ℕ) {x y : T}
      → get_elem? out j ≡ some x
      → get_elem? row j ≡ some y
      → get_elem? (add_row add out row) j ≡ some (add x y)
  unfolding add_row
  get_elem?-add_row add [] row j h k = cc
  get_elem?-add_row add (x ∷ xs) [] j h k = cc
  get_elem?-add_row add (x ∷ xs) (y ∷ row) zero h k = ground (arith, h, k)
  get_elem?-add_row add (x ∷ xs) (y ∷ row) (suc j) h k = get_elem?-add_row add xs row j h k

  get_elem?-add_rows :
      (add : T → T → T) (out : List T) (rows : List (List T)) (j : ℕ) {x : T} (xs : List T)
      → get_elem? out j ≡ some x
      → column rows j ≡ some xs
      → get_elem? (add_rows add out rows) j ≡ some (foldl add x xs)
  unfolding add_rows
  get_elem?-add_rows add out [] j xs h k = ground (arith, h, k)
  get_elem?-add_rows add out (row ∷ rows) j [] h k = ground (arith, h, k)
  get_elem?-add_rows add out (row ∷ rows) j (y ∷ ys) h k =
      let (e, rest) = column-cons row rows j k in
      get_elem?-add_rows add (add_row add out row) rows j ys (get_elem?-add_row add out row j h e)
        rest

  get_value-calculate_of :
      (add : T → T → T) (rows : List (List T)) (out : List T) (j : ℕ) {x : T} {xs : List T}
      → column rows j ≡ some (x ∷ xs)
      → get_value (output_io j) (calculate add (record { inputs = rows; output = out }))
        ≡ ok (foldl add x xs)
  unfolding get_value calculate
  get_value-calculate_of add [] out j h = cc
  get_value-calculate_of add (row ∷ rows) out j {xs} h =
      let (e, rest) = column-cons row rows j h in
      rw (get_elem?-add_rows add row rows j xs e rest) refl

  -- After a calculation, an element of the output is the sum, from the first input to the last, of
  -- the inputs' elements at its position, for every position that all the inputs have.
  pub get_value-calculate :
      (add : T → T → T) (f : VectorSum T) (j : ℕ) {x : T} {xs : List T}
      → column f.inputs j ≡ some (x ∷ xs)
      → get_value (output_io j) (calculate add f) ≡ ok (foldl add x xs)
  get_value-calculate add f j h = get_value-calculate_of add f.inputs f.output j h

  input_at-set :
      (rows : List (List T)) (out row : List T) (i j k l : ℕ) (v : T) {old : T}
      → get_elem? rows i ≡ some row
      → get_elem? row j ≡ some old
      → input_at (record { inputs = set rows i (set row j v); output = out }) k l
        ≡ ite
            (ℕ_discrete k i)
            (ite (ℕ_discrete l j) (ok v) (input_at (record { inputs = rows; output = out }) k l))
            (input_at (record { inputs = rows; output = out }) k l)
  unfolding input_at
  input_at-set rows out row i j k l v e f =
      let f₀ : VectorSum T = record { inputs = rows; output = out } in
      elim (ℕ_discrete k i) [
        | yes same ↦
            rw
              (
                if_pos (ℕ_discrete k i) same (ite (ℕ_discrete l j) (ok v) (input_at f₀ k l))
                    (input_at f₀ k l),
                same,
                get_elem?-set_self rows i (set row j v) (get_elem?-lt rows i e),
                e,
              )
              (elim (ℕ_discrete l j) [
                | yes here ↦
                    rw
                      (
                        if_pos (ℕ_discrete l j) here (ok v)
                            (of_option out_of_range (get_elem? row l)),
                        here,
                        get_elem?-set_self row j v (get_elem?-lt row j f),
                      )
                      refl
                | no there ↦
                    rw
                      (
                        if_neg (ℕ_discrete l j) there (ok v)
                            (of_option out_of_range (get_elem? row l)),
                        get_elem?-set_ne row {i = j} {j = l} v (λ x. there (sym x)),
                      )
                      refl
              ])
        | no other ↦
            rw
              (
                if_neg (ℕ_discrete k i) other (ite (ℕ_discrete l j) (ok v) (input_at f₀ k l))
                    (input_at f₀ k l),
                get_elem?-set_ne rows {i = i} {j = k} (set row j v) (λ x. other (sym x)),
              )
              refl
      ]

  input_at-put_input :
      (rows : List (List T)) (out : List T) (i j k l : ℕ) (v : T) {g : VectorSum T}
      → put_input (record { inputs = rows; output = out }) i j v ≡ ok g
      → (input_at g k l
          ≡ ite
              (ℕ_discrete k i)
              (ite (ℕ_discrete l j) (ok v) (input_at (record { inputs = rows; output = out }) k l))
              (input_at (record { inputs = rows; output = out }) k l))
        × (g.output ≡ out)
  unfolding put_input
  input_at-put_input rows out i j k l v h =
      let (row, e, h₁) = >>=-eq-ok (of_option out_of_range (get_elem? rows i)) _ h in
      let (old, f, h₂) = >>=-eq-ok (of_option out_of_range (get_elem? row j)) _ h₁ in
      rw (← ok_cancel h₂) (
        input_at-set rows out row i j k l v (get_elem?-of_option rows i e)
            (get_elem?-of_option row j f),
        refl,
      )

  -- What a write leaves at the element and at every other.
  input_at-put_both :
      (f : VectorSum T) (i j k l : ℕ) (v : T) {g : VectorSum T}
      → put_input f i j v ≡ ok g
      → (input_at g i j ≡ ok v)
        × ((k ≢ i) ⊎ (l ≢ j) → input_at g k l ≡ input_at f k l)
        × (g.output ≡ f.output)
  input_at-put_both f i j k l v h =
      let (at, same_output) = input_at-put_input f.inputs f.output i j k l v h in
      (
        (input_at-put_input f.inputs f.output i j i j v h).0
            ∙ if_pos (ℕ_discrete i i) refl (ite (ℕ_discrete j j) (ok v) (input_at f i j))
                (input_at f i j)
            ∙ if_pos (ℕ_discrete j j) refl (ok v) (input_at f i j),
        λ other. at ∙ elim other [
          | inl n ↦
              if_neg (ℕ_discrete k i) n (ite (ℕ_discrete l j) (ok v) (input_at f k l))
                (input_at f k l)
          | inr n ↦ elim (ℕ_discrete k i) [
            | yes e ↦
                if_pos (ℕ_discrete k i) e (ite (ℕ_discrete l j) (ok v) (input_at f k l))
                  (input_at f k l)
                ∙ if_neg (ℕ_discrete l j) n (ok v) (input_at f k l)
            | no m ↦
                if_neg (ℕ_discrete k i) m (ite (ℕ_discrete l j) (ok v) (input_at f k l))
                  (input_at f k l)
          ]
        ],
        same_output,
      )

  get_value-set_fields :
      (f : VectorSum T) (v : T) {g : VectorSum T} (a i b j c k d l : ℕ)
      → set_value (io_at a i b j) v f ≡ ok g
      → io_at c k d l ≢ io_at a i b j
      → (get_value (io_at a i b j) g ≡ ok v)
        × (get_value (io_at c k d l) g ≡ get_value (io_at c k d l) f)
  unfolding set_value get_value
  get_value-set_fields f v zero i zero j zero k zero l h n =
      let (self, other, _) = input_at-put_both f i j k l v h in (self, other (differ 0 0 k i l j n))
  get_value-set_fields f v zero i zero j zero k (suc d) l h n =
      ((input_at-put_both f i j k l v h).0, rw (suc-eq_zero d) refl)
  get_value-set_fields f v zero i zero j (suc c) k d l h n =
      let (self, _, same) = input_at-put_both f i j k l v h in (self, rw (suc-eq_zero c, same) refl)
  get_value-set_fields f v zero i (suc b) j c k d l h n =
      absurd (throws (rw (suc-eq_zero b) refl) h)
  get_value-set_fields f v (suc a) i b j c k d l h n = absurd (throws (rw (suc-eq_zero a) refl) h)

  -- A successful write is read back at its own reference, and every other reference, of an input or
  -- of the output, reads what it read before.
  pub get_value-set_value :
      (f : VectorSum T) (r q : FunctionIoReference) (v : T) {g : VectorSum T}
      → set_value r v f ≡ ok g
      → q ≢ r
      → (get_value r g ≡ ok v) × (get_value q g ≡ get_value q f)
  get_value-set_value f r q v h n =
      get_value-set_fields f v r.group r.group_instance r.io r.io_instance q.group q.group_instance
        q.io q.io_instance h n

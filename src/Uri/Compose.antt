-- ===== src/Uri/Compose.antt =====
-- The constructor from components against the grammar, and against the parser.
use mathlib.Core.Path.{ap₂}
use mathlib.Core.List.{append-nil, append_assoc}
use libcosim.Base.{
  ℕ, ◌+◌, true, false, ◌≡◌, refl, sym, ap, ◌∙◌, [], ◌∷◌, ◌++◌, Option, none, some, arith, inl, inr,
  length, take, length-append,
}
use libcosim.Base.Outcome.{ok, Outcome-cases, >>=-eq-ok}
use libcosim.Uri.Chars.{Bytes, all_chars_satisfy, is_scheme_char, is_path_char, is_query_char}
use libcosim.Uri.Defs.{
  Components, components, Uri, Subrange, Buffer, add_part, add_optional, build, compose,
  input_checks, is_scheme, path_fits, query_check, parse, to_substring, to_substring?,
}
use libcosim.Uri.Grammar.{
  has_scheme, optional_part, scheme_part, PathFits, SchemeFits, IsWellFormed, with_authority,
  recompose, starts_with_colon,
}
use libcosim.Uri.Views.{take-length-append, drop-length-append}
use libcosim.Uri.Unique.{recompose-injective, clash}
use libcosim.Uri.Parse.{parse-recompose, colon_of_err, ok_cancel}

-- A part is found again at its offset, whatever is appended later.
select_part :
    (front part rest : Bytes)
    → to_substring (front ++ (part ++ rest)) (record { offset = length front; size = length part })
      ≡ part
select_part front part rest =
    ap (take (length part)) (drop-length-append front (part ++ rest)) ∙ take-length-append part rest

select_at :
    (s : Bytes) (o : ℕ) (front part rest : Bytes)
    → s ≡ front ++ (part ++ rest)
    → o ≡ length front
    → to_substring s (record { offset = o; size = length part }) ≡ part
select_at s o front part rest e f = rw (e, f) (select_part front part rest)

-- What `build` appends for an optional component.
abbrev appended : Bytes → Option Bytes → Bytes → Bytes
appended before none behind = []
appended before (some part) behind = before ++ (part ++ behind)

abbrev InStep : Buffer → Type 0
InStep b = b.at ≡ length b.built

module _ (before : Bytes) (behind : Bytes) (b : Buffer) (h : InStep b) where
  add_part-shows :
      (part rest : Bytes)
      → to_substring
          ((add_part before part behind b).1.built ++ rest)
          (add_part before part behind b).0
        ≡ part
  unfolding add_part
  add_part-shows part rest =
      select_at ((b.built ++ (before ++ (part ++ behind))) ++ rest) (b.at + length before)
        (b.built ++ before) part (behind ++ rest) (simp append_assoc)
        (omega (arith, h, length-append {0} b.built before))

  add_part-InStep : (part : Bytes) → InStep (add_part before part behind b).1
  unfolding add_part
  add_part-InStep part = omega (
    arith,
    h,
    length-append {0} b.built (before ++ (part ++ behind)),
    length-append {0} before (part ++ behind),
    length-append {0} part behind,
  )

  add_optional-shows :
      (o : Option Bytes) (rest : Bytes)
      → to_substring?
          ((add_optional before o behind b).1.built ++ rest)
          (add_optional before o behind b).0
        ≡ o
  unfolding add_optional
  add_optional-shows none rest = refl
  add_optional-shows (some part) rest = ap some (add_part-shows part rest)

  add_optional-InStep : (o : Option Bytes) → InStep (add_optional before o behind b).1
  unfolding add_optional
  add_optional-InStep none = h
  add_optional-InStep (some part) = add_part-InStep part

  add_optional-built :
      (o : Option Bytes)
      → (add_optional before o behind b).1.built ≡ b.built ++ appended before o behind
  unfolding add_optional add_part
  add_optional-built none = sym (append-nil b.built)
  add_optional-built (some part) = refl

appended-optional_part :
    (before : Bytes) (o : Option Bytes) (rest : Bytes)
    → appended before o [] ++ rest ≡ optional_part before o rest
appended-optional_part before none rest = refl
appended-optional_part before (some s) rest = simp (append_assoc, append-nil)

appended-scheme_part :
    (o : Option Bytes) (rest : Bytes) → appended [] o (b':' ∷ []) ++ rest ≡ scheme_part o rest
appended-scheme_part none rest = refl
appended-scheme_part (some s) rest = append_assoc s (b':' ∷ []) rest

-- The five steps of `build`, with the string after each in terms of the one before.
module _ (c : Components) where
  s₁ : Option Subrange × Buffer
  s₁ = add_optional [] c.scheme (b':' ∷ []) (record { built = []; at = 0 })

  s₂ : Option Subrange × Buffer
  s₂ = add_optional (b'/' ∷ b'/' ∷ []) c.authority [] s₁.1

  s₃ : Subrange × Buffer
  s₃ = add_part [] c.path [] s₂.1

  s₄ : Option Subrange × Buffer
  s₄ = add_optional (b'?' ∷ []) c.query [] s₃.1

  s₅ : Option Subrange × Buffer
  s₅ = add_optional (b'#' ∷ []) c.fragment [] s₄.1

  h₁ : InStep s₁.1
  unfolding s₁
  h₁ = add_optional-InStep [] (b':' ∷ []) (record { built = []; at = 0 }) refl c.scheme

  h₂ : InStep s₂.1
  unfolding s₂
  h₂ = add_optional-InStep (b'/' ∷ b'/' ∷ []) [] s₁.1 h₁ c.authority

  h₃ : InStep s₃.1
  unfolding s₃
  h₃ = add_part-InStep [] [] s₂.1 h₂ c.path

  h₄ : InStep s₄.1
  unfolding s₄
  h₄ = add_optional-InStep (b'?' ∷ []) [] s₃.1 h₃ c.query

  tail₄ : Bytes
  tail₄ = appended (b'#' ∷ []) c.fragment []

  tail₃ : Bytes
  tail₃ = appended (b'?' ∷ []) c.query [] ++ tail₄

  tail₂ : Bytes
  tail₂ = (c.path ++ []) ++ tail₃

  tail₁ : Bytes
  tail₁ = appended (b'/' ∷ b'/' ∷ []) c.authority [] ++ tail₂

  e₄ : s₅.1.built ≡ s₄.1.built ++ tail₄
  unfolding s₅ tail₄
  e₄ = add_optional-built (b'#' ∷ []) [] s₄.1 h₄ c.fragment

  e₃ : s₅.1.built ≡ s₃.1.built ++ tail₃
  unfolding s₄ tail₃
  e₃ =
      e₄
      ∙ ap (λ x. x ++ tail₄) (add_optional-built (b'?' ∷ []) [] s₃.1 h₃ c.query)
      ∙ append_assoc s₃.1.built (appended (b'?' ∷ []) c.query []) tail₄

  e₂ : s₅.1.built ≡ s₂.1.built ++ tail₂
  unfolding s₃ tail₂ add_part
  e₂ = e₃ ∙ append_assoc s₂.1.built (c.path ++ []) tail₃

  e₁ : s₅.1.built ≡ s₁.1.built ++ tail₁
  unfolding s₂ tail₁
  e₁ =
      e₂
      ∙ ap (λ x. x ++ tail₂) (add_optional-built (b'/' ∷ b'/' ∷ []) [] s₁.1 h₁ c.authority)
      ∙ append_assoc s₁.1.built (appended (b'/' ∷ b'/' ∷ []) c.authority []) tail₂

  shown₁ : to_substring? s₅.1.built s₁.0 ≡ c.scheme
  unfolding s₁
  shown₁ =
      ap (λ x. to_substring? x s₁.0) e₁
      ∙ add_optional-shows [] (b':' ∷ []) (record { built = []; at = 0 }) refl c.scheme tail₁

  shown₂ : to_substring? s₅.1.built s₂.0 ≡ c.authority
  unfolding s₂
  shown₂ =
      ap (λ x. to_substring? x s₂.0) e₂
      ∙ add_optional-shows (b'/' ∷ b'/' ∷ []) [] s₁.1 h₁ c.authority tail₂

  shown₃ : to_substring s₅.1.built s₃.0 ≡ c.path
  unfolding s₃
  shown₃ = ap (λ x. to_substring x s₃.0) e₃ ∙ add_part-shows [] [] s₂.1 h₂ c.path tail₃

  shown₄ : to_substring? s₅.1.built s₄.0 ≡ c.query
  unfolding s₄
  shown₄ =
      ap (λ x. to_substring? x s₄.0) e₄ ∙ add_optional-shows (b'?' ∷ []) [] s₃.1 h₃ c.query tail₄

  shown₅ : to_substring? s₅.1.built s₅.0 ≡ c.fragment
  unfolding s₅
  shown₅ =
      ap (λ x. to_substring? x s₅.0) (sym (append-nil s₅.1.built))
      ∙ add_optional-shows (b'#' ∷ []) [] s₄.1 h₄ c.fragment []

  -- The subranges that `build` computes select its arguments.
  build-components : components (build c) ≡ c
  unfolding build s₁ s₂ s₃ s₄ s₅
  build-components = λ i. record {
    scheme = shown₁ i;
    authority = shown₂ i;
    path = shown₃ i;
    query = shown₄ i;
    fragment = shown₅ i;
  }

  first_built : s₁.1.built ≡ appended [] c.scheme (b':' ∷ [])
  unfolding s₁
  first_built = add_optional-built [] (b':' ∷ []) (record { built = []; at = 0 }) refl c.scheme

  tail₁-with_authority : tail₁ ≡ with_authority c
  unfolding tail₁ tail₂ tail₃ tail₄
  tail₁-with_authority =
      appended-optional_part (b'/' ∷ b'/' ∷ []) c.authority tail₂
      ∙ ap (optional_part (b'/' ∷ b'/' ∷ []) c.authority) (
          ap₂ ◌++◌ (append-nil c.path) (
            appended-optional_part (b'?' ∷ []) c.query tail₄
            ∙ ap (optional_part (b'?' ∷ []) c.query)
                (sym (append-nil tail₄) ∙ appended-optional_part (b'#' ∷ []) c.fragment [])))

  -- The string that `build` leaves is the recomposition of its arguments.
  pub build-recompose : (build c).text ≡ recompose c
  unfolding build s₁ s₂ s₃ s₄ s₅
  build-recompose =
      e₁
      ∙ ap₂ ◌++◌ first_built tail₁-with_authority
      ∙ appended-scheme_part c.scheme (with_authority c)

scheme_accepted : (o : Option Bytes) (rest : Bytes) → SchemeFits o rest → is_scheme o ≡ true
unfolding is_scheme
scheme_accepted none rest h = refl
scheme_accepted (some []) rest h = elim h [ ]
scheme_accepted (some (c ∷ s)) rest h = h

path_accepted : (o : Option Bytes) (p : Bytes) → PathFits o p → path_fits o p ≡ true
unfolding path_fits
path_accepted none [] h = refl
path_accepted none (c ∷ p) h = refl
path_accepted (some a) [] h = refl
path_accepted (some a) (c ∷ p) h = h

path_chars-query_chars :
    (p : Bytes) → all_chars_satisfy is_path_char p ≡ true → all_chars_satisfy is_query_char p ≡ true
unfolding all_chars_satisfy is_path_char is_query_char
path_chars-query_chars [] h = refl
path_chars-query_chars (c ∷ p) h = ground (arith, path_chars-query_chars p)

pub query_accepted :
    (o : Option Bytes) (p : Bytes)
    → all_chars_satisfy is_path_char p ≡ true
    → query_check o p ≡ true
unfolding query_check
query_accepted none p h = refl
query_accepted (some q) p h = path_chars-query_chars p h

compose_accepts : (c : Components) → IsWellFormed c → compose c ≡ ok (build c)
unfolding compose input_checks
compose_accepts c w = rw (
  scheme_accepted c.scheme (with_authority c) w.scheme_fits,
  w.authority_valid,
  path_accepted c.authority c.path w.path_fits,
  w.path_valid,
  query_accepted c.query c.path w.path_valid,
)

compose-build : (c : Components) {u : Uri} → compose c ≡ ok u → u ≡ build c
unfolding compose
compose-build c h =
    let (t, e, f) = >>=-eq-ok (input_checks c) (λ _. ok (build c)) h in sym (ok_cancel f)

-- Whatever components the constructor accepts, the accessors return them, and the string is their
-- recomposition.
pub compose_lem :
    (c : Components) {u : Uri} → compose c ≡ ok u → (components u ≡ c) × (u.text ≡ recompose c)
compose_lem c h = let e = compose-build c h in rw e (build-components c, build-recompose c)

SchemeFits-colon :
    (o : Option Bytes) (rest : Bytes)
    → SchemeFits o rest
    → starts_with_colon (scheme_part o rest) ≡ false
unfolding has_scheme all_chars_satisfy is_scheme_char
SchemeFits-colon none [] h = refl
SchemeFits-colon none (c ∷ rest) h = ground arith
SchemeFits-colon (some []) rest h = elim h [ ]
SchemeFits-colon (some (c ∷ s)) rest h = ground arith

-- Well-formed components are accepted, and the parser reads the same components back from the
-- string.
pub compose-parse :
    (c : Components)
    → IsWellFormed c
    → (u : Uri) × (w : Uri) × (compose c ≡ ok u) × (parse u.text ≡ ok w) × (components w ≡ c)
compose-parse c h = elim (Outcome-cases (parse (build c).text)) [
  | inl (w, e) ↦
      let (same, fits) = parse-recompose (build c).text e in
      (
        build c,
        w,
        compose_accepts c h,
        e,
        recompose-injective (components w) c fits h (same ∙ build-recompose c),
      )
  | inr (f, e) ↦ absurd (
      clash (
        sym (SchemeFits-colon c.scheme (with_authority c) h.scheme_fits)
        ∙ ap starts_with_colon (sym (build-recompose c))
        ∙ (colon_of_err (build c).text f e).1))
]

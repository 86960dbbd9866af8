-- ===== src/Uri/Query.antt =====
-- The check of the query in the constructor of uri.cpp that takes components.
use mathlib.Core.Path.{subst}
use libcosim.Base.{Bool, true, false, ◌≡◌, refl, sym, ap, ◌∙◌, Option, some}
use libcosim.Base.Outcome.{Failure, guard, ok, >>=-eq-ok, invalid_argument}
use libcosim.Uri.Chars.{Bytes, all_chars_satisfy, is_authority_char, is_path_char, is_query_char}
use libcosim.Uri.Defs.{
  Components, components, optional_satisfies, Uri, build, compose, input_checks, is_scheme,
  path_fits, query_check, parse,
}
use libcosim.Uri.Grammar.{IsWellFormed}
use libcosim.Uri.Unique.{clash}
use libcosim.Uri.Compose.{query_accepted}
use libcosim.Uri.Parse.{parse-recompose}

guard_passes : (b : Bool) (e : Failure) {t : Unit {0}} → guard b e ≡ ok t → b ≡ true
guard_passes true e h = refl
guard_passes false e h = cc

-- The check of the query passes whenever that of the path does.
input_checks-query :
    (c : Components) (q : Option Bytes) (t : Unit {0})
    → input_checks c ≡ ok t
    → input_checks (record c { query = q }) ≡ ok t
unfolding input_checks query_check
input_checks-query c q t h =
    let (_, e₁, h₁) = >>=-eq-ok (guard (is_scheme c.scheme) invalid_argument) _ h in
    let (_, e₂, h₂) =
      >>=-eq-ok (guard (optional_satisfies is_authority_char c.authority) invalid_argument) _ h₁ in
    let (_, e₃, h₃) = >>=-eq-ok (guard (path_fits c.authority c.path) invalid_argument) _ h₂ in
    let (_, e₄, h₄) =
      >>=-eq-ok (guard (all_chars_satisfy is_path_char c.path) invalid_argument) _ h₃ in
    rw (
      guard_passes (is_scheme c.scheme) invalid_argument e₁,
      guard_passes (optional_satisfies is_authority_char c.authority) invalid_argument e₂,
      guard_passes (path_fits c.authority c.path) invalid_argument e₃,
      guard_passes (all_chars_satisfy is_path_char c.path) invalid_argument e₄,
      query_accepted q c.path
          (guard_passes (all_chars_satisfy is_path_char c.path) invalid_argument e₄),
    )

not-IsWellFormed_query :
    (c : Components) (q : Bytes)
    → c.query ≡ some q
    → all_chars_satisfy is_query_char q ≡ false
    → ¬ IsWellFormed c
not-IsWellFormed_query c q e bad w =
    clash (sym bad ∙ ap (optional_satisfies is_query_char) (sym e) ∙ w.query_valid)

-- The constructor checks the path where it means to check the query: to any components that it
-- accepts, a query with a `#` can be added; they are still accepted, and no parse of the string
-- returns them.
pub compose_unchecked_query :
    (c : Components) (q : Bytes) {u : Uri}
    → compose c ≡ ok u
    → all_chars_satisfy is_query_char q ≡ false
    → (v : Uri) × (compose (record c { query = some q }) ≡ ok v)
      × ¬ ((w : Uri) × (parse v.text ≡ ok w) × (components w ≡ record c { query = some q }))
unfolding compose
compose_unchecked_query c q h bad =
    let (t, e, f) = >>=-eq-ok (input_checks c) (λ _. ok (build c)) h in
    let c' = record c { query = some q } in
    (
      build c',
      rw (input_checks-query c (some q) t e),
      λ (w, p, same).
          not-IsWellFormed_query c' q refl bad
            (subst IsWellFormed same (parse-recompose (build c').text p).1),
    )

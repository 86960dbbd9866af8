-- ===== src/Uri/Unique.antt =====
-- Well-formed components are determined by their text.
use mathlib.Core.List.{append-nil}
use libcosim.Base.{
  ℕ, Bool, true, false, ◌≡◌, refl, sym, ap, ◌∙◌, [], ◌∷◌, ◌++◌, Option, none, some, arith, drop,
}
use libcosim.Uri.Chars.{
  Bytes, all_chars_satisfy, is_scheme_char, is_authority_char, is_path_char, is_query_char,
}
use libcosim.Uri.Defs.{Components, optional_satisfies}
use libcosim.Uri.Grammar.{
  optional_part, scheme_part, PathFits, SchemeFits, IsWellFormed, with_query, recompose, has_scheme,
  starts_with_slashes, is_empty_or_absolute,
}
use libcosim.Uri.Views.{Stops}

-- Where the first text ends is determined by its characters and by what stops it.
append_cancel :
    (p : ℕ → Bool) (xs ys xs' ys' : Bytes)
    → all_chars_satisfy p xs ≡ true
    → all_chars_satisfy p xs' ≡ true
    → Stops p ys
    → Stops p ys'
    → xs ++ ys ≡ xs' ++ ys'
    → (xs ≡ xs') × (ys ≡ ys')
unfolding all_chars_satisfy
append_cancel p [] [] [] ys' a a' st st' e = (refl, e)
append_cancel p [] (y ∷ ys) [] ys' a a' st st' e = (refl, e)
append_cancel p [] [] (x ∷ xs') ys' a a' st st' e = absurd (ground arith)
append_cancel p [] (y ∷ ys) (x ∷ xs') ys' a a' st st' e = absurd (ground arith)
append_cancel p (x ∷ xs) ys [] [] a a' st st' e = absurd (ground arith)
append_cancel p (x ∷ xs) ys [] (y ∷ ys') a a' st st' e = absurd (ground arith)
append_cancel p (x ∷ xs) ys (x' ∷ xs') ys' a a' st st' e =
    ground (arith, append_cancel p xs ys xs' ys')

pub clash : false ≡ true → ⊥
clash e = cc

fragment-Stops : (o : Option Bytes) → Stops is_query_char (optional_part (b'#' ∷ []) o [])
unfolding is_query_char
fragment-Stops none = tt
fragment-Stops (some s) = refl

query-Stops :
    (q : Option Bytes) (f : Option Bytes)
    → Stops is_path_char (optional_part (b'?' ∷ []) q (optional_part (b'#' ∷ []) f []))
unfolding is_path_char
query-Stops none none = tt
query-Stops none (some f) = refl
query-Stops (some q) f = refl

path-Stops :
    (p rest : Bytes)
    → is_empty_or_absolute p ≡ true
    → Stops is_path_char rest
    → Stops is_authority_char (p ++ rest)
unfolding is_path_char is_authority_char
path-Stops [] [] h st = tt
path-Stops [] (c ∷ rest) h st = ground arith
path-Stops (c ∷ p) rest h st = ground arith

-- `//` cannot arise where a path meets a query or a fragment.
slashes-append :
    (p rest : Bytes)
    → starts_with_slashes p ≡ false
    → Stops is_path_char rest
    → starts_with_slashes (p ++ rest) ≡ false
unfolding is_path_char
slashes-append [] [] h st = refl
slashes-append [] (a ∷ []) h st = refl
slashes-append [] (a ∷ b ∷ t) h st = ground arith
slashes-append (a ∷ []) [] h st = refl
slashes-append (a ∷ []) (b ∷ t) h st = ground arith
slashes-append (a ∷ b ∷ p) rest h st = h

has_scheme-append :
    (s rest : Bytes)
    → all_chars_satisfy is_scheme_char s ≡ true
    → has_scheme (s ++ b':' ∷ rest) ≡ true
unfolding has_scheme all_chars_satisfy is_scheme_char
has_scheme-append [] rest h = refl
has_scheme-append (c ∷ s) rest h = ground (arith, has_scheme-append s rest)

colon-Stops : (rest : Bytes) → Stops is_scheme_char (b':' ∷ rest)
unfolding is_scheme_char
colon-Stops rest = refl

scheme_valid :
    (s t rest : Bytes) → SchemeFits (some s) t → all_chars_satisfy is_scheme_char s ≡ true
scheme_valid [] t rest h = elim h [ ]
scheme_valid (c ∷ s) t rest h = h

scheme_cancel :
    (o o' : Option Bytes) (r r' : Bytes)
    → SchemeFits o r
    → SchemeFits o' r'
    → scheme_part o r ≡ scheme_part o' r'
    → (o ≡ o') × (r ≡ r')
scheme_cancel none none r r' h h' e = (refl, e)
scheme_cancel none (some s) r r' h h' e =
    absurd (clash (sym h ∙ ap has_scheme e ∙ has_scheme-append s r' (scheme_valid s r' r' h')))
scheme_cancel (some s) none r r' h h' e =
    absurd (clash (sym h' ∙ ap has_scheme (sym e) ∙ has_scheme-append s r (scheme_valid s r r h)))
scheme_cancel (some s) (some s') r r' h h' e =
    let (p, q) =
      append_cancel is_scheme_char s (b':' ∷ r) s' (b':' ∷ r') (scheme_valid s r r h)
        (scheme_valid s' r' r' h') (colon-Stops r) (colon-Stops r') e in
    (ap some p, ap (drop 1) q)

-- The part behind the scheme, for any query and fragment.
module _ (t t' : Bytes) (st : Stops is_path_char t) (st' : Stops is_path_char t') where
  authority_cancel :
      (o o' : Option Bytes) (p p' : Bytes)
      → optional_satisfies is_authority_char o ≡ true
      → optional_satisfies is_authority_char o' ≡ true
      → PathFits o p
      → PathFits o' p'
      → optional_part (b'/' ∷ b'/' ∷ []) o (p ++ t) ≡ optional_part (b'/' ∷ b'/' ∷ []) o' (p' ++ t')
      → (o ≡ o') × (p ++ t ≡ p' ++ t')
  authority_cancel none none p p' a a' f f' e = (refl, e)
  authority_cancel none (some s) p p' a a' f f' e =
      absurd (clash (sym (slashes-append p t f st) ∙ ap starts_with_slashes e))
  authority_cancel (some s) none p p' a a' f f' e =
      absurd (clash (sym (slashes-append p' t' f' st') ∙ ap starts_with_slashes (sym e)))
  authority_cancel (some s) (some s') p p' a a' f f' e =
      let (x, y) =
        append_cancel is_authority_char s (p ++ t) s' (p' ++ t') a a' (path-Stops p t f st)
          (path-Stops p' t' f' st') (ap (drop 2) e) in
      (ap some x, y)

fragment_cancel :
    (f f' : Option Bytes)
    → optional_part (b'#' ∷ []) f [] ≡ optional_part (b'#' ∷ []) f' []
    → f ≡ f'
fragment_cancel none none e = refl
fragment_cancel none (some s) e = cc
fragment_cancel (some s) none e = cc
fragment_cancel (some s) (some s') e = ap some (sym (append-nil s) ∙ ap (drop 1) e ∙ append-nil s')

query_cancel :
    (q q' f f' : Option Bytes)
    → optional_satisfies is_query_char q ≡ true
    → optional_satisfies is_query_char q' ≡ true
    → optional_part (b'?' ∷ []) q (optional_part (b'#' ∷ []) f [])
      ≡ optional_part (b'?' ∷ []) q' (optional_part (b'#' ∷ []) f' [])
    → (q ≡ q') × (f ≡ f')
query_cancel none none f f' a a' e = (refl, fragment_cancel f f' e)
query_cancel none (some s) none f' a a' e = cc
query_cancel none (some s) (some x) f' a a' e = absurd (ground arith)
query_cancel (some s) none f none a a' e = cc
query_cancel (some s) none f (some x) a a' e = absurd (ground arith)
query_cancel (some s) (some s') f f' a a' e =
    let (x, y) =
      append_cancel is_query_char s _ s' _ a a' (fragment-Stops f) (fragment-Stops f')
        (ap (drop 1) e) in
    (ap some x, fragment_cancel f f' y)

-- Two well-formed lists of components with the same text are the same.
pub recompose-injective :
    (c d : Components) → IsWellFormed c → IsWellFormed d → recompose c ≡ recompose d → c ≡ d
recompose-injective c d w v e =
    let (same_scheme, e₁) = scheme_cancel c.scheme d.scheme _ _ w.scheme_fits v.scheme_fits e in
    let (same_authority, e₂) =
      authority_cancel (with_query c) (with_query d) (query-Stops c.query c.fragment)
        (query-Stops d.query d.fragment) c.authority d.authority c.path d.path w.authority_valid
        v.authority_valid w.path_fits v.path_fits e₁ in
    let (same_path, e₃) =
      append_cancel is_path_char c.path (with_query c) d.path (with_query d) w.path_valid
        v.path_valid (query-Stops c.query c.fragment) (query-Stops d.query d.fragment) e₂ in
    let (same_query, same_fragment) =
      query_cancel c.query d.query c.fragment d.fragment w.query_valid v.query_valid e₃ in
    ground arith

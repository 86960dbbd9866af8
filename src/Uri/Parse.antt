-- ===== src/Uri/Parse.antt =====
-- `uri(std::string)` against the grammar: it splits every text, and only as RFC 3986 allows.
use mathlib.Core.Path.{ap₂, subst}
use libcosim.Base.{
  Bool, false, Bool-cases, true, ◌≡◌, ◌≢◌, refl, sym, ap, ◌∙◌, [], ◌∷◌, ◌++◌, Option, none, some,
  arith, inl, inr,
}
use libcosim.Base.Outcome.{Outcome, Failure, >>=-eq-ok, Outcome-cases, ok, err, invalid_argument}
use libcosim.Uri.Chars.{
  Bytes, all_chars_satisfy, is_scheme_char, is_authority_char, is_path_char, is_query_char,
}
use libcosim.Uri.Grammar.{
  starts_with_colon, optional_part, PathFits, SchemeFits, IsWellFormed, with_authority, recompose,
}
use libcosim.Uri.Consume.{
  chars?, view_at, Consumed, SchemeEnds, AuthorityEnds, any_char, consume_while-Consumed,
  consume_while-Stops, consume_authority-Consumed, consume_query-Consumed,
  consume_fragment-Consumed, consume_scheme-SchemeEnds, consume_authority-AuthorityEnds,
  consume_query-Stops, PathFits_of_ends, some_cancel,
}
use libcosim.Uri.Views.{IsSuffix}
use libcosim.Uri.Defs.{
  View, to_subrange, to_substring, valid_prefix, consume_while, consume_scheme, consume_authority,
  consume_path, consume_query, consume_fragment, optional_satisfies, Components, components, parse,
  parse_rest, Uri,
}

pub ok_cancel : {u w : Uri} → ok u ≡ ok w → u ≡ w
ok_cancel e = cc

-- What `parse_rest` shows of the text behind the scheme.
record Rest (t : Bytes) (c : Components) : Type 0 where
  splits : t ≡ with_authority c
  authority_valid : optional_satisfies is_authority_char c.authority ≡ true
  path_fits : PathFits c.authority c.path
  path_valid : all_chars_satisfy is_path_char c.path ≡ true
  query_valid : optional_satisfies is_query_char c.query ≡ true

parse_rest-Rest :
    (s : Bytes) (sch : Option View) (v : View)
    → IsSuffix s v
    → Rest v.chars (components (parse_rest s (sch, v)))
unfolding parse_rest consume_path
parse_rest-Rest s sch v h =
    rw (fa.shown, path_shown, fq.shown, ff.shown)
      (record {
        splits =
            fa.splits
            ∙ ap (optional_part (b'/' ∷ b'/' ∷ []) (chars? a.0)) (
                fp.splits
                ∙ ap (◌++◌ p.0.chars) (
                    fq.splits
                    ∙ ap (optional_part (b'?' ∷ []) (chars? q.0))
                        (ff.splits ∙ ap (optional_part (b'#' ∷ []) (chars? f.0)) end)));
        authority_valid = fa.valid;
        path_fits =
            PathFits_of_ends v.chars a.0 a.1 p.0.chars p.1.chars ends fa.splits fp.splits fp.valid;
        path_valid = fp.valid;
        query_valid = fq.valid;
      })
  where
    a : Option View × View
    a = consume_authority v

    p : View × View
    p = consume_while is_path_char a.1 0

    q : Option View × View
    q = consume_query p.1

    f : Option View × View
    f = consume_fragment q.1

    fa : Consumed s v (b'/' ∷ b'/' ∷ []) is_authority_char a.0 a.1
    fa = consume_authority-Consumed s v.start v.chars h

    ends : AuthorityEnds v.chars a.0 a.1
    ends = consume_authority-AuthorityEnds v.start v.chars

    fp : Consumed s a.1 [] is_path_char (some p.0) p.1
    fp = consume_while-Consumed s a.1 fa.suffix [] is_path_char 0 refl

    path_shown : to_substring s (to_subrange p.0) ≡ p.0.chars
    path_shown = some_cancel fp.shown

    fq : Consumed s p.1 (b'?' ∷ []) is_query_char q.0 q.1
    fq = consume_query-Consumed s p.1.start p.1.chars fp.suffix

    last : Consumed s q.1 (b'#' ∷ []) any_char f.0 f.1 × (f.1.chars ≡ [])
    last =
        consume_fragment-Consumed s q.1.start q.1.chars fq.suffix
          (consume_query-Stops p.1.start p.1.chars (consume_while-Stops is_path_char a.1 0))

    ff : Consumed s q.1 (b'#' ∷ []) any_char f.0 f.1
    ff = last.0

    end : f.1.chars ≡ []
    end = last.1

SchemeFits-of_ne :
    (t rest : Bytes) → t ≢ [] → all_chars_satisfy is_scheme_char t ≡ true → SchemeFits (some t) rest
SchemeFits-of_ne [] rest ne h = absurd (ne refl)
SchemeFits-of_ne (c ∷ t) rest ne h = h

record Parsed (s : Bytes) (c : Components) : Type 0 where
  splits : recompose c ≡ s
  well_formed : IsWellFormed c

parse_rest-Parsed :
    (s : Bytes) (r : Option View × View)
    → SchemeEnds s (ok r)
    → Parsed s (components (parse_rest s r))
unfolding parse_rest
parse_rest-Parsed s (none, w) (e, no_scheme) = record {
  splits = sym r.splits ∙ whole;
  well_formed = record {
    scheme_fits = rw (← r.splits) (rw whole no_scheme);
    authority_valid = r.authority_valid;
    path_fits = r.path_fits;
    path_valid = r.path_valid;
    query_valid = r.query_valid;
  };
}
  where
    whole : w.chars ≡ s
    whole = ap (λ (x : View). x.chars) e

    r : Rest w.chars (components (parse_rest s (none, w)))
    r = parse_rest-Rest s none w (rw e refl)
parse_rest-Parsed s (some a, w) (suffix, shown, splits, ne, valid) = record {
  splits = ap₂ (λ x y. x ++ b':' ∷ y) shown (sym r.splits) ∙ sym splits;
  well_formed = record {
    scheme_fits = rw shown (SchemeFits-of_ne a.chars _ ne valid);
    authority_valid = r.authority_valid;
    path_fits = r.path_fits;
    path_valid = r.path_valid;
    query_valid = r.query_valid;
  };
}
  where
    r : Rest w.chars (components (parse_rest s (some a, w)))
    r = parse_rest-Rest s (some a) w suffix

parse-Parsed : (s : Bytes) {u : Uri} → parse s ≡ ok u → Parsed s (components u)
unfolding parse
parse-Parsed s {u} h =
    let (r, e, f) = >>=-eq-ok (consume_scheme (view_at 0 s)) (λ x. ok (parse_rest s x)) h in
    subst (λ x. Parsed s (components x)) (ok_cancel f)
      (parse_rest-Parsed s r (rw e at (consume_scheme-SchemeEnds s)))

-- A text that the constructor accepts is the text of the components that the accessors return, by
-- the recomposition of RFC 3986, and those components are well formed: no delimiter is lost or
-- moved to another component.
pub parse-recompose :
    (s : Bytes) {u : Uri}
    → parse s ≡ ok u
    → (recompose (components u) ≡ s) × IsWellFormed (components u)
parse-recompose s h = let r = parse-Parsed s h in (r.splits, r.well_formed)

colon_of_ends :
    (s : Bytes) (e : Failure)
    → SchemeEnds s (err e)
    → (e ≡ invalid_argument) × (starts_with_colon s ≡ true)
colon_of_ends s e (p, t, q) = (p, rw q)

pub colon_of_err :
    (s : Bytes) (e : Failure)
    → parse s ≡ err e
    → (e ≡ invalid_argument) × (starts_with_colon s ≡ true)
unfolding parse
colon_of_err s e h = elim (Outcome-cases (consume_scheme (view_at 0 s))) [
  | inl (r, q) ↦ absurd (cc)
  | inr (f, q) ↦ rw (← same f q h) (colon_of_ends s f (rw q at (consume_scheme-SchemeEnds s)))
]
  where
    same : (f : Failure) → consume_scheme (view_at 0 s) ≡ err f → parse s ≡ err e → f ≡ e
    same f q h = cc

colon_fails : (s : Bytes) → starts_with_colon s ≡ true → parse s ≡ err invalid_argument
unfolding parse consume_scheme valid_prefix is_scheme_char
colon_fails [] h = cc
colon_fails (c ∷ s) h = ground (arith, h)

ok-ne-err : {u : Uri} {e : Failure} → ok u ≢ err e
ok-ne-err h = cc

-- What a constructor call may end in, for a text that starts with a colon and for one that does
-- not.
abbrev pub EndsByColon : Bool → Outcome Uri → Type 0
EndsByColon colon (ok u) = colon ≡ false
EndsByColon colon (err e) = (e ≡ invalid_argument) × (colon ≡ true)

-- The constructor fails exactly for the texts that start with a colon, and then always with
-- `invalid_argument`; all others are accepted, whether or not RFC 3986 calls them URI references.
pub parse-EndsByColon : (s : Bytes) → EndsByColon (starts_with_colon s) (parse s)
parse-EndsByColon s = elim (Outcome-cases (parse s)) [
  | inl (u, e) ↦ rw e (elim (Bool-cases (starts_with_colon s)) [
    | inl colon ↦ absurd (ok-ne-err (sym e ∙ colon_fails s colon))
    | inr plain ↦ plain
  ])
  | inr (f, e) ↦ rw e (colon_of_err s f e)
]

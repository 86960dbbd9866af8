-- ===== src/Orchestration/Lookup.antt =====
-- What the resolvers of orchestration.cpp find, with the functions of uri.cpp.
use libcosim.Base.{
  Bool, true, false, not, ◌||◌, ◌<◌, List, [], ◌∷◌, Option, none, some, if◌then◌else◌, ◌≡◌, ◌≢◌,
  refl, sym, ap, ◌∙◌, length,
}
use libcosim.Base.Outcome.{
  Outcome, ok, err, Failure, invalid_argument, runtime_error, undefined, guard, of_option,
  of_option-ok, >>=-eq-ok, ok_cancel, Outcome-cases,
}
use libcosim.Base.Outcome as O
use libcosim.Base.Method.{Method, pure, throw, lift, continue, ◌>>=◌, ◌>>◌}
use libcosim.Uri.Chars.{Bytes, is_unreserved, is_in_cstring}
use libcosim.Uri.Defs.{components, Components, Uri, compose}
use libcosim.Uri.Compose.{compose_lem}
use libcosim.Uri.Percent.{
  percent_encode, percent_decode, percent_encode_uri, encode_components, is_plain, size_mod,
}
use libcosim.Uri.Percent.RoundTrip.{trailing, AreBytes}
use libcosim.Uri.Resolve.{
  resolve_reference, target, remove_dot_segments, relative_path, relative_query,
}
use libcosim.Uri.File.{
  file_scheme, equal_bytes, is_local, is_some_with, file_uri_to_path, path_to_file_uri,
}
use libcosim.Uri.File.RoundTrip.{
  path_exceptions, file_components, file_uri_to_path-path_to_file_uri,
}
use libcosim.Orchestration.{
  has_scheme, SubResolver, make_sub_resolver, default_lookup_reference, first_model,
  lookup_reference, lookup_model, lookup_fmu, is_remote, default_model_uri_resolver,
  add_sub_resolver,
}

abbrev has_some : Option Bytes → Bool
has_some o = elim o [ none ↦ false | some s ↦ true ]

target-has_scheme :
    (b r : Components) {s : Bytes} → b.scheme ≡ some s → has_some (target b r).scheme ≡ true
unfolding target
target-has_scheme b r e = go r.scheme r.authority refl
  where
    go :
        (o a : Option Bytes)
        → r.scheme ≡ o
        → has_some
            (elim o as (λ x. Components) [
              | some s ↦ record r { path = remove_dot_segments r.path }
              | none ↦ elim a as (λ x. Components) [
                | some a ↦ record r { scheme = b.scheme; path = remove_dot_segments r.path }
                | none ↦ record {
                  scheme = b.scheme;
                  authority = b.authority;
                  path = relative_path b r;
                  query = relative_query b r;
                  fragment = r.fragment;
                }
              ]
            ]).scheme
          ≡ true
    go (some s) a p = ap has_some p
    go none none p = ap has_some e
    go none (some a) p = ap has_some e

-- A reference that can be resolved has a base with a scheme, and a target with one.
resolve_reference-has_scheme :
    (base reference : Uri) {u : Uri}
    → resolve_reference base reference ≡ ok u
    → (has_scheme base ≡ true) × (has_scheme u ≡ true)
unfolding resolve_reference
resolve_reference-has_scheme base reference {u} e =
    let (s, f, g) =
      >>=-eq-ok (of_option invalid_argument (components base).scheme)
        (λ s. compose (target (components base) (components reference))) e in
    let h : (components base).scheme ≡ some s =
      of_option-ok invalid_argument (components base).scheme f in
    (
      ap has_some h,
      ap (λ (c : Components). has_some c.scheme)
            (compose_lem (target (components base) (components reference)) g).0
          ∙ target-has_scheme (components base) (components reference) h,
    )

module _ {World Model : Type 0} where
  -- Sub-resolvers that leave `lookup_model` of a reference as it is
  abbrev pub defaults : List (Uri → Method World (Option Model)) → List (SubResolver World Model)
  defaults [] = []
  defaults (l ∷ ls) = make_sub_resolver l ∷ defaults ls

  continue-eq :
      (o : Outcome (Option Model)) (w : World) (j k : Method World Model)
      → ((t : World) → ◌≡◌ {A = Outcome Model × World} (j t) (k t))
      → ◌≡◌ {A = Outcome Model × World}
          (continue o w (λ r. elim r [ some m ↦ pure m | none ↦ j ]))
          (continue o w (λ r. elim r [ some m ↦ pure m | none ↦ k ]))
  continue-eq (err x) w j k same = refl
  continue-eq (ok none) w j k same = same w
  continue-eq (ok (some m)) w j k same = refl

  first_model-resolve_reference :
      (ls : List (Uri → Method World (Option Model))) (base reference : Uri) {u : Uri} (w : World)
      → resolve_reference base reference ≡ ok u
      → ◌≡◌ {A = Outcome Model × World}
          (first_model (λ s. s.lookup_reference base reference) (defaults ls) w)
          (first_model (λ s. s.lookup_model u) (defaults ls) w)
  unfolding first_model default_lookup_reference
  first_model-resolve_reference [] base reference w e = refl
  first_model-resolve_reference (l ∷ ls) base reference {u} w e =
      ap
        (λ (o : Outcome Uri).
          let q = continue o w l in
          continue q.0 q.1 (λ r. elim r [
            | some m ↦ pure m
            | none ↦ first_model (λ s. s.lookup_reference base reference) (defaults ls)
          ]))
        e
      ∙ continue-eq (l u w).0 (l u w).1 _ _
          (λ t. first_model-resolve_reference ls base reference t e)

  -- Where no sub-resolver overrides the lookup of references, a reference that can be resolved is
  -- looked up as its target.
  pub lookup_reference-resolve_reference :
      (ls : List (Uri → Method World (Option Model))) (base reference : Uri) {u : Uri} (w : World)
      → resolve_reference base reference ≡ ok u
      → ◌≡◌ {A = Outcome Model × World}
          (lookup_reference base reference (defaults ls) w)
          (lookup_model u (defaults ls) w)
  unfolding lookup_reference lookup_model
  lookup_reference-resolve_reference ls base reference {u} w e =
      let h = resolve_reference-has_scheme base reference e in
      ap
        (λ (b : Bool).
          ((lift (guard (b || has_scheme reference) invalid_argument))
              >> first_model (λ s. s.lookup_reference base reference) (defaults ls))
            w)
        h.0
      ∙ first_model-resolve_reference ls base reference w e
      ∙ ap
          (λ (b : Bool).
            ((lift (guard b invalid_argument)) >> first_model (λ s. s.lookup_model u) (defaults ls))
              w)
          (sym h.1)

  module _ (is_fmu : Bytes → Bool) (import : Bytes → Method World Model)
      (proxy : Option (SubResolver World Model)) where
    abbrev resolvers : List (SubResolver World Model)
    resolvers = default_model_uri_resolver is_fmu import proxy

    -- What the lookup computes, by the components of the URI and by its path
    asked : Option Bytes → Option Bytes → Outcome Bytes → Method World (Option Model)
    asked s a path = do
      scheme ← lift (of_option undefined s)
      if not (equal_bytes scheme file_scheme) || is_remote a then pure none else (do
        p ← lift path
        if not (is_fmu p) then pure none else (do m ← import p; pure (some m)))

    -- The resolver for the proxy, where there is one, is asked what the other leaves.
    asked_next : Option (SubResolver World Model) → Uri → Method World Model
    asked_next none u = throw runtime_error
    asked_next (some s) u = do
      r ← s.lookup_model u
      elim r [ some m ↦ pure m | none ↦ throw runtime_error ]

    abbrev chosen : Uri → Option Model → Method World Model
    chosen u r = elim r [ some m ↦ pure m | none ↦ asked_next proxy u ]

    found : Uri → Option Bytes → Option Bytes → Outcome Bytes → World → Outcome Model × World
    found u s a path = do lift (guard (has_some s) invalid_argument); r ← asked s a path; chosen u r

    lookup_model-found :
        (u : Uri) (w : World)
        → ◌≡◌ {A = Outcome Model × World}
            (lookup_model u resolvers w)
            (found u (components u).scheme (components u).authority (file_uri_to_path u) w)
    unfolding lookup_model first_model default_model_uri_resolver lookup_fmu add_sub_resolver found
        asked asked_next
    lookup_model-found u w = by_proxy proxy
      where
        by_proxy :
            (p : Option (SubResolver World Model))
            → ◌≡◌ {A = Outcome Model × World}
                (lookup_model u (default_model_uri_resolver is_fmu import p) w)
                (((lift (guard (has_scheme u) invalid_argument))
                    >> (asked (components u).scheme (components u).authority (file_uri_to_path u)
                        >>= λ r. elim r [ some m ↦ pure m | none ↦ asked_next p u ]))
                  w)
        by_proxy none = refl
        by_proxy (some s) = refl

    imported :
        (u : Uri) (o : Outcome Model) (t : World)
        → let q = continue o t (λ m. pure (some m)) in
          ◌≡◌ {A = Outcome Model × World}
            (continue q.0 q.1 (λ (r : Option Model). chosen u r))
            (o, t)
    imported u (ok m) t = refl
    imported u (err x) t = refl

    -- The URI that path_to_file_uri makes of the path of an FMU (under the conditions of the round
    -- trip) is looked up by importing just that path, and what the import returns or throws is what
    -- the lookup does.
    pub lookup_model-path_to_file_uri :
        (p : Bytes) (w : World)
        → AreBytes p
        → length (percent_encode path_exceptions (b'/' ∷ p)) < size_mod
        → trailing path_exceptions 0 (b'/' ∷ p) ≢ 2
        → is_fmu (b'/' ∷ p) ≡ true
        → (u : Uri) × (path_to_file_uri (b'/' ∷ p) ≡ ok u)
          × ◌≡◌ {A = Outcome Model × World} (lookup_model u resolvers w) (import (b'/' ∷ p) w)
    unfolding path_to_file_uri percent_encode_uri percent_encode is_plain is_unreserved
        is_in_cstring found asked equal_bytes is_local is_remote
    lookup_model-path_to_file_uri p w bytes fits ne fmu =
        let (u, made, back) = file_uri_to_path-path_to_file_uri p bytes fits ne in
        let c = (compose_lem (encode_components (file_components p)) made).0 in
        (
          u,
          made,
          lookup_model-found u w
              ∙ ap (λ (d : Components). found u d.scheme d.authority (file_uri_to_path u) w) c
              ∙ ap (λ (o : Outcome Bytes). found u (some file_scheme) (some []) o w) back
              ∙ ap
                  (λ (b : Bool).
                    let m : Method World (Option Model) =
                      (if not b then pure none else (do m ← import (b'/' ∷ p); pure (some m))) in
                    let q = m w in continue q.0 q.1 (λ (r : Option Model). chosen u r))
                  fmu
              ∙ imported u (import (b'/' ∷ p) w).0 (import (b'/' ∷ p) w).1,
        )

    -- The URI of a file without an authority, such as `file:/model.fmu`, is refused with
    -- invalid_argument, although the resolver for files lets such a URI pass.
    pub lookup_model-no_authority :
        (u : Uri) (w : World)
        → (components u).scheme ≡ some file_scheme
        → (components u).authority ≡ none
        → ◌≡◌ {A = Outcome Model × World} (lookup_model u resolvers w) (err invalid_argument, w)
    unfolding found asked file_uri_to_path equal_bytes is_local is_remote
    lookup_model-no_authority u w s a =
        lookup_model-found u w
        ∙ ap
            (λ (x : Option Bytes).
              found u x (components u).authority (by_parts x (components u).authority) w)
            s
        ∙ ap (λ (x : Option Bytes). found u (some file_scheme) x (by_parts (some file_scheme) x) w)
            a
      where
        by_parts : Option Bytes → Option Bytes → Outcome Bytes
        by_parts s a =
            O.◌>>◌ (guard (is_some_with (λ x. equal_bytes x file_scheme) s) invalid_argument) (
              O.◌>>◌ (guard (is_some_with is_local a) invalid_argument)
                (percent_decode (components u).path))

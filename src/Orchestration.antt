-- ===== src/Orchestration.antt =====
-- src/cosim/orchestration.cpp: models are looked up by URI, by resolvers that are asked in turn. Their
-- state is `World`, a model is a parameter, and so are the FMU importer and `path::extension`.
pub mod Lookup
use libcosim.Base.{
  ℕ, Bool, true, false, not, ◌||◌, List, [], ◌∷◌, ◌++◌, Option, none, some, if◌then◌else◌,
}
use libcosim.Base.Outcome.{
  Outcome, ok, err, invalid_argument, runtime_error, undefined, guard, of_option,
}
use libcosim.Base.Method.{Method, pure, throw, lift, ◌>>=◌, ◌>>◌}
use libcosim.Uri.Chars.{Bytes}
use libcosim.Uri.Defs.{components, Uri}
use libcosim.Uri.Resolve.{resolve_reference}
use libcosim.Uri.File.{file_scheme, equal_bytes, is_local, file_uri_to_path}

abbrev pub has_scheme : Uri → Bool
has_scheme u = elim (components u).scheme [ none ↦ false | some s ↦ true ]

-- An authority that is neither empty nor `localhost`
unfoldable pub is_remote : Option Bytes → Bool
is_remote none = false
is_remote (some a) = not (is_local a)

-- `model_uri_sub_resolver`: its two virtual functions
pub record SubResolver (World Model : Type 0) : Type 0 where
  pub lookup_model : Uri → Method World (Option Model)
  pub lookup_reference : Uri → Uri → Method World (Option Model)

module _ {World Model : Type 0} where
  -- `lookup_model(baseUri, modelUriReference)` where it is not overridden
  unfoldable pub default_lookup_reference :
      (Uri → Method World (Option Model)) → Uri → Uri → Method World (Option Model)
  default_lookup_reference lookup base reference = do
    u ← lift (resolve_reference base reference)
    lookup u

  abbrev pub make_sub_resolver : (Uri → Method World (Option Model)) → SubResolver World Model
  make_sub_resolver lookup = record {
    lookup_model = lookup;
    lookup_reference = default_lookup_reference lookup;
  }

  -- The loop over the sub-resolvers
  unfoldable pub first_model :
      (SubResolver World Model → Method World (Option Model))
      → List (SubResolver World Model)
      → Method World Model
  first_model ask [] = throw runtime_error
  first_model ask (s ∷ ss) = do r ← ask s; elim r [ some m ↦ pure m | none ↦ first_model ask ss ]

  unfoldable pub add_sub_resolver :
      SubResolver World Model → List (SubResolver World Model) → List (SubResolver World Model)
  add_sub_resolver s ss = ss ++ s ∷ []

  unfoldable pub lookup_reference : Uri → Uri → List (SubResolver World Model) → Method World Model
  unfolding first_model
  lookup_reference base reference ss = do
    lift (guard (has_scheme base || has_scheme reference) invalid_argument)
    first_model (λ s. s.lookup_reference base reference) ss

  unfoldable pub lookup_model : Uri → List (SubResolver World Model) → Method World Model
  unfolding first_model
  lookup_model u ss = do
    lift (guard (has_scheme u) invalid_argument)
    first_model (λ s. s.lookup_model u) ss

  -- `fmu_file_uri_sub_resolver`. A URI without a scheme is read through an empty `std::optional`.
  module _ (is_fmu : Bytes → Bool) (import : Bytes → Method World Model) where
    unfoldable pub lookup_fmu : Uri → Method World (Option Model)
    unfolding is_remote
    lookup_fmu u = do
      scheme ← lift (of_option undefined (components u).scheme)
      if not (equal_bytes scheme file_scheme) || is_remote (components u).authority
          then pure none
          else (do
            path ← lift (file_uri_to_path u)
            if not (is_fmu path) then pure none else (do m ← import path; pure (some m)))

    -- `default_model_uri_resolver`; the resolver for the proxy is there in builds that define
    -- `HAS_PROXYFMU`.
    unfoldable pub default_model_uri_resolver :
        Option (SubResolver World Model) → List (SubResolver World Model)
    default_model_uri_resolver none = add_sub_resolver (make_sub_resolver lookup_fmu) []
    default_model_uri_resolver (some proxy) =
        add_sub_resolver proxy (add_sub_resolver (make_sub_resolver lookup_fmu) [])

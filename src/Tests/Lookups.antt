-- ===== src/Tests/Lookups.antt =====
-- The path /a.fmu, its URI, and a resolver that imports every file.
use libcosim.Base.{ℕ, suc, Bool, true, [], ◌∷◌, none, some, ◌≡◌, ◌≢◌, refl, length, ◌<◌, arith}
use libcosim.Base.Outcome.{Outcome, ok, err, invalid_argument}
use libcosim.Base.Method.{Method, pure}
use libcosim.Uri.Chars.{Bytes, is_unreserved, is_in_cstring}
use libcosim.Uri.Defs.{Uri}
use libcosim.Uri.Percent.{percent_encode, is_plain, size_mod}
use libcosim.Uri.Percent.RoundTrip.{trailing, AreBytes}
use libcosim.Uri.File.{path_to_file_uri, file_uri_to_path}
use libcosim.Uri.File.RoundTrip.{path_exceptions, file_uri_to_path-path_to_file_uri}
use libcosim.Orchestration.{
  SubResolver, make_sub_resolver, lookup_model, default_model_uri_resolver,
}
use libcosim.Orchestration.Lookup.{lookup_model-path_to_file_uri, lookup_model-no_authority}

abbrev a_fmu : Bytes
a_fmu = b'a' ∷ b'.' ∷ b'f' ∷ b'm' ∷ b'u' ∷ []

a_fmu-AreBytes : AreBytes a_fmu
a_fmu-AreBytes = (omega arith, (omega arith, (omega arith, (omega arith, (omega arith, tt)))))

fits : length (percent_encode path_exceptions (b'/' ∷ a_fmu)) < size_mod
unfolding percent_encode is_plain is_unreserved is_in_cstring
fits = omega arith

six_trailing : trailing path_exceptions 0 (b'/' ∷ a_fmu) ≢ 2
unfolding is_plain is_unreserved is_in_cstring
six_trailing e = cc

file_uri_to_path-path_to_file_uri_example :
    (u : Uri) × (path_to_file_uri (b'/' ∷ a_fmu) ≡ ok u) × (file_uri_to_path u ≡ ok (b'/' ∷ a_fmu))
file_uri_to_path-path_to_file_uri_example =
    file_uri_to_path-path_to_file_uri a_fmu a_fmu-AreBytes fits six_trailing

abbrev every : Bytes → Bool
every path = true

-- The state is the number of imports, and the model is its path.
abbrev import_file : Bytes → Method ℕ Bytes
import_file path n = (ok path, suc n)

-- A proxy that finds nothing
abbrev absent : SubResolver ℕ Bytes
absent = make_sub_resolver (λ u. pure none)

lookup_model-path_to_file_uri_example :
    (u : Uri) × (path_to_file_uri (b'/' ∷ a_fmu) ≡ ok u)
    × ◌≡◌ {A = Outcome Bytes × ℕ}
        (lookup_model u (default_model_uri_resolver every import_file (some absent)) 0)
        (ok (b'/' ∷ a_fmu), 1)
lookup_model-path_to_file_uri_example =
    lookup_model-path_to_file_uri every import_file (some absent) a_fmu 0 a_fmu-AreBytes fits
      six_trailing refl

-- file:/a.fmu
abbrev bare : Uri
bare = record {
  text = b'f' ∷ b'i' ∷ b'l' ∷ b'e' ∷ b':' ∷ b'/' ∷ a_fmu;
  scheme = some (record { offset = 0; size = 4 });
  authority = none;
  path = record { offset = 5; size = 6 };
  query = none;
  fragment = none;
}

lookup_model-no_authority_example :
    ◌≡◌ {A = Outcome Bytes × ℕ}
      (lookup_model bare (default_model_uri_resolver every import_file (some absent)) 0)
      (err invalid_argument, 0)
lookup_model-no_authority_example =
    lookup_model-no_authority every import_file (some absent) bare 0 refl refl

-- ===== src/Uri/File/RoundTrip.antt =====
-- From a path to its URI and back.
use libcosim.Base.{
  ℕ, ◌/◌, ◌%◌, ◌<◌, Bool, true, ◌&&◌, [], ◌∷◌, none, some, ◌≡◌, ◌≢◌, refl, ap, ◌∙◌, if◌then◌else◌,
  arith, Bool-cases, inl, inr, length,
}
use libcosim.Base.Outcome.{Outcome, ok, invalid_argument, guard, ◌>>◌}
use libcosim.Uri.Chars.{
  Bytes, is_path_char, is_unreserved, is_in_cstring, all_chars_satisfy, is_scheme_char,
}
use libcosim.Uri.Defs.{Components, components, Uri}
use libcosim.Uri.Grammar.{IsWellFormed}
use libcosim.Uri.Compose.{compose_lem, compose-parse}
use libcosim.Uri.Percent.{
  size_mod, percent_encode, percent_decode, percent_encode_uri, encode_components, hex_digit,
  is_plain,
}
use libcosim.Uri.Percent.RoundTrip.{trailing, AreBytes, percent_decode-percent_encode}
use libcosim.Uri.File.{
  file_scheme, equal_bytes, is_local, is_some_with, path_to_file_uri, file_uri_to_path,
}

-- The exceptions that percent_encode_uri makes in paths
abbrev pub path_exceptions : Bytes
path_exceptions = b'/' ∷ b'+' ∷ []

is_plain-is_path_char : (c : ℕ) → is_plain path_exceptions c ≡ true → is_path_char c ≡ true
unfolding is_plain is_path_char is_unreserved is_in_cstring
is_plain-is_path_char c h = ground arith

hex_digit-is_path_char : (n : ℕ) → is_path_char (hex_digit n) ≡ true
unfolding is_path_char hex_digit
hex_digit-is_path_char n = ground arith

percent_encode-are_path_chars :
    (p : Bytes) → all_chars_satisfy is_path_char (percent_encode path_exceptions p) ≡ true
unfolding percent_encode all_chars_satisfy is_path_char
percent_encode-are_path_chars [] = refl
percent_encode-are_path_chars (c ∷ p) = elim (Bool-cases (is_plain path_exceptions c)) [
  | inl h ↦
      ap
        (λ b. all_chars_satisfy is_path_char (
          if b
          then c ∷ percent_encode path_exceptions p
          else b'%' ∷ hex_digit (c / 16) ∷ hex_digit (c % 16) ∷ percent_encode path_exceptions p))
        h
      ∙ and_both (is_plain-is_path_char c h) (percent_encode-are_path_chars p)
  | inr h ↦
      ap
        (λ b. all_chars_satisfy is_path_char (
          if b
          then c ∷ percent_encode path_exceptions p
          else b'%' ∷ hex_digit (c / 16) ∷ hex_digit (c % 16) ∷ percent_encode path_exceptions p))
        h
      ∙ and_both (hex_digit-is_path_char (c / 16))
          (and_both (hex_digit-is_path_char (c % 16)) (percent_encode-are_path_chars p))
]
  where
    and_both : {a b : Bool} → a ≡ true → b ≡ true → (a && b) ≡ true
    and_both e f = cc

abbrev pub file_components : Bytes → Components
file_components p = record {
  scheme = some file_scheme;
  authority = some [];
  path = b'/' ∷ p;
  query = none;
  fragment = none;
}

encode-IsWellFormed : (p : Bytes) → IsWellFormed (encode_components (file_components p))
unfolding percent_encode all_chars_satisfy is_scheme_char is_plain is_unreserved is_in_cstring
encode-IsWellFormed p = record {
  scheme_fits = refl;
  authority_valid = refl;
  path_fits = refl;
  path_valid = percent_encode-are_path_chars (b'/' ∷ p);
  query_valid = refl;
}

-- Take an absolute path whose encoding is shorter than 2^64 and does not end in exactly two
-- characters behind its last escape, or without one. path_to_file_uri makes a URI of it, and
-- file_uri_to_path gives the path back from that.
pub file_uri_to_path-path_to_file_uri :
    (p : Bytes)
    → AreBytes p
    → length (percent_encode path_exceptions (b'/' ∷ p)) < size_mod
    → trailing path_exceptions 0 (b'/' ∷ p) ≢ 2
    → (u : Uri) × (path_to_file_uri (b'/' ∷ p) ≡ ok u) × (file_uri_to_path u ≡ ok (b'/' ∷ p))
unfolding path_to_file_uri percent_encode_uri file_uri_to_path equal_bytes is_local percent_encode
    is_plain is_unreserved is_in_cstring
file_uri_to_path-path_to_file_uri p bytes fits ne =
    let (u, w, made, read, same) =
      compose-parse (encode_components (file_components p)) (encode-IsWellFormed p) in
    (u, made, to_path u (compose_lem (encode_components (file_components p)) made).0)
  where
    path_of : Components → Outcome Bytes
    path_of c =
        guard (is_some_with (λ s. equal_bytes s file_scheme) c.scheme) invalid_argument
        >> (guard (is_some_with is_local c.authority) invalid_argument >> percent_decode c.path)

    to_path :
        (u : Uri)
        → components u ≡ encode_components (file_components p)
        → file_uri_to_path u ≡ ok (b'/' ∷ p)
    to_path u e =
        ap path_of e
        ∙ percent_decode-percent_encode path_exceptions (b'/' ∷ p) refl (omega arith, bytes) fits ne

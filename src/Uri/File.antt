-- ===== src/Uri/File.antt =====
-- path_to_file_uri() and file_uri_to_path() of uri.cpp, as they are where paths are POSIX paths: a
-- path is its string, and has a root directory if it starts with a slash.
pub mod RoundTrip
use libcosim.Base.{
  ℕ, suc, ◌+◌, ◌/◌, ◌%◌, ◌<◌, Bool, true, false, ◌||◌, ◌&&◌, not, List, [], ◌∷◌, ◌++◌, Option, none,
  some, ◌≡◌, ◌≢◌, refl, sym, ap, ◌∙◌, ◌==◌, if◌then◌else◌, arith, Bool-cases, inl, inr, ltb, leb,
}
use libcosim.Base.Outcome.{Outcome, ok, err, invalid_argument, guard, ◌>>=◌, ◌>>◌}
use libcosim.Uri.Chars.{
  Bytes, is_path_char, is_unreserved, is_in_cstring, all_chars_satisfy, within,
}
use libcosim.Uri.Defs.{Components, components, Uri, parse, compose}
use libcosim.Uri.Percent.{
  percent_encode, percent_decode, percent_encode_uri, encode_components, hex_digit, is_plain,
}

abbrev pub file_scheme : Bytes
file_scheme = b'f' ∷ b'i' ∷ b'l' ∷ b'e' ∷ []

abbrev localhost : Bytes
localhost = b'l' ∷ b'o' ∷ b'c' ∷ b'a' ∷ b'l' ∷ b'h' ∷ b'o' ∷ b's' ∷ b't' ∷ []

unfoldable pub equal_bytes : Bytes → Bytes → Bool
equal_bytes [] [] = true
equal_bytes [] (y ∷ ys) = false
equal_bytes (x ∷ xs) [] = false
equal_bytes (x ∷ xs) (y ∷ ys) = x == y && equal_bytes xs ys

-- `authority.empty() || authority == "localhost"`
unfoldable pub is_local : Bytes → Bool
unfolding equal_bytes
is_local a = equal_bytes a [] || equal_bytes a localhost

abbrev pub is_some_with : (Bytes → Bool) → Option Bytes → Bool
is_some_with p none = false
is_some_with p (some s) = p s

unfoldable pub path_to_file_uri : Bytes → Outcome Uri
path_to_file_uri [] = parse (file_scheme ++ b':' ∷ [])
path_to_file_uri (c ∷ p) =
    guard (c == b'/') invalid_argument
    >> percent_encode_uri (record {
      scheme = some file_scheme;
      authority = some [];
      path = c ∷ p;
      query = none;
      fragment = none;
    })

unfoldable pub file_uri_to_path : Uri → Outcome Bytes
unfolding equal_bytes is_local
file_uri_to_path u = do
  guard (is_some_with (λ s. equal_bytes s file_scheme) (components u).scheme) invalid_argument
  guard (is_some_with is_local (components u).authority) invalid_argument
  percent_decode (components u).path

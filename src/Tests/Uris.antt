-- ===== src/Tests/Uris.antt =====
-- Theorems on uri.cpp at concrete strings.
use libcosim.Base.{◌<◌, false, [], ◌∷◌, some, ◌≡◌, ◌≢◌, refl, arith, length}
use libcosim.Base.Outcome.{ok}
use libcosim.Uri.Chars.{
  Bytes, is_scheme_char, is_authority_char, is_path_char, is_query_char, all_chars_satisfy,
  is_in_cstring, is_unreserved,
}
use libcosim.Uri.Grammar.{recompose, starts_with_colon, IsWellFormed}
use libcosim.Uri.Defs.{
  Uri, Components, components, parse, compose, build, input_checks, consume_scheme, valid_prefix,
  consume_while, consume_authority, consume_path, consume_query, consume_fragment, parse_rest,
}
use libcosim.Uri.Parse.{parse-recompose, parse-EndsByColon, EndsByColon}
use libcosim.Uri.Compose.{compose-parse}
use libcosim.Uri.Query.{compose_unchecked_query}
use libcosim.Uri.Percent.{percent_encode, percent_decode, is_plain, size_mod}
use libcosim.Uri.Percent.RoundTrip.{
  AreBytes, trailing, percent_decode-percent_encode, percent_decode_two,
}
use libcosim.Uri.Resolve.{dot_loop}
use libcosim.Uri.Resolve.Dots.{dot_loop_ends}

-- s://h/p?q#f
abbrev text : Bytes
text = b's' ∷ b':' ∷ b'/' ∷ b'/' ∷ b'h' ∷ b'/' ∷ b'p' ∷ b'?' ∷ b'q' ∷ b'#' ∷ b'f' ∷ []

abbrev parts : Components
parts = record {
  scheme = some (b's' ∷ []);
  authority = some (b'h' ∷ []);
  path = b'/' ∷ b'p' ∷ [];
  query = some (b'q' ∷ []);
  fragment = some (b'f' ∷ []);
}

abbrev parsed : Uri
parsed = record {
  text = text;
  scheme = some (record { offset = 0; size = 1 });
  authority = some (record { offset = 4; size = 1 });
  path = record { offset = 5; size = 2 };
  query = some (record { offset = 8; size = 1 });
  fragment = some (record { offset = 10; size = 1 });
}

parse_text : parse text ≡ ok parsed
unfolding parse consume_scheme valid_prefix consume_while consume_authority consume_path
    consume_query consume_fragment parse_rest is_scheme_char is_authority_char is_path_char
    is_query_char
parse_text = refl

compose-parts : compose parts ≡ ok parsed
unfolding compose build input_checks all_chars_satisfy is_scheme_char is_authority_char is_path_char
    is_query_char
compose-parts = refl

parts-IsWellFormed : IsWellFormed parts
unfolding all_chars_satisfy is_scheme_char is_authority_char is_path_char is_query_char
parts-IsWellFormed = record {
  scheme_fits = refl;
  authority_valid = refl;
  path_fits = refl;
  path_valid = refl;
  query_valid = refl;
}

parse-recompose_example : (recompose (components parsed) ≡ text) × IsWellFormed (components parsed)
parse-recompose_example = parse-recompose text parse_text

compose-parse_example :
    (u : Uri) × (w : Uri) × (compose parts ≡ ok u) × (parse u.text ≡ ok w) × (components w ≡ parts)
compose-parse_example = compose-parse parts parts-IsWellFormed

parse-EndsByColon_example : EndsByColon (starts_with_colon text) (parse text)
parse-EndsByColon_example = parse-EndsByColon text

hash_invalid : all_chars_satisfy is_query_char (b'#' ∷ []) ≡ false
unfolding all_chars_satisfy is_query_char
hash_invalid = refl

compose_unchecked_query_example :
    (v : Uri) × (compose (record parts { query = some (b'#' ∷ []) }) ≡ ok v)
    × ¬ (
        (w : Uri) × (parse v.text ≡ ok w)
        × (components w ≡ record parts { query = some (b'#' ∷ []) }))
compose_unchecked_query_example =
    compose_unchecked_query parts (b'#' ∷ []) compose-parts hash_invalid

-- A space, which is encoded, and then one and two plain characters.
abbrev one_behind : Bytes
one_behind = b' ' ∷ b'a' ∷ []

abbrev two_behind : Bytes
two_behind = b' ' ∷ b'a' ∷ b'b' ∷ []

no_exceptions : is_in_cstring b'%' [] ≡ false
unfolding is_in_cstring
no_exceptions = refl

one-AreBytes : AreBytes one_behind
one-AreBytes = (omega arith, (omega arith, tt))

two-AreBytes : AreBytes two_behind
two-AreBytes = (omega arith, (omega arith, (omega arith, tt)))

one_fits : length (percent_encode [] one_behind) < size_mod
unfolding percent_encode is_plain is_unreserved is_in_cstring
one_fits = omega arith

two_fits : length (percent_encode [] two_behind) < size_mod
unfolding percent_encode is_plain is_unreserved is_in_cstring
two_fits = omega arith

one_trailing : trailing [] 0 one_behind ≢ 2
unfolding is_plain is_unreserved is_in_cstring
one_trailing e = cc

two_trailing : trailing [] 0 two_behind ≡ 2
unfolding is_plain is_unreserved is_in_cstring
two_trailing = refl

percent_decode-percent_encode_example :
    percent_decode (percent_encode [] one_behind) ≡ ok one_behind
percent_decode-percent_encode_example =
    percent_decode-percent_encode [] one_behind no_exceptions one-AreBytes one_fits one_trailing

percent_decode_two_example : percent_decode (percent_encode [] two_behind) ≢ ok two_behind
percent_decode_two_example =
    percent_decode_two [] two_behind no_exceptions two-AreBytes two_fits two_trailing

-- /a/../b
abbrev dotted : Bytes
dotted = b'/' ∷ b'a' ∷ b'/' ∷ b'.' ∷ b'.' ∷ b'/' ∷ b'b' ∷ []

dot_loop_ends_example :
    ((dot_loop 9 dotted []).0 ≡ []) × (dot_loop 9 dotted [] ≡ dot_loop 7 dotted [])
dot_loop_ends_example = dot_loop_ends 9 dotted [] (omega arith)

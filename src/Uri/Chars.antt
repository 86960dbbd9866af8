-- ===== src/Uri/Chars.antt =====
-- The character classes of uri.cpp, over bytes. `std::isalnum` is that of the "C" locale.
use libcosim.Base.{ℕ, Bool, true, false, not, ◌&&◌, ◌||◌, List, [], ◌∷◌, leb, ◌==◌}

abbrev pub Bytes : Type 0
Bytes = List ℕ

abbrev pub within : ℕ → ℕ → ℕ → Bool
within lo hi c = leb lo c && leb c hi

abbrev is_alnum : ℕ → Bool
is_alnum c = within b'A' b'Z' c || within b'a' b'z' c || within b'0' b'9' c

unfoldable pub is_scheme_char : ℕ → Bool
is_scheme_char c = is_alnum c || c == b'+' || c == b'-' || c == b'.'

unfoldable pub is_authority_char : ℕ → Bool
is_authority_char c = not (c == b'/') && not (c == b'?') && not (c == b'#')

unfoldable pub is_path_char : ℕ → Bool
is_path_char c = not (c == b'?') && not (c == b'#')

unfoldable pub is_query_char : ℕ → Bool
is_query_char c = not (c == b'#')

unfoldable pub is_unreserved : ℕ → Bool
is_unreserved c =
    within b'A' b'Z' c
    || within b'a' b'z' c
    || within b'0' b'9' c
    || c == b'-'
    || c == b'_'
    || c == b'.'
    || c == b'~'

-- The characters of a C string; the null pointer is the empty list.
unfoldable pub is_in_cstring : ℕ → Bytes → Bool
is_in_cstring c [] = false
is_in_cstring c (x ∷ s) = x == c || is_in_cstring c s

unfoldable pub all_chars_satisfy : (ℕ → Bool) → Bytes → Bool
all_chars_satisfy p [] = true
all_chars_satisfy p (c ∷ s) = p c && all_chars_satisfy p s

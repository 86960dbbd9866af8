-- ===== src/Uri/Grammar.antt =====
-- RFC 3986 as a description of its own: how components make up a text (section 5.3), and which
-- components a text can have. Nothing here is translated from uri.cpp.
use libcosim.Base.{
  Bool, true, false, ◌&&◌, [], ◌∷◌, ◌++◌, ◌≡◌, Option, none, some, ◌==◌, if◌then◌else◌,
}
use libcosim.Uri.Chars.{
  Bytes, is_scheme_char, is_authority_char, is_path_char, is_query_char, all_chars_satisfy,
}
use libcosim.Uri.Defs.{Components, optional_satisfies}

abbrev pub optional_part : Bytes → Option Bytes → Bytes → Bytes
optional_part before none rest = rest
optional_part before (some s) rest = before ++ (s ++ rest)

abbrev pub with_fragment : Components → Bytes
with_fragment c = optional_part (b'#' ∷ []) c.fragment []

abbrev pub with_query : Components → Bytes
with_query c = optional_part (b'?' ∷ []) c.query (with_fragment c)

abbrev pub with_path : Components → Bytes
with_path c = c.path ++ with_query c

abbrev pub with_authority : Components → Bytes
with_authority c = optional_part (b'/' ∷ b'/' ∷ []) c.authority (with_path c)

abbrev pub scheme_part : Option Bytes → Bytes → Bytes
scheme_part none rest = rest
scheme_part (some s) rest = s ++ (b':' ∷ rest)

abbrev pub recompose : Components → Bytes
recompose c = scheme_part c.scheme (with_authority c)

-- Scheme characters and then a colon: what would be read as a scheme, or as an empty one.
unfoldable pub has_scheme : Bytes → Bool
has_scheme [] = false
has_scheme (c ∷ s) =
    let rest = has_scheme s in if c == b':' then true else (is_scheme_char c && rest)

abbrev pub starts_with_colon : Bytes → Bool
starts_with_colon [] = false
starts_with_colon (c ∷ _) = c == b':'

abbrev pub starts_with_slashes : Bytes → Bool
starts_with_slashes (a ∷ b ∷ _) = a == b'/' && b == b'/'
starts_with_slashes _ = false

abbrev pub is_empty_or_absolute : Bytes → Bool
is_empty_or_absolute [] = true
is_empty_or_absolute (c ∷ _) = c == b'/'

-- A scheme is not empty; where there is none, the text must not look as if there were one.
abbrev pub SchemeFits : Option Bytes → Bytes → Type 0
SchemeFits none rest = has_scheme rest ≡ false
SchemeFits (some []) rest = ⊥
SchemeFits (some (c ∷ s)) rest = all_chars_satisfy is_scheme_char (c ∷ s) ≡ true

-- Behind an authority the path is empty or absolute; without one it does not start with `//`.
abbrev pub PathFits : Option Bytes → Bytes → Type 0
PathFits none p = starts_with_slashes p ≡ false
PathFits (some _) p = is_empty_or_absolute p ≡ true

pub record IsWellFormed (c : Components) : Type 0 where
  pub scheme_fits : SchemeFits c.scheme (with_authority c)
  pub authority_valid : optional_satisfies is_authority_char c.authority ≡ true
  pub path_fits : PathFits c.authority c.path
  pub path_valid : all_chars_satisfy is_path_char c.path ≡ true
  pub query_valid : optional_satisfies is_query_char c.query ≡ true

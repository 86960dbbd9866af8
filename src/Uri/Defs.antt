-- ===== src/Uri/Defs.antt =====
-- Class uri: a string with the subranges of its components, the two constructors, the accessors.
use libcosim.Base.{
  ℕ, suc, ◌+◌, Bool, true, false, not, ◌&&◌, [], ◌∷◌, ◌++◌, Option, none, some, ◌==◌, if◌then◌else◌,
  length, take, drop,
}
use libcosim.Base.Outcome.{Outcome, ok, err, invalid_argument, ◌>>=◌, ◌>>◌, guard}
use libcosim.Uri.Chars.{
  Bytes, is_scheme_char, is_authority_char, is_path_char, is_query_char, all_chars_satisfy,
}

-- `detail::subrange`
pub record Subrange : Type 0 where
  pub offset : ℕ
  pub size : ℕ

pub record Uri : Type 0 where
  pub text : Bytes
  pub scheme : Option Subrange
  pub authority : Option Subrange
  pub path : Subrange
  pub query : Option Subrange
  pub fragment : Option Subrange

-- A `std::string_view` into the uri's own string: where it starts, and what it shows.
pub record View : Type 0 where
  pub start : ℕ
  pub chars : Bytes

abbrev pub remove_prefix : ℕ → View → View
remove_prefix n v = record { start = v.start + n; chars = drop n v.chars }

-- `substr(pos, n)`
abbrev pub substr : ℕ → ℕ → View → View
substr pos n v = record { start = v.start + pos; chars = take n (drop pos v.chars) }

-- The loop `while (pos < input.size() && is_valid_char(input[pos])) ++pos;`, from the front.
unfoldable pub valid_prefix : (ℕ → Bool) → Bytes → ℕ
valid_prefix p [] = 0
valid_prefix p (c ∷ s) = let rest = suc (valid_prefix p s) in if p c then rest else 0

unfoldable pub consume_scheme : View → Outcome (Option View × View)
consume_scheme v =
    let pos = valid_prefix is_scheme_char v.chars in
    elim (drop pos v.chars) [
      | [] ↦ ok (none, v)
      | c ∷ _ ↦
          if not (c == b':')
          then ok (none, v)
          else if pos == 0
          then err invalid_argument
          else ok (some (substr 0 pos v), remove_prefix (pos + 1) v)
    ]

-- The text from `start` on, and what is left behind it.
unfoldable pub consume_while : (ℕ → Bool) → View → ℕ → View × View
consume_while p v start =
    let pos = start + valid_prefix p (drop start v.chars) in
    (substr start (valid_prefix p (drop start v.chars)) v, remove_prefix pos v)

abbrev taken : View × View → Option View × View
taken (a, rest) = (some a, rest)

starts_authority : Bytes → Bool
starts_authority (a ∷ b ∷ _) = a == b'/' && b == b'/'
starts_authority _ = false

unfoldable pub consume_authority : View → Option View × View
unfolding starts_authority
consume_authority v =
    if starts_authority v.chars then taken (consume_while is_authority_char v 2) else (none, v)

unfoldable pub consume_path : View → View × View
consume_path v = consume_while is_path_char v 0

starts_query : Bytes → Bool
starts_query (c ∷ _) = c == b'?'
starts_query [] = false

unfoldable pub consume_query : View → Option View × View
unfolding starts_query
consume_query v =
    if starts_query v.chars then taken (consume_while is_query_char v 1) else (none, v)

-- The first character goes, whatever it is; the source asserts that it is a `#`.
unfoldable pub consume_fragment : View → Option View × View
consume_fragment v = elim v.chars [
  | [] ↦ (none, v)
  | c ∷ s ↦ (some (substr 1 (length s) v), remove_prefix (length v.chars) v)
]

abbrev pub to_subrange : View → Subrange
to_subrange v = record { offset = v.start; size = length v.chars }

abbrev pub to_subrange? : Option View → Option Subrange
to_subrange? none = none
to_subrange? (some v) = some (to_subrange v)

abbrev pub to_substring : Bytes → Subrange → Bytes
to_substring s r = take r.size (drop r.offset s)

abbrev pub to_substring? : Bytes → Option Subrange → Option Bytes
to_substring? s none = none
to_substring? s (some r) = some (to_substring s r)

-- The part of `uri(std::string)` behind the scheme.
unfoldable pub parse_rest : Bytes → Option View × View → Uri
parse_rest s (sch, v) =
    let (auth, v₁) = consume_authority v in
    let (pth, v₂) = consume_path v₁ in
    let (qry, v₃) = consume_query v₂ in
    let (frag, v₄) = consume_fragment v₃ in
    record {
      text = s;
      scheme = to_subrange? sch;
      authority = to_subrange? auth;
      path = to_subrange pth;
      query = to_subrange? qry;
      fragment = to_subrange? frag;
    }

-- `uri(std::string)`
unfoldable pub parse : Bytes → Outcome Uri
parse s = do r ← consume_scheme (record { start = 0; chars = s }); ok (parse_rest s r)

-- The accessors' results, and the arguments of the other constructor.
pub record Components : Type 0 where
  pub scheme : Option Bytes
  pub authority : Option Bytes
  pub path : Bytes
  pub query : Option Bytes
  pub fragment : Option Bytes

-- `scheme()`, `authority()`, `path()`, `query()` and `fragment()`
abbrev pub components : Uri → Components
components u = record {
  scheme = to_substring? u.text u.scheme;
  authority = to_substring? u.text u.authority;
  path = to_substring u.text u.path;
  query = to_substring? u.text u.query;
  fragment = to_substring? u.text u.fragment;
}

-- `!string || all_chars_satisfy(p, *string)`
abbrev pub optional_satisfies : (ℕ → Bool) → Option Bytes → Bool
optional_satisfies p none = true
optional_satisfies p (some s) = all_chars_satisfy p s

unfoldable pub is_scheme : Option Bytes → Bool
is_scheme none = true
is_scheme (some []) = false
is_scheme (some (c ∷ s)) = all_chars_satisfy is_scheme_char (c ∷ s)

-- `!authority || path.empty() || path.front() == '/'`
unfoldable pub path_fits : Option Bytes → Bytes → Bool
path_fits (some _) (c ∷ _) = c == b'/'
path_fits _ _ = true

-- The check on the query looks at the path, as the source does.
unfoldable pub query_check : Option Bytes → Bytes → Bool
query_check none p = true
query_check (some _) p = all_chars_satisfy is_query_char p

-- The five `COSIM_INPUT_CHECK`s.
unfoldable pub input_checks : Components → Outcome (Unit {0})
unfolding is_scheme path_fits query_check
input_checks c = do
  guard (is_scheme c.scheme) invalid_argument
  guard (optional_satisfies is_authority_char c.authority) invalid_argument
  guard (path_fits c.authority c.path) invalid_argument
  guard (all_chars_satisfy is_path_char c.path) invalid_argument
  guard (query_check c.query c.path) invalid_argument

-- The string so far, and the offset of `view`, which runs ahead in the reserved buffer.
pub record Buffer : Type 0 where
  pub built : Bytes
  pub at : ℕ

-- One component with what stands before and behind it: its subrange, and the longer buffer.
unfoldable pub add_part : Bytes → Bytes → Bytes → Buffer → Subrange × Buffer
add_part before part behind b = (
  record { offset = b.at + length before; size = length part },
  record {
    built = b.built ++ (before ++ (part ++ behind));
    at = b.at + (length before + (length part + length behind));
  },
)

unfoldable pub add_optional : Bytes → Option Bytes → Bytes → Buffer → Option Subrange × Buffer
unfolding add_part
add_optional before none behind b = (none, b)
add_optional before (some part) behind b =
    let (r, b') = add_part before part behind b in (some r, b')

-- The body of the constructor behind its checks.
unfoldable pub build : Components → Uri
unfolding add_optional add_part
build c =
    let (sch, b₁) = add_optional [] c.scheme (b':' ∷ []) (record { built = []; at = 0 }) in
    let (auth, b₂) = add_optional (b'/' ∷ b'/' ∷ []) c.authority [] b₁ in
    let (pth, b₃) = add_part [] c.path [] b₂ in
    let (qry, b₄) = add_optional (b'?' ∷ []) c.query [] b₃ in
    let (frag, b₅) = add_optional (b'#' ∷ []) c.fragment [] b₄ in
    record {
      text = b₅.built;
      scheme = sch;
      authority = auth;
      path = pth;
      query = qry;
      fragment = frag;
    }

-- `uri(scheme, authority, path, query, fragment)`
unfoldable pub compose : Components → Outcome Uri
compose c = do input_checks c; ok (build c)

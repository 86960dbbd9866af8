-- ===== src/Uri/Resolve.antt =====
-- resolve_reference() of uri.cpp, with merge() and remove_dot_segments().
pub mod Dots
use libcosim.Base.{
  ℕ, zero, suc, ◌+◌, Bool, true, false, ◌&&◌, ◌||◌, [], ◌∷◌, ◌++◌, Option, none, some, ◌==◌,
  if◌then◌else◌, length, take, drop, reverse,
}
use libcosim.Base.Outcome.{Outcome, ok, err, invalid_argument, ◌>>=◌, of_option}
use libcosim.Uri.Chars.{Bytes}
use libcosim.Uri.Defs.{Components, Uri, components, compose}

-- `substr(0, prefix.size()) == prefix`
unfoldable pub starts_with : Bytes → Bytes → Bool
starts_with s [] = true
starts_with [] (p ∷ prefix) = false
starts_with (c ∷ s) (p ∷ prefix) = c == p && starts_with s prefix

unfoldable pub equal : Bytes → Bytes → Bool
equal [] [] = true
equal (x ∷ xs) (y ∷ ys) = x == y && equal xs ys
equal _ _ = false

-- Down to the last slash, with the end of the string in front.
unfoldable pub drop_segment : Bytes → Bytes
drop_segment [] = []
drop_segment (c ∷ s) = let rest = drop_segment s in if c == b'/' then c ∷ s else rest

-- The path up to its last slash, or nothing if it has none (`find_last_of`).
unfoldable pub directory : Bytes → Bytes
directory path = reverse (drop_segment (reverse path))

unfoldable pub merge : Bool → Bytes → Bytes → Bytes
merge true [] reference = b'/' ∷ reference
merge _ base reference = directory base ++ reference

-- `removeLastOutputSegment`, on the buffer with its end in front: the last character goes, then
-- all down to a slash, then the slash.
unfoldable pub pop_segment : Bytes → Bytes
pop_segment [] = []
pop_segment (c ∷ s) = drop 1 (drop_segment s)

unfoldable pub remove_last_segment : Bytes → Bytes
remove_last_segment output = reverse (pop_segment (reverse output))

-- `erase(pos, n)`
abbrev pub erase : ℕ → ℕ → Bytes → Bytes
erase pos n s = take pos s ++ drop (pos + n) s

-- The characters before the first slash.
unfoldable pub until_slash : Bytes → ℕ
until_slash [] = 0
until_slash (c ∷ s) = let more = suc (until_slash s) in if c == b'/' then 0 else more

-- One round of the loop, on the input and the output buffer.
unfoldable pub dot_step : Bytes → Bytes → Bytes × Bytes
dot_step input output =
    if starts_with input (b'.' ∷ b'.' ∷ b'/' ∷ [])
    then (erase 0 3 input, output)
    else if starts_with input (b'.' ∷ b'/' ∷ [])
    then (erase 0 2 input, output)
    else if starts_with input (b'/' ∷ b'.' ∷ b'/' ∷ [])
    then (erase 1 2 input, output)
    else if equal input (b'/' ∷ b'.' ∷ [])
    then (erase 1 1 input, output)
    else if starts_with input (b'/' ∷ b'.' ∷ b'.' ∷ b'/' ∷ [])
    then (erase 1 3 input, remove_last_segment output)
    else if equal input (b'/' ∷ b'.' ∷ b'.' ∷ [])
    then (erase 1 2 input, remove_last_segment output)
    else if equal input (b'.' ∷ []) || equal input (b'.' ∷ b'.' ∷ [])
    then ([], output)
    else let i = suc (until_slash (drop 1 input)) in (drop i input, output ++ take i input)

-- The loop on fuel, which is the length of the input: each round shortens it.
unfoldable pub dot_loop : ℕ → Bytes → Bytes → Bytes × Bytes
dot_loop fuel [] output = ([], output)
dot_loop zero (c ∷ input) output = (c ∷ input, output)
dot_loop (suc fuel) (c ∷ input) output =
    let (input', output') = dot_step (c ∷ input) output in dot_loop fuel input' output'

unfoldable pub remove_dot_segments : Bytes → Bytes
remove_dot_segments path = (dot_loop (length path) path []).1

-- Path and query of the target where the reference has neither scheme nor authority.
abbrev pub relative_path : Components → Components → Bytes
relative_path base r = elim r.path [
  | [] ↦ base.path
  | c ∷ path ↦
      if c == b'/'
      then remove_dot_segments (c ∷ path)
      else remove_dot_segments (merge (is_some base.authority) base.path (c ∷ path))
]
  where
    is_some : Option Bytes → Bool
    is_some none = false
    is_some (some a) = true

abbrev pub relative_query : Components → Components → Option Bytes
relative_query base r = elim r.path [
  | [] ↦ elim r.query [ some q ↦ some q | none ↦ base.query ]
  | c ∷ path ↦ r.query
]

-- The components of the target, by the branches of RFC 3986, section 5.2.2.
unfoldable pub target : Components → Components → Components
target base r = elim r.scheme [
  | some s ↦ record r { path = remove_dot_segments r.path }
  | none ↦ elim r.authority [
    | some a ↦ record r { scheme = base.scheme; path = remove_dot_segments r.path }
    | none ↦ record {
      scheme = base.scheme;
      authority = base.authority;
      path = relative_path base r;
      query = relative_query base r;
      fragment = r.fragment;
    }
  ]
]

unfoldable pub resolve_reference : Uri → Uri → Outcome Uri
unfolding target
resolve_reference base reference = do
  scheme ← of_option invalid_argument (components base).scheme
  compose (target (components base) (components reference))

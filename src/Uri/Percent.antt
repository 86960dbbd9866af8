-- ===== src/Uri/Percent.antt =====
-- percent_encode(), percent_decode() and percent_encode_uri() of uri.cpp. `std::size_t` has 64
-- bits, and `npos` is its greatest value.
mod Steps
pub mod RoundTrip
use libcosim.Base.{
  ℕ, zero, suc, ◌+◌, ◌-◌, ◌*◌, ◌/◌, ◌%◌, ◌^◌, Bool, ◌||◌, ◌&&◌, [], ◌∷◌, ◌++◌, Option, none, some,
  ltb, leb, ◌==◌, if◌then◌else◌, length, take, drop, get_elem?,
}
use libcosim.Base.Outcome.{Outcome, ok, err, domain_error, undefined, ◌>>=◌, ◌>>◌, guard, of_option}
use libcosim.Uri.Chars.{Bytes, within, is_unreserved, is_in_cstring}
use libcosim.Uri.Defs.{Components, Uri, compose}

abbrev pub size_mod : ℕ
size_mod = 2 ^ 64

abbrev pub npos : ℕ
npos = 2 ^ 64 - 1

-- A digit as `std::hex << std::uppercase` writes it.
unfoldable pub hex_digit : ℕ → ℕ
hex_digit n = if ltb n 10 then b'0' + n else b'A' + (n - 10)

unfoldable pub is_plain : Bytes → ℕ → Bool
is_plain exceptions c = is_unreserved c || is_in_cstring c exceptions

unfoldable pub percent_encode : Bytes → Bytes → Bytes
percent_encode exceptions [] = []
percent_encode exceptions (c ∷ s) =
    let rest = percent_encode exceptions s in
    if is_plain exceptions c
    then c ∷ rest
    else b'%' ∷ hex_digit (c / 16) ∷ hex_digit (c % 16) ∷ rest

unfoldable pub hex_to_int : ℕ → Outcome ℕ
hex_to_int c =
    if within b'0' b'9' c
    then ok (c - b'0')
    else if within b'A' b'F' c
    then ok (c + 10 - b'A')
    else if within b'a' b'f' c
    then ok (c + 10 - b'a')
    else err domain_error

-- `find('%')`, from position `i` on
unfoldable pub find_percent : ℕ → Bytes → ℕ
find_percent i [] = npos
find_percent i (c ∷ s) = let rest = find_percent (suc i) s in if c == b'%' then i else rest

-- `hex_to_int(encoded[i])`
unfoldable pub hex_at : Bytes → ℕ → Outcome ℕ
hex_at s i = do c ← of_option undefined (get_elem? s i); hex_to_int c

-- One round of the loop: what is appended to `decoded`, and what is left of `encoded`.
unfoldable pub decode_step : Bytes → Outcome (Bytes × Bytes)
decode_step s =
    let i = find_percent 0 s in
    let rest = (i + 3) % size_mod in
    if ltb ((length s + size_mod - 3) % size_mod) i then ok (s, []) else do
      high ← hex_at s ((i + 1) % size_mod)
      low ← hex_at s ((i + 2) % size_mod)
      guard (leb rest (length s)) undefined
      ok (take i s ++ (high * 16 + low) ∷ [], drop rest s)

-- The loop on fuel, which is the length of `encoded`: each round shortens it.
unfoldable pub decode_loop : ℕ → Bytes → Bytes → Outcome Bytes
decode_loop fuel [] decoded = ok decoded
decode_loop zero (c ∷ s) decoded = ok decoded
decode_loop (suc fuel) (c ∷ s) decoded = do
  (more, rest) ← decode_step (c ∷ s)
  decode_loop fuel rest (decoded ++ more)

unfoldable pub percent_decode : Bytes → Outcome Bytes
percent_decode s = decode_loop (length s) s []

abbrev encode_optional : Bytes → Option Bytes → Option Bytes
encode_optional exceptions none = none
encode_optional exceptions (some s) = some (percent_encode exceptions s)

abbrev pub encode_components : Components → Components
encode_components c = record {
  scheme = encode_optional (b'+' ∷ []) c.scheme;
  authority = encode_optional (b'@' ∷ b':' ∷ b'+' ∷ []) c.authority;
  path = percent_encode (b'/' ∷ b'+' ∷ []) c.path;
  query = encode_optional (b'=' ∷ b'&' ∷ b';' ∷ b'/' ∷ b':' ∷ b'+' ∷ []) c.query;
  fragment = encode_optional [] c.fragment;
}

unfoldable pub percent_encode_uri : Components → Outcome Uri
percent_encode_uri c = compose (encode_components c)

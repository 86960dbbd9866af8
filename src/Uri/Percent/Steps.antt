-- ===== src/Uri/Percent/Steps.antt =====
-- One round of the decoding loop, on an escape behind plain text and on plain text alone.
use libcosim.Base.{
  ℕ, suc, ◌+◌, ◌-◌, ◌*◌, ◌/◌, ◌%◌, ◌<◌, true, false, [], ◌∷◌, ◌++◌, some, ltb, leb, length, take,
  drop, get_elem?, arith, ◌≡◌, ◌≢◌, refl, ap, ◌∙◌, length-append,
}
use libcosim.Base.Outcome.{ok}
use libcosim.Uri.Chars.{Bytes}
use libcosim.Uri.Views.{take-length-append}
use libcosim.Uri.Percent.{size_mod, npos, hex_digit, hex_to_int, find_percent, hex_at, decode_step}

abbrev pub NoPercent : Bytes → Type 0
NoPercent [] = Unit {0}
NoPercent (c ∷ s) = (c ≢ b'%') × NoPercent s

pub NoPercent-append : (xs ys : Bytes) → NoPercent xs → NoPercent ys → NoPercent (xs ++ ys)
NoPercent-append [] ys h k = k
NoPercent-append (x ∷ xs) ys h k = (h.0, NoPercent-append xs ys h.1 k)

pub hex_to_int-hex_digit : (n : ℕ) → n < 16 → hex_to_int (hex_digit n) ≡ ok n
unfolding hex_to_int hex_digit
hex_to_int-hex_digit n h = ground arith

find_percent-append :
    (xs t : Bytes) (i : ℕ) → NoPercent xs → find_percent i (xs ++ b'%' ∷ t) ≡ i + length xs
unfolding find_percent
find_percent-append [] t i h = omega arith
find_percent-append (x ∷ xs) t i h = ground (arith, h.0, find_percent-append xs t (suc i) h.1)

pub find_percent_none : (xs : Bytes) (i : ℕ) → NoPercent xs → find_percent i xs ≡ npos
unfolding find_percent
find_percent_none [] i h = refl
find_percent_none (x ∷ xs) i h = ground (arith, h.0, find_percent_none xs (suc i) h.1)

get_elem?-append : (xs ys : Bytes) (k : ℕ) → get_elem? (xs ++ ys) (length xs + k) ≡ get_elem? ys k
get_elem?-append [] ys k = ap (get_elem? ys) (omega arith)
get_elem?-append (x ∷ xs) ys k =
    ap (get_elem? (x ∷ (xs ++ ys))) {y = suc (length xs + k)} (omega arith)
    ∙ get_elem?-append xs ys k

drop-append : (xs ys : Bytes) (k : ℕ) → drop (length xs + k) (xs ++ ys) ≡ drop k ys
drop-append [] ys k = ap (λ n. drop n ys) (omega arith)
drop-append (x ∷ xs) ys k =
    ap (λ n. drop n (x ∷ (xs ++ ys))) {y = suc (length xs + k)} (omega arith) ∙ drop-append xs ys k

hex_at-digit :
    (s : Bytes) (i j n : ℕ)
    → i ≡ j
    → get_elem? s j ≡ some (hex_digit n)
    → n < 16
    → hex_at s i ≡ ok n
unfolding hex_at
hex_at-digit s i j n e g h = rw (e, g) (hex_to_int-hex_digit n h)

abbrev pub escape_text : Bytes → Bytes → ℕ → Bytes
escape_text xs t c = xs ++ b'%' ∷ hex_digit (c / 16) ∷ hex_digit (c % 16) ∷ t

-- An escape behind plain text is decoded.
module _ (xs t : Bytes) (c : ℕ) (h : NoPercent xs) (small : c < 256) where
  pub decode_step_escape :
      length (escape_text xs t c) < size_mod
      → decode_step (escape_text xs t c) ≡ ok (xs ++ c ∷ [], t)
  unfolding decode_step
  decode_step_escape bound =
      rw (find_percent-append xs (hex_digit (c / 16) ∷ hex_digit (c % 16) ∷ t) 0 h)
        (rw test (rw (first, second, fits, start, rest, value)))
    where
      n : ℕ
      n = length xs

      size : length (escape_text xs t c) ≡ n + (3 + length t)
      size = length-append xs (b'%' ∷ hex_digit (c / 16) ∷ hex_digit (c % 16) ∷ t) ∙ omega arith

      test : ltb ((length (escape_text xs t c) + size_mod - 3) % size_mod) (0 + n) ≡ false
      test = ground (arith, size)

      first : hex_at (escape_text xs t c) ((0 + n + 1) % size_mod) ≡ ok (c / 16)
      first =
          hex_at-digit (escape_text xs t c) _ (n + 1) (c / 16) (omega (arith, size))
            (get_elem?-append xs _ 1) (omega arith)

      second : hex_at (escape_text xs t c) ((0 + n + 2) % size_mod) ≡ ok (c % 16)
      second =
          hex_at-digit (escape_text xs t c) _ (n + 2) (c % 16) (omega (arith, size))
            (get_elem?-append xs _ 2) (omega arith)

      fits : leb ((0 + n + 3) % size_mod) (length (escape_text xs t c)) ≡ true
      fits = ground (arith, size)

      start : take (0 + n) (escape_text xs t c) ≡ xs
      start = ap (λ k. take k (escape_text xs t c)) {y = n} (omega arith) ∙ take-length-append xs _

      rest : drop ((0 + n + 3) % size_mod) (escape_text xs t c) ≡ t
      rest =
          ap (λ k. drop k (escape_text xs t c)) {y = n + 3} (omega (arith, size))
          ∙ drop-append xs _ 3

      value : c / 16 * 16 + c % 16 ≡ c
      value = omega arith

-- Text without an escape is taken whole, unless it has two characters.
pub decode_step_plain :
    (xs : Bytes)
    → NoPercent xs
    → length xs < size_mod
    → 0 < length xs
    → length xs ≢ 2
    → decode_step xs ≡ ok (xs, [])
unfolding decode_step
decode_step_plain xs h bound pos ne = rw (find_percent_none xs 0 h) (rw test)
  where
    test : ltb ((length xs + size_mod - 3) % size_mod) npos ≡ true
    test = ground arith

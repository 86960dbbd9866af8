-- ===== src/Uri/Percent/RoundTrip.antt =====
-- Decoding after encoding. The exact inputs that come back: `encoded.size() - 3` wraps around when
-- two characters are left, and the loop then reads them as an escape.
use mathlib.Core.Path.{ap₂}
use mathlib.Core.List.{append-nil, append_assoc}
use libcosim.Base.{
  ℕ, zero, suc, ◌+◌, ◌-◌, ◌*◌, ◌<◌, ◌≤◌, true, false, [], ◌∷◌, ◌++◌, if◌then◌else◌, length, arith,
  ◌≡◌, ◌≢◌, refl, sym, ap, ◌∙◌, inl, inr, Bool-cases, length-append,
}
use libcosim.Base.Outcome.{Outcome, Failure, ok, err, ◌>>=◌}
use libcosim.Uri.Chars.{Bytes, is_unreserved, is_in_cstring}
use libcosim.Uri.Unique.{clash}
use libcosim.Uri.Percent.Steps.{
  NoPercent, NoPercent-append, find_percent_none, escape_text, decode_step_escape,
  decode_step_plain,
}
use libcosim.Uri.Percent.{
  size_mod, is_plain, percent_encode, hex_to_int, hex_at, decode_step, decode_loop, percent_decode,
}

-- How many characters follow the last one that is encoded, `n` of them read already.
abbrev pub trailing : Bytes → ℕ → Bytes → ℕ
trailing exceptions n [] = n
trailing exceptions n (c ∷ s) = trailing exceptions (if is_plain exceptions c then n + 1 else 0) s

abbrev pub AreBytes : Bytes → Type 0
AreBytes [] = Unit {0}
AreBytes (c ∷ s) = (c < 256) × AreBytes s

-- The rounds of the loop over encoded text, down to the plain text behind the last escape.
record Reduced (exceptions : Bytes) (fuel : ℕ) (pre s decoded : Bytes) : Type 0 where
  left : Bytes
  fuel' : ℕ
  decoded' : Bytes
  same :
      decode_loop fuel (pre ++ percent_encode exceptions s) decoded
      ≡ decode_loop fuel' left decoded'
  splits : decoded ++ (pre ++ s) ≡ decoded' ++ left
  plain : NoPercent left
  size : length left ≡ trailing exceptions (length pre) s
  bound : length left < size_mod
  enough : length left ≤ fuel'

decode_loop_ne :
    (fuel : ℕ) (s decoded : Bytes) {more rest : Bytes}
    → 0 < length s
    → decode_step s ≡ ok (more, rest)
    → decode_loop (suc fuel) s decoded ≡ decode_loop fuel rest (decoded ++ more)
unfolding decode_loop
decode_loop_ne fuel [] decoded ne e = absurd (omega arith)
decode_loop_ne fuel (c ∷ s) decoded ne e = rw e

module _ (exceptions : Bytes) (no_percent : is_in_cstring b'%' exceptions ≡ false) where
  percent-unplain : (c : ℕ) → c ≡ b'%' → is_plain exceptions c ≡ true → ⊥
  unfolding is_plain is_unreserved
  percent-unplain c e h = clash (sym (ap (is_in_cstring b'%') refl ∙ no_percent) ∙ (rw e at h))

  plain-ne-percent : (c : ℕ) → is_plain exceptions c ≡ true → c ≢ b'%'
  plain-ne-percent c h e = percent-unplain c e h

  encode_plain :
      (c : ℕ) (s pre : Bytes)
      → is_plain exceptions c ≡ true
      → pre ++ percent_encode exceptions (c ∷ s) ≡ (pre ++ c ∷ []) ++ percent_encode exceptions s
  unfolding percent_encode
  encode_plain c s pre h = rw h (sym (append_assoc pre (c ∷ []) (percent_encode exceptions s)))

  encode_escape :
      (c : ℕ) (s pre : Bytes)
      → is_plain exceptions c ≡ false
      → pre ++ percent_encode exceptions (c ∷ s) ≡ escape_text pre (percent_encode exceptions s) c
  unfolding percent_encode
  encode_escape c s pre h = rw h

  module _ (c : ℕ) (s pre decoded : Bytes) (fuel : ℕ) where
    plain_round :
        is_plain exceptions c ≡ true
        → Reduced exceptions fuel (pre ++ c ∷ []) s decoded
        → Reduced exceptions fuel pre (c ∷ s) decoded
    plain_round e r = record {
      left = r.left;
      fuel' = r.fuel';
      decoded' = r.decoded';
      same = ap (λ x. decode_loop fuel x decoded) (encode_plain c s pre e) ∙ r.same;
      splits = ap (◌++◌ decoded) (sym (append_assoc pre (c ∷ []) s)) ∙ r.splits;
      plain = r.plain;
      size = r.size ∙ rw e (ap (λ n. trailing exceptions n s) (length-append pre (c ∷ [])));
      bound = r.bound;
      enough = r.enough;
    }

    escape_round :
        is_plain exceptions c ≡ false
        → NoPercent pre
        → c < 256
        → length (pre ++ percent_encode exceptions (c ∷ s)) < size_mod
        → 0 < fuel
        → Reduced exceptions (fuel - 1) [] s (decoded ++ (pre ++ c ∷ []))
        → Reduced exceptions fuel pre (c ∷ s) decoded
    escape_round e h small bound pos r = record {
      left = r.left;
      fuel' = r.fuel';
      decoded' = r.decoded';
      same =
          ap₂ (λ n x. decode_loop n x decoded) more_fuel text
          ∙ decode_loop_ne (fuel - 1) (escape_text pre (percent_encode exceptions s) c) decoded
              (omega
                (arith, length-append {0} pre (escape_text [] (percent_encode exceptions s) c)))
              (decode_step_escape pre (percent_encode exceptions s) c h small (rw text at bound))
          ∙ r.same;
      splits =
          ap (◌++◌ decoded) (sym (append_assoc pre (c ∷ []) s))
          ∙ sym (append_assoc decoded (pre ++ c ∷ []) s)
          ∙ r.splits;
      plain = r.plain;
      size = r.size ∙ rw e;
      bound = r.bound;
      enough = r.enough;
    }
      where
        more_fuel : fuel ≡ suc (fuel - 1)
        more_fuel = omega (arith, pos)

        text :
            pre ++ percent_encode exceptions (c ∷ s)
            ≡ escape_text pre (percent_encode exceptions s) c
        text = encode_escape c s pre e

  length_escape :
      (c : ℕ) (s pre : Bytes)
      → is_plain exceptions c ≡ false
      → length (pre ++ percent_encode exceptions (c ∷ s))
        ≡ length pre + (3 + length (percent_encode exceptions s))
  length_escape c s pre e =
      ap length (encode_escape c s pre e)
      ∙ length-append pre (escape_text [] (percent_encode exceptions s) c)
      ∙ omega arith

  encoded-Reduced :
      (s pre decoded : Bytes) (fuel : ℕ)
      → NoPercent pre
      → AreBytes s
      → length (pre ++ percent_encode exceptions s) < size_mod
      → length (pre ++ percent_encode exceptions s) ≤ fuel
      → Reduced exceptions fuel pre s decoded
  unfolding percent_encode
  encoded-Reduced [] pre decoded fuel h b bound enough = record {
    left = pre;
    fuel' = fuel;
    decoded' = decoded;
    same = rw append-nil;
    splits = rw append-nil;
    plain = h;
    size = refl;
    bound = rw append-nil at bound;
    enough = rw append-nil at enough;
  }
  encoded-Reduced (c ∷ s) pre decoded fuel h b bound enough =
      elim (Bool-cases (is_plain exceptions c)) [
        | inl e ↦ plain_round c s pre decoded fuel e (
            encoded-Reduced s (pre ++ c ∷ []) decoded fuel
              (NoPercent-append pre (c ∷ []) h (plain-ne-percent c e, tt)) b.1
              (rw (encode_plain c s pre e) at bound) (rw (encode_plain c s pre e) at enough))
        | inr e ↦
            let size = length_escape c s pre e in
            escape_round c s pre decoded fuel e h b.0 bound (omega (arith, size)) (
              encoded-Reduced s [] (decoded ++ (pre ++ c ∷ [])) (fuel - 1) tt b.1
                (omega (arith, size)) (omega (arith, size)))
      ]

decode_loop_nil : (f : ℕ) (decoded : Bytes) → decode_loop f [] decoded ≡ ok decoded
unfolding decode_loop
decode_loop_nil zero decoded = refl
decode_loop_nil (suc f) decoded = refl

decode_loop_last :
    (fuel : ℕ) (s decoded : Bytes)
    → NoPercent s
    → length s < size_mod
    → length s ≤ fuel
    → length s ≢ 2
    → decode_loop fuel s decoded ≡ ok (decoded ++ s)
unfolding decode_loop
decode_loop_last zero [] decoded h b en ne = rw append-nil
decode_loop_last (suc f) [] decoded h b en ne = rw append-nil
decode_loop_last zero (c ∷ s) decoded h b en ne = absurd (omega arith)
decode_loop_last (suc f) (c ∷ s) decoded h b en ne =
    rw (decode_step_plain (c ∷ s) h b (omega arith) ne) (decode_loop_nil f (decoded ++ c ∷ s))

bytes_cancel : {u w : Bytes} → ok u ≡ ok w → u ≡ w
bytes_cancel e = cc

-- Two characters left: `encoded.size() - 3` is `npos`, and the loop reads the two as an escape.
decode_step_two :
    (a b : ℕ)
    → NoPercent (a ∷ b ∷ [])
    → decode_step (a ∷ b ∷ [])
      ≡ (hex_to_int a >>= λ high. hex_to_int b >>= λ low. ok (a ∷ b ∷ (high * 16 + low) ∷ [], []))
unfolding decode_step hex_at
decode_step_two a b h = rw (find_percent_none (a ∷ b ∷ []) 0 h)

append_longer : (xs ys : Bytes) (c : ℕ) → xs ++ (ys ++ c ∷ []) ≢ xs ++ ys
append_longer xs ys c e = absurd (
    omega (
      arith,
      ap length e,
      length-append {0} xs (ys ++ c ∷ []),
      length-append {0} xs ys,
      length-append {0} ys (c ∷ []),
    ))

ok-ne-err : {u : Bytes} {x : Failure} → ok u ≢ err x
ok-ne-err e = cc

decode_loop_err :
    (f a b : ℕ) (decoded : Bytes) {x : Failure}
    → decode_step (a ∷ b ∷ []) ≡ err x
    → decode_loop (suc f) (a ∷ b ∷ []) decoded ≡ err x
unfolding decode_loop
decode_loop_err f a b decoded e = rw e

two_left :
    (left : Bytes) (fuel : ℕ) (decoded : Bytes)
    → NoPercent left
    → length left ≡ 2
    → length left ≤ fuel
    → decode_loop fuel left decoded ≢ ok (decoded ++ left)
two_left [] fuel decoded h l le e = absurd (omega arith)
two_left (a ∷ []) fuel decoded h l le e = absurd (omega arith)
two_left (a ∷ b ∷ c ∷ s) fuel decoded h l le e = absurd (omega arith)
two_left (a ∷ b ∷ []) zero decoded h l le e = absurd (omega arith)
two_left (a ∷ b ∷ []) (suc f) decoded h l le e = go (hex_to_int a) (hex_to_int b) refl refl
  where
    go : (m n : Outcome ℕ) → hex_to_int a ≡ m → hex_to_int b ≡ n → ⊥
    go (err x) n p q =
        ok-ne-err {x = x} (sym e ∙ decode_loop_err f a b decoded (decode_step_two a b h ∙ rw p))
    go (ok x) (err y) p q =
        ok-ne-err {x = y}
          (sym e ∙ decode_loop_err f a b decoded (decode_step_two a b h ∙ rw (p, q)))
    go (ok x) (ok y) p q = append_longer decoded (a ∷ b ∷ []) (x * 16 + y) (
        bytes_cancel (
          sym (decode_loop_nil f _)
          ∙ sym (
              decode_loop_ne f (a ∷ b ∷ []) decoded (omega arith)
                (decode_step_two a b h ∙ rw (p, q)))
          ∙ e))

module _ (exceptions s : Bytes) (no_percent : is_in_cstring b'%' exceptions ≡ false)
    (bytes : AreBytes s) (fits : length (percent_encode exceptions s) < size_mod) where
  whole : Reduced exceptions (length (percent_encode exceptions s)) [] s []
  whole =
      encoded-Reduced exceptions no_percent s [] [] (length (percent_encode exceptions s)) tt bytes
        fits (omega arith)

  -- If `%` is no exception, decoding gives back every string of bytes whose encoding is shorter than
  -- 2^64, unless exactly two characters follow the last encoded one (or make up a string with none).
  pub percent_decode-percent_encode :
      trailing exceptions 0 s ≢ 2 → percent_decode (percent_encode exceptions s) ≡ ok s
  unfolding percent_decode
  percent_decode-percent_encode ne =
      whole.same
      ∙ decode_loop_last whole.fuel' whole.left whole.decoded' whole.plain whole.bound whole.enough
          (λ e. ne (sym whole.size ∙ e))
      ∙ ap ok (sym whole.splits)

  -- If `%` is no exception, decoding does not give back a string of bytes, with an encoding shorter
  -- than 2^64, in which exactly two characters follow the last encoded one (or make up a string with
  -- none).
  pub percent_decode_two :
      trailing exceptions 0 s ≡ 2 → percent_decode (percent_encode exceptions s) ≢ ok s
  unfolding percent_decode
  percent_decode_two two e =
      two_left whole.left whole.fuel' whole.decoded' whole.plain (whole.size ∙ two) whole.enough
        (sym whole.same ∙ e ∙ ap ok whole.splits)

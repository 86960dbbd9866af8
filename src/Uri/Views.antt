-- ===== src/Uri/Views.antt =====
-- Views into a string: what they show is what the subranges made of them select.
use Prim.Native.Nat.add
use libcosim.Base.{
  ℕ, zero, suc, ◌+◌, Bool, true, false, inl, inr, Bool-cases, ◌≡◌, refl, ap, ◌∙◌, [], ◌∷◌, ◌++◌,
  List, arith, length, take, drop,
}
use libcosim.Uri.Chars.{Bytes, all_chars_satisfy}
use libcosim.Uri.Defs.{View, remove_prefix, substr, to_subrange, to_substring, valid_prefix}

module _ {ℓ} {A : Type ℓ} where
  pub drop-add : (n k : ℕ) (xs : List A) → drop (n + k) xs ≡ drop k (drop n xs)
  drop-add zero k xs = rw (add.zero k)
  drop-add (suc n) zero [] = rw (add.suc n zero)
  drop-add (suc n) (suc k) [] = rw (add.suc n (suc k))
  drop-add (suc n) k (x ∷ xs) = rw (add.suc n k) (drop-add n k xs)

  pub take-length-take : (n : ℕ) (xs : List A) → take (length (take n xs)) xs ≡ take n xs
  take-length-take zero xs = refl
  take-length-take (suc n) [] = refl
  take-length-take (suc n) (x ∷ xs) = ap (◌∷◌ x) (take-length-take n xs)

  pub take-length-append : (xs ys : List A) → take (length xs) (xs ++ ys) ≡ xs
  take-length-append [] ys = refl
  take-length-append (x ∷ xs) ys = ap (◌∷◌ x) (take-length-append xs ys)

  pub drop-length-append : (xs ys : List A) → drop (length xs) (xs ++ ys) ≡ ys
  drop-length-append [] ys = refl
  drop-length-append (x ∷ xs) ys = drop-length-append xs ys

-- A view that shows all of the string from its start on.
abbrev pub IsSuffix : Bytes → View → Type 0
IsSuffix s v = drop v.start s ≡ v.chars

pub remove_prefix-IsSuffix :
    (s : Bytes) (v : View) (n : ℕ) → IsSuffix s v → IsSuffix s (remove_prefix n v)
remove_prefix-IsSuffix s v n h = drop-add v.start n s ∙ ap (drop n) h

pub to_substring-substr :
    (s : Bytes) (v : View) (pos n : ℕ)
    → IsSuffix s v
    → to_substring s (to_subrange (substr pos n v)) ≡ take n (drop pos v.chars)
to_substring-substr s v pos n h =
    ap (take (length (take n (drop pos v.chars)))) (drop-add v.start pos s ∙ ap (drop pos) h)
    ∙ take-length-take n (drop pos v.chars)

-- Where the loop stops: at the end, or at a character that does not satisfy the test.
abbrev pub Stops : (ℕ → Bool) → Bytes → Type 0
Stops p [] = Unit {0}
Stops p (c ∷ _) = p c ≡ false

pub valid_prefix-Stops : (p : ℕ → Bool) (s : Bytes) → Stops p (drop (valid_prefix p s) s)
unfolding valid_prefix
valid_prefix-Stops p [] = tt
valid_prefix-Stops p (c ∷ s) = elim (Bool-cases (p c)) [
  | inl e ↦ rw e (valid_prefix-Stops p s)
  | inr e ↦ rw e e
]

pub valid_prefix-all :
    (p : ℕ → Bool) (s : Bytes) → all_chars_satisfy p (take (valid_prefix p s) s) ≡ true
unfolding valid_prefix all_chars_satisfy
valid_prefix-all p [] = refl
valid_prefix-all p (c ∷ s) = elim (Bool-cases (p c)) [
  | inl e ↦ rw e (rw e (valid_prefix-all p s))
  | inr e ↦ rw e
]

-- Valid characters in front of a place where the loop stops: it takes just those.
pub valid_prefix-append :
    (p : ℕ → Bool) (xs ys : Bytes)
    → all_chars_satisfy p xs ≡ true
    → Stops p ys
    → valid_prefix p (xs ++ ys) ≡ length xs
unfolding valid_prefix all_chars_satisfy
valid_prefix-append p [] [] a st = refl
valid_prefix-append p [] (y ∷ ys) a st = rw st
valid_prefix-append p (x ∷ xs) ys a st = ground (arith, valid_prefix-append p xs ys)

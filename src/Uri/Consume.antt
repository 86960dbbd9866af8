-- ===== src/Uri/Consume.antt =====
-- What each of the `consume_…` functions takes off the front of a view.
use mathlib.Core.List.{append-nil}
use mathlib.Core.Path.{ap₂}
use libcosim.Base.{
  ==_iff, ℕ, suc, ◌+◌, Bool, true, false, ◌≡◌, ◌≢◌, refl, sym, ap, ◌∙◌, [], ◌∷◌, ◌++◌, Option, none,
  some, arith, length, take, drop, take-append-drop, Bool-cases, inl, inr, ◌&&◌, ◌==◌,
}
use libcosim.Base.Outcome.{Outcome, ok, err, invalid_argument}
use libcosim.Uri.Chars.{
  Bytes, all_chars_satisfy, is_scheme_char, is_authority_char, is_path_char, is_query_char,
}
use libcosim.Uri.Grammar.{
  starts_with_colon, optional_part, has_scheme, starts_with_slashes, is_empty_or_absolute, PathFits,
}
use libcosim.Uri.Views.{
  IsSuffix, remove_prefix-IsSuffix, to_substring-substr, Stops, valid_prefix-Stops,
  valid_prefix-all, drop-add,
}
use libcosim.Uri.Defs.{
  View, to_subrange, to_subrange?, to_substring, to_substring?, valid_prefix, consume_while,
  consume_scheme, consume_authority, consume_query, consume_fragment, optional_satisfies,
}

abbrev pub chars? : Option View → Option Bytes
chars? none = none
chars? (some v) = some v.chars

-- What one of the `consume_…` functions has done to the view `v` into `s`.
pub record Consumed (s : Bytes) (v : View) (before : Bytes) (p : ℕ → Bool) (o : Option View)
    (w : View) : Type 0 where
  pub suffix : IsSuffix s w
  pub shown : to_substring? s (to_subrange? o) ≡ chars? o
  pub splits : v.chars ≡ optional_part before (chars? o) w.chars
  pub valid : optional_satisfies p (chars? o) ≡ true

module _ (s : Bytes) (v : View) (h : IsSuffix s v) (before : Bytes) (p : ℕ → Bool) where
  pub nothing-Consumed : Consumed s v before p none v
  nothing-Consumed = record { suffix = h; shown = refl; splits = refl; valid = refl }

  pub consume_while-Consumed :
      (n : ℕ)
      → v.chars ≡ before ++ drop n v.chars
      → Consumed s v before p (some (consume_while p v n).0) (consume_while p v n).1
  unfolding consume_while
  consume_while-Consumed n e = record {
    suffix = remove_prefix-IsSuffix s v _ h;
    shown = ap some (to_substring-substr s v n _ h);
    splits =
        e
        ∙ ap (◌++◌ before) (
            sym (take-append-drop k (drop n v.chars))
            ∙ ap (◌++◌ (take k (drop n v.chars))) (sym (drop-add n k v.chars)));
    valid = valid_prefix-all p _;
  }
    where
      k : ℕ
      k = valid_prefix p (drop n v.chars)

-- The text behind stops the loop that took the part.
pub consume_while-Stops : (p : ℕ → Bool) (v : View) (n : ℕ) → Stops p (consume_while p v n).1.chars
unfolding consume_while
consume_while-Stops p v n =
    rw (drop-add n (valid_prefix p (drop n v.chars)) v.chars)
      (valid_prefix-Stops p (drop n v.chars))

abbrev pub view_at : ℕ → Bytes → View
view_at o t = record { start = o; chars = t }

pub consume_authority-Consumed :
    (s : Bytes) (o : ℕ) (t : Bytes)
    → IsSuffix s (view_at o t)
    → Consumed s
        (view_at o t)
        (b'/' ∷ b'/' ∷ [])
        is_authority_char
        (consume_authority (view_at o t)).0
        (consume_authority (view_at o t)).1
unfolding consume_authority
consume_authority-Consumed s o [] h = nothing-Consumed s _ h _ _
consume_authority-Consumed s o (a ∷ []) h = nothing-Consumed s _ h _ _
consume_authority-Consumed s o (a ∷ b ∷ t) h = elim (Bool-cases (a == b'/' && b == b'/')) [
  | inl e ↦ rw e (consume_while-Consumed s _ h (b'/' ∷ b'/' ∷ []) _ 2 (ground arith))
  | inr e ↦ rw e (nothing-Consumed s _ h _ _)
]

pub consume_query-Consumed :
    (s : Bytes) (o : ℕ) (t : Bytes)
    → IsSuffix s (view_at o t)
    → Consumed s
        (view_at o t)
        (b'?' ∷ [])
        is_query_char
        (consume_query (view_at o t)).0
        (consume_query (view_at o t)).1
unfolding consume_query
consume_query-Consumed s o [] h = nothing-Consumed s _ h _ _
consume_query-Consumed s o (a ∷ t) h = elim (Bool-cases (a == b'?')) [
  | inl e ↦ rw e (consume_while-Consumed s _ h (b'?' ∷ []) _ 1 (ground arith))
  | inr e ↦ rw e (nothing-Consumed s _ h _ _)
]

abbrev pub any_char : ℕ → Bool
any_char _ = true

all-any_char : (t : Bytes) → all_chars_satisfy any_char t ≡ true
unfolding all_chars_satisfy
all-any_char [] = refl
all-any_char (c ∷ t) = all-any_char t

take_all : (t : Bytes) → take (length t) t ≡ t
take_all [] = refl
take_all (c ∷ t) = ap (◌∷◌ c) (take_all t)

drop_all : (t : Bytes) → drop (length t) t ≡ []
drop_all [] = refl
drop_all (c ∷ t) = drop_all t

-- The fragment takes all that is left: the text starts with `#` or is empty.
pub consume_fragment-Consumed :
    (s : Bytes) (o : ℕ) (t : Bytes)
    → IsSuffix s (view_at o t)
    → Stops is_query_char t
    → Consumed s
        (view_at o t)
        (b'#' ∷ [])
        any_char
        (consume_fragment (view_at o t)).0
        (consume_fragment (view_at o t)).1
      × ((consume_fragment (view_at o t)).1.chars ≡ [])
unfolding consume_fragment is_query_char
consume_fragment-Consumed s o [] h st = (nothing-Consumed s _ h _ _, refl)
consume_fragment-Consumed s o (c ∷ t) h st = (
  record {
    suffix = remove_prefix-IsSuffix s (view_at o (c ∷ t)) (suc (length t)) h;
    shown = ap some (to_substring-substr s (view_at o (c ∷ t)) 1 (length t) h);
    splits = rw (drop_all t, take_all t, append-nil) (ground arith);
    valid = rw take_all (all-any_char t);
  },
  drop_all t,
)

-- The three ends of `consume_scheme`.
abbrev pub SchemeEnds : Bytes → Outcome (Option View × View) → Type 0
SchemeEnds s (err e) = (e ≡ invalid_argument) × (t : Bytes) × (s ≡ b':' ∷ t)
SchemeEnds s (ok (none, w)) = (w ≡ view_at 0 s) × (has_scheme s ≡ false)
SchemeEnds s (ok (some a, w)) =
    IsSuffix s w
    × (to_substring s (to_subrange a) ≡ a.chars)
    × (s ≡ a.chars ++ b':' ∷ w.chars)
    × (a.chars ≢ [])
    × (all_chars_satisfy is_scheme_char a.chars ≡ true)

scheme_char-ne-colon : (c : ℕ) → is_scheme_char c ≡ true → (c == b':') ≡ false
unfolding is_scheme_char
scheme_char-ne-colon c h = ground arith

has_scheme-valid_prefix :
    (s : Bytes) → has_scheme s ≡ starts_with_colon (drop (valid_prefix is_scheme_char s) s)
unfolding has_scheme valid_prefix
has_scheme-valid_prefix [] = refl
has_scheme-valid_prefix (c ∷ s) = elim (Bool-cases (is_scheme_char c)) [
  | inl e ↦ rw (e, scheme_char-ne-colon c e) (has_scheme-valid_prefix s)
  | inr e ↦ rw e (ground arith)
]

taken_ne_nil :
    (p : ℕ → Bool) (s : Bytes) → (valid_prefix p s == 0) ≡ false → take (valid_prefix p s) s ≢ []
unfolding valid_prefix
taken_ne_nil p [] h = cc
taken_ne_nil p (c ∷ s) h = elim (Bool-cases (p c)) [
  | inl e ↦ rw e (λ f. cc)
  | inr e ↦ absurd (ground arith)
]

pub consume_scheme-SchemeEnds : (s : Bytes) → SchemeEnds s (consume_scheme (view_at 0 s))
unfolding consume_scheme
consume_scheme-SchemeEnds s = go (drop k s) refl
  where
    k : ℕ
    k = valid_prefix is_scheme_char s

    go : (t : Bytes) → drop k s ≡ t → SchemeEnds s (consume_scheme (view_at 0 s))
    go [] e = rw (e, consume_scheme) (refl, has_scheme-valid_prefix s ∙ ap starts_with_colon e)
    go (c ∷ t) e = elim (Bool-cases (c == b':')) [
      | inl m ↦
          let colon : c ≡ b':' = (==_iff c b':').0 m in
          rw (e, consume_scheme)
            (rw m (elim (Bool-cases (k == 0)) [
              | inl z ↦
                  rw z (
                    refl,
                    t,
                    sym (ap (λ n. drop n s) ((==_iff k 0).0 z)) ∙ e ∙ ap (λ x. x ∷ t) colon,
                  )
              | inr nz ↦ rw nz (
                remove_prefix-IsSuffix s (view_at 0 s) (k + 1) refl,
                to_substring-substr s (view_at 0 s) 0 k refl,
                sym (take-append-drop k s)
                    ∙ ap (◌++◌ (take k s))
                        (e ∙ ap₂ ◌∷◌ colon (sym (drop-add k 1 s ∙ ap (drop 1) e))),
                taken_ne_nil is_scheme_char s nz,
                valid_prefix-all is_scheme_char s,
              )
            ]))
      | inr m ↦
          rw (e, consume_scheme)
            (rw m (refl, (has_scheme-valid_prefix s ∙ ap starts_with_colon e) ∙ m))
    ]

-- Why the authority ended, or was not there.
abbrev pub AuthorityEnds : Bytes → Option View → View → Type 0
AuthorityEnds t none w = starts_with_slashes t ≡ false
AuthorityEnds t (some _) w = Stops is_authority_char w.chars

pub consume_authority-AuthorityEnds :
    (o : ℕ) (t : Bytes)
    → AuthorityEnds t (consume_authority (view_at o t)).0 (consume_authority (view_at o t)).1
unfolding consume_authority
consume_authority-AuthorityEnds o [] = refl
consume_authority-AuthorityEnds o (a ∷ []) = refl
consume_authority-AuthorityEnds o (a ∷ b ∷ t) = elim (Bool-cases (a == b'/' && b == b'/')) [
  | inl e ↦ rw e (consume_while-Stops is_authority_char (view_at o (a ∷ b ∷ t)) 2)
  | inr e ↦ rw e e
]

pub consume_query-Stops :
    (o : ℕ) (t : Bytes)
    → Stops is_path_char t
    → Stops is_query_char (consume_query (view_at o t)).1.chars
unfolding consume_query
consume_query-Stops o [] st = tt
consume_query-Stops o (c ∷ t) st = elim (Bool-cases (c == b'?')) [
  | inl e ↦ rw e (consume_while-Stops is_query_char (view_at o (c ∷ t)) 1)
  | inr e ↦ rw e (unfold is_query_char is_path_char in ground arith)
]

starts_with_slashes-append :
    (xs ys : Bytes) → starts_with_slashes (xs ++ ys) ≡ false → starts_with_slashes xs ≡ false
starts_with_slashes-append [] ys h = refl
starts_with_slashes-append (a ∷ []) ys h = refl
starts_with_slashes-append (a ∷ b ∷ xs) ys h = h

absolute_of_Stops :
    (p rest : Bytes)
    → Stops is_authority_char (p ++ rest)
    → all_chars_satisfy is_path_char p ≡ true
    → is_empty_or_absolute p ≡ true
unfolding is_authority_char is_path_char all_chars_satisfy
absolute_of_Stops [] rest st h = refl
absolute_of_Stops (c ∷ p) rest st h = ground arith

pub PathFits_of_ends :
    (t : Bytes) (o : Option View) (w : View) (p rest : Bytes)
    → AuthorityEnds t o w
    → t ≡ optional_part (b'/' ∷ b'/' ∷ []) (chars? o) w.chars
    → w.chars ≡ p ++ rest
    → all_chars_satisfy is_path_char p ≡ true
    → PathFits (chars? o) p
PathFits_of_ends t none w p rest ends e f valid =
    starts_with_slashes-append p rest (rw (e ∙ f) at ends)
PathFits_of_ends t (some a) w p rest ends e f valid = absolute_of_Stops p rest (rw f at ends) valid

pub some_cancel : {a b : Bytes} → some a ≡ some b → a ≡ b
some_cancel e = cc

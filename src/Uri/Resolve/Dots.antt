-- ===== src/Uri/Resolve/Dots.antt =====
-- The loop of remove_dot_segments() ends, whatever the path.
use libcosim.Base.{ℕ, zero, suc, ◌<◌, ◌≤◌, true, [], ◌∷◌, ◌≡◌, refl, length, arith, length-drop}
use libcosim.Uri.Chars.{Bytes}
use libcosim.Uri.Resolve.{starts_with, equal, until_slash, dot_step, dot_loop}

starts_with-length : (s prefix : Bytes) → starts_with s prefix ≡ true → length prefix ≤ length s
unfolding starts_with
starts_with-length s [] h = omega arith
starts_with-length [] (p ∷ prefix) h = cc
starts_with-length (c ∷ s) (p ∷ prefix) h = ground (arith, starts_with-length s prefix)

equal-length : (s t : Bytes) → equal s t ≡ true → length t ≤ length s
unfolding equal
equal-length [] [] h = omega arith
equal-length [] (y ∷ t) h = cc
equal-length (x ∷ s) [] h = cc
equal-length (x ∷ s) (y ∷ t) h = ground (arith, equal-length s t)

-- Every round shortens the input.
dot_step-shorter : (c : ℕ) (s output : Bytes) → length (dot_step (c ∷ s) output).0 < suc (length s)
unfolding dot_step
dot_step-shorter c s output = ground (
  arith,
  length-drop {0} 1 s,
  length-drop {0} 2 s,
  length-drop {0} 3 s,
  length-drop {0} (until_slash s) s,
  starts_with-length (c ∷ s) (b'.' ∷ b'.' ∷ b'/' ∷ []),
  starts_with-length (c ∷ s) (b'.' ∷ b'/' ∷ []),
  starts_with-length (c ∷ s) (b'/' ∷ b'.' ∷ b'/' ∷ []),
  equal-length (c ∷ s) (b'/' ∷ b'.' ∷ []),
  starts_with-length (c ∷ s) (b'/' ∷ b'.' ∷ b'.' ∷ b'/' ∷ []),
  equal-length (c ∷ s) (b'/' ∷ b'.' ∷ b'.' ∷ []),
)

dot_loop-ends : (f : ℕ) (i o : Bytes) → length i ≤ f → (dot_loop f i o).0 ≡ []
unfolding dot_loop
dot_loop-ends zero [] o h = refl
dot_loop-ends (suc f) [] o h = refl
dot_loop-ends zero (c ∷ i) o h = absurd (omega arith)
dot_loop-ends (suc f) (c ∷ i) o h =
    let r = dot_step (c ∷ i) o in dot_loop-ends f r.0 r.1 (omega (arith, dot_step-shorter c i o))

dot_loop-same :
    (f g : ℕ) (i o : Bytes) → length i ≤ f → length i ≤ g → dot_loop f i o ≡ dot_loop g i o
unfolding dot_loop
dot_loop-same zero zero [] o h k = refl
dot_loop-same zero (suc g) [] o h k = refl
dot_loop-same (suc f) zero [] o h k = refl
dot_loop-same (suc f) (suc g) [] o h k = refl
dot_loop-same zero g (c ∷ i) o h k = absurd (omega arith)
dot_loop-same (suc f) zero (c ∷ i) o h k = absurd (omega arith)
dot_loop-same (suc f) (suc g) (c ∷ i) o h k =
    let r = dot_step (c ∷ i) o in
    let shorter = dot_step-shorter c i o in
    dot_loop-same f g r.0 r.1 (omega (arith, shorter)) (omega (arith, shorter))

-- The loop ends with no input left on any fuel that is at least the length of the path, and its
-- output does not depend on the fuel: the rounds bounded by that length are all the rounds.
pub dot_loop_ends :
    (fuel : ℕ) (input output : Bytes)
    → length input ≤ fuel
    → ((dot_loop fuel input output).0 ≡ [])
      × (dot_loop fuel input output ≡ dot_loop (length input) input output)
dot_loop_ends fuel input output enough = (
  dot_loop-ends fuel input output enough,
  dot_loop-same fuel (length input) input output enough (omega arith),
)

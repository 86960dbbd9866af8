-- ===== src/Base/Positions.antt =====
-- Where the elements of a list stand.
use Prim.Native.Nat.{ℕ, zero, suc, ◌<◌}
use mathlib.Core.Path.{◌≡◌, refl}
use mathlib.Core.Logic.{◌≢◌, ite}
use mathlib.Core.List.{List, [], ◌∷◌, ◌++◌}
use mathlib.Core.Bool.{Bool, true, false}
use mathlib.Core.Option.{none, some}
use native.Mathlib.Omega.{arith}
use native.Mathlib.Decide.{ℕ_discrete}
use libcosim.Base.Lists.{length, get_elem?, length-append}

module _ {ℓ} {A : Type ℓ} where
  pub get_elem?-append_one :
      (xs : List A) (a : A) (i : ℕ)
      → get_elem? (xs ++ a ∷ []) i ≡ ite (ℕ_discrete i (length xs)) (some a) (get_elem? xs i)
  get_elem?-append_one [] a zero = ground arith
  get_elem?-append_one [] a (suc i) = ground arith
  get_elem?-append_one (x ∷ xs) a zero = ground arith
  get_elem?-append_one (x ∷ xs) a (suc i) = ground (arith, get_elem?-append_one xs a i)

  pub get_elem?-lt : (xs : List A) (i : ℕ) {a : A} → get_elem? xs i ≡ some a → i < length xs
  get_elem?-lt [] i e = cc
  get_elem?-lt (x ∷ xs) zero e = omega arith
  get_elem?-lt (x ∷ xs) (suc i) e = omega (arith, get_elem?-lt xs i e)

  pub get_elem?-some : (xs : List A) (i : ℕ) → i < length xs → (a : A) × (get_elem? xs i ≡ some a)
  get_elem?-some [] i h = absurd (omega arith)
  get_elem?-some (x ∷ xs) zero h = (x, refl)
  get_elem?-some (x ∷ xs) (suc i) h = get_elem?-some xs i (omega arith)

pub append_one_each {ℓ κ} :
    {A : Type ℓ} {B : Type κ} (xs : List A) (ys : List B) (a : A) (b : B)
    → length xs ≡ length ys
    → length (xs ++ a ∷ []) ≡ length (ys ++ b ∷ [])
append_one_each xs ys a b h = omega (arith, length-append xs (a ∷ []), length-append ys (b ∷ []))

pub none-ne-some {ℓ} : {A : Type ℓ} {a : A} → none ≢ some a
none-ne-some e = cc

pub some_cancel {ℓ} : {A : Type ℓ} {a b : A} → some a ≡ some b → a ≡ b
some_cancel e = cc

-- Whether a number stands in a list, `count(i) != 0`.
abbrev pub is_in : ℕ → List ℕ → Bool
is_in i [] = false
is_in i (x ∷ xs) = ite (ℕ_discrete x i) true (is_in i xs)

pub is_in-get_elem? : (i k : ℕ) (xs : List ℕ) → get_elem? xs i ≡ some k → is_in k xs ≡ true
is_in-get_elem? i k [] e = cc
is_in-get_elem? zero k (x ∷ xs) e = ground arith
is_in-get_elem? (suc i) k (x ∷ xs) e = ground (arith, is_in-get_elem? i k xs e)

-- ===== src/Algorithm/Lcm.antt =====
-- `std::lcm` of two factors: the first number that both divide, found by search up to their
-- product. Where it does not fit into an `int` the call is undefined.
use native.Mathlib.Nat.{mod-mod, add-mod, mod-add-div, mul_assoc, mul_comm, mod-lt}
use libcosim.Base.{
  ℕ_discrete, ℕ, zero, suc, ◌+◌, ◌*◌, ◌/◌, ◌%◌, ◌^◌, ◌<◌, ◌≤◌, Bool, true, false, ◌&&◌, ◌==◌, ltb,
  if◌then◌else◌, ◌≡◌, ◌≢◌, ◌↔◌, sym, ap, ◌∙◌, inl, inr, arith, Bool-cases,
}
use libcosim.Base.Outcome.{Outcome, ok, err, undefined}

abbrev pub both_divide : ℕ → ℕ → ℕ → Bool
both_divide a b m = m % a == 0 && m % b == 0

unfoldable pub first_multiple : ℕ → ℕ → ℕ → ℕ → ℕ
first_multiple zero m a b = 0
first_multiple (suc fuel) m a b =
    let rest = first_multiple fuel (suc m) a b in if both_divide a b m then m else rest

unfoldable pub lcm : ℕ → ℕ → ℕ
unfolding first_multiple
lcm a b = first_multiple (a * b) 1 a b

-- `std::lcm` on `int`
unfoldable pub int_lcm : ℕ → ℕ → Outcome ℕ
int_lcm a b = if ltb (lcm a b) (2 ^ 31) then ok (lcm a b) else err undefined

true-ne-false : true ≢ false
true-ne-false e = cc

multiple : (a n : ℕ) → n % a ≡ 0 → n ≡ a * (n / a)
multiple a n h = grind arith

multiple-mod : (a k : ℕ) → a * k % a ≡ 0
multiple-mod a k = grind arith

-- What `m` leaves of `n` is divided by all that divides both.
remainder_divided : (a m n : ℕ) → m % a ≡ 0 → n % a ≡ 0 → n % m % a ≡ 0
remainder_divided a m n h k =
    sym (mod-mod (n % m) a)
    ∙ ap (λ x. x % a) (omega (arith, whole_multiple))
    ∙ sym (add-mod (n % m) (m * (n / m)) a)
    ∙ ap (λ x. x % a) (mod-add-div n m)
    ∙ k
  where
    regrouped : m * (n / m) ≡ a * (m / a * (n / m))
    regrouped = ap (λ x. x * (n / m)) (multiple a m h) ∙ mul_assoc a (m / a) (n / m)

    whole_multiple : m * (n / m) % a ≡ 0
    whole_multiple = ap (λ x. x % a) regrouped ∙ multiple-mod a (m / a * (n / m))

-- The search stops at the least number that both divide.
record IsFirst (a b m r : ℕ) : Type 0 where
  from : m ≤ r
  divided : both_divide a b r ≡ true
  least : (x : ℕ) → m ≤ x → x < r → both_divide a b x ≡ false

first_multiple-IsFirst :
    (fuel m a b t : ℕ)
    → both_divide a b t ≡ true
    → m ≤ t
    → t < m + fuel
    → IsFirst a b m (first_multiple fuel m a b)
unfolding first_multiple
first_multiple-IsFirst zero m a b t h p q = absurd (omega arith)
first_multiple-IsFirst (suc fuel) m a b t h p q = elim (Bool-cases (both_divide a b m)) [
  | inl e ↦ rw e (record { from = omega arith; divided = e; least = λ x l u. absurd (omega arith) })
  | inr e ↦
      let ne : m ≢ t = λ s. true-ne-false (sym h ∙ ap (both_divide a b) (sym s) ∙ e) in
      let r = first_multiple-IsFirst fuel (suc m) a b t h (omega arith) (omega arith) in
      rw e (record {
        from = omega (arith, r.from);
        divided = r.divided;
        least = λ x l u. elim (ℕ_discrete m x) [
          | yes s ↦ ap (both_divide a b) (sym s) ∙ e
          | no n ↦ r.least x (omega arith) u
        ];
      })
]

product-both_divide : (a b : ℕ) → both_divide a b (a * b) ≡ true
product-both_divide a b = ground (arith, multiple-mod a b, multiple-mod b a, mul_comm a b)

lcm-IsFirst : (a b : ℕ) → 0 < a → 0 < b → IsFirst a b 1 (lcm a b)
unfolding lcm
lcm-IsFirst a b p q =
    first_multiple-IsFirst (a * b) 1 a b (a * b) (product-both_divide a b) (grind arith)
      (omega arith)

pub lcm-pos : (a b : ℕ) → 0 < a → 0 < b → 0 < lcm a b
lcm-pos a b p q = let r = lcm-IsFirst a b p q in omega (arith, r.from)

pub int_lcm-pos : (a b : ℕ) {r : ℕ} → 0 < a → 0 < b → int_lcm a b ≡ ok r → 0 < r
unfolding int_lcm
int_lcm-pos a b p q e = ground (arith, lcm-pos a b p q, e)

-- A number is a multiple of the least common multiple exactly when it is one of both factors.
pub mod-lcm : (a b n : ℕ) → 0 < a → 0 < b → (n % lcm a b ≡ 0) ↔ ((n % a ≡ 0) × (n % b ≡ 0))
mod-lcm a b n p q = (split, join)
  where
    first : IsFirst a b 1 (lcm a b)
    first = lcm-IsFirst a b p q

    parts : (m : ℕ) → both_divide a b m ≡ true → (m % a ≡ 0) × (m % b ≡ 0)
    parts m h = ground arith

    through : (c : ℕ) → lcm a b % c ≡ 0 → n % lcm a b ≡ 0 → n % c ≡ 0
    through c h k =
        ap (λ x. x % c)
          (multiple (lcm a b) n k
            ∙ ap (λ x. x * (n / lcm a b)) (multiple c (lcm a b) h)
            ∙ mul_assoc c (lcm a b / c) (n / lcm a b))
        ∙ multiple-mod c (lcm a b / c * (n / lcm a b))

    split : n % lcm a b ≡ 0 → (n % a ≡ 0) × (n % b ≡ 0)
    split k = let (x, y) = parts (lcm a b) first.divided in (through a x k, through b y k)

    both : (m : ℕ) → m % a ≡ 0 → m % b ≡ 0 → both_divide a b m ≡ true
    both m x y = ground arith

    join : (n % a ≡ 0) × (n % b ≡ 0) → n % lcm a b ≡ 0
    join (h, k) = elim (ℕ_discrete (n % lcm a b) 0) [
      | yes e ↦ e
      | no ne ↦
          let (x, y) = parts (lcm a b) first.divided in
          absurd (
            true-ne-false (
              sym (
                both (n % lcm a b) (remainder_divided a (lcm a b) n x h)
                  (remainder_divided b (lcm a b) n y k))
              ∙ first.least (n % lcm a b) (omega arith) (mod-lt n (omega (arith, first.from)))))
    ]

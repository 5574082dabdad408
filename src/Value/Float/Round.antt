-- ===== src/Value/Float/Round.antt =====
-- What the rounding of a natural number to a float keeps of it.
use native.Mathlib.Nat.{
  two-pow-succ, mul-add-div_right, div-eq_of_lt, add-mul-mod_self_right, mod-eq_of_lt, div-add-mod',
  mod-lt, le-div_iff_mul-le, div-lt_iff_lt-mul, mul-le-mul_right,
}
use horaedb_client_rs.Prelude.{
  ℕ, suc, ◌+◌, ◌-◌, ◌*◌, ◌/◌, ◌%◌, ◌^◌, ◌≤◌, ◌<◌, ◌≡◌, ◌⊎◌, ap, sym, ◌∙◌, false, ◌&&◌, ◌||◌, eqb,
  ltb, if◌then◌else◌, arith, Bool-cases, inl, inr,
}
use horaedb_client_rs.Value.Float.{round_even}
use horaedb_client_rs.Value.Float.Bits.{two_pow_add, two_pow_positive, HasBits}

-- The magnitude of a finite float without its sign, in units of the least float above zero.
abbrev pub scaled : ℕ → ℕ → ℕ
scaled fraction b =
    let e = b / 2 ^ fraction in
    if eqb e 0 then b % 2 ^ fraction else (2 ^ fraction + b % 2 ^ fraction) * 2 ^ (e - 1)

pub place-div : (m e g : ℕ) → g < m → (e * m + g) / m ≡ e
place-div m e g h =
    mul-add-div_right (omega arith) e g ∙ ap (λ x. e + x) (div-eq_of_lt h) ∙ omega arith

pub place-mod : (m e g : ℕ) → g < m → (e * m + g) % m ≡ g
place-mod m e g h = ap (λ x. x % m) (omega arith) ∙ add-mul-mod_self_right g e m ∙ mod-eq_of_lt h

-- The float of an exponent and a significand.
pub scaled-place :
    (fraction e g : ℕ)
    → g < 2 ^ fraction
    → scaled fraction (suc e * 2 ^ fraction + g) ≡ (2 ^ fraction + g) * 2 ^ e
scaled-place fraction e g h = rw (place-div (2 ^ fraction) (suc e) g h) (
    rw (place-mod (2 ^ fraction) (suc e) g h)
      (rw (normal e) (ap (λ x. (2 ^ fraction + g) * 2 ^ x) (less e))))
  where
    normal : (x : ℕ) → eqb (suc x) 0 ≡ false
    normal x = ground arith

    less : (x : ℕ) → suc x - 1 ≡ x
    less x = omega arith

pub scaled-significand :
    (fraction e s : ℕ)
    → 2 ^ fraction ≤ s
    → s ≤ 2 * 2 ^ fraction
    → scaled fraction (suc e * 2 ^ fraction + (s - 2 ^ fraction)) ≡ s * 2 ^ e
scaled-significand fraction e s a b = elim (Bool-cases (ltb s (2 * 2 ^ fraction))) [
  | inl below ↦
      scaled-place fraction e (s - 2 ^ fraction) (ground arith) ∙ ap (λ x. x * 2 ^ e) (omega arith)
  | inr full ↦
      ap (scaled fraction) (carried (2 ^ fraction) (ground arith))
      ∙ scaled-place fraction (suc e) 0 (two_pow_positive fraction)
      ∙ ap (λ x. (2 ^ fraction + 0) * x) (two-pow-succ e)
      ∙ doubled (2 ^ fraction) (2 ^ e) (ground arith)
]
  where
    carried : (m : ℕ) → s ≡ 2 * m → suc e * m + (s - m) ≡ suc (suc e) * m + 0
    carried m h = omega arith

    doubled : (m q : ℕ) → s ≡ 2 * m → (m + 0) * (q + q) ≡ s * q
    doubled m q h = ap (λ x. x * (q + q)) (omega arith) ∙ twice m q ∙ ap (λ x. x * q) (sym h)
      where
        twice : (m q : ℕ) → m * (q + q) ≡ 2 * m * q
        twice m q = omega arith

-- Two numbers that differ by at most half of a third.
pub record IsHalf (p a n : ℕ) : Type 0 where
  pub not_above : a * 2 ≤ n * 2 + p
  pub not_below : n * 2 ≤ a * 2 + p

round_even-cases : (p n : ℕ) → (round_even p n ≡ n / p) ⊎ (round_even p n ≡ suc (n / p))
unfolding round_even
round_even-cases p n = ground arith

IsHalf-up : (p q r n : ℕ) → q * p + r ≡ n → p ≤ r * 2 → r ≤ p → IsHalf p (suc q * p) n
IsHalf-up p q r n e a b = record { not_above = omega arith; not_below = omega arith }

IsHalf-down : (p q r n : ℕ) → q * p + r ≡ n → r * 2 ≤ p → IsHalf p (q * p) n
IsHalf-down p q r n e a = record { not_above = omega arith; not_below = omega arith }

-- The multiple that is taken is at most half of `p` away.
pub round_even-IsHalf : (p n : ℕ) → 0 < p → IsHalf p (round_even p n * p) n
unfolding round_even
round_even-IsHalf p n h =
    elim (Bool-cases (ltb p (n % p * 2) || (eqb (n % p * 2) p && eqb (n / p % 2) 1))) [
      | inl up ↦ rw up (
          IsHalf-up p (n / p) (n % p) n (div-add-mod' n p) (ground arith)
            (omega (arith, mod-lt n h)))
      | inr down ↦ rw down (IsHalf-down p (n / p) (n % p) n (div-add-mod' n p) (ground arith))
    ]

-- What is rounded has the significand's size.
pub round_even-bounds :
    (p m n : ℕ)
    → 0 < p
    → m * p ≤ n
    → n < 2 * m * p
    → (m ≤ round_even p n) × (round_even p n ≤ 2 * m)
round_even-bounds p m n h a b =
    let low : m ≤ n / p = (le-div_iff_mul-le h).1 a in
    let high : n / p < 2 * m = (div-lt_iff_lt-mul h).1 b in
    elim (round_even-cases p n) [
      | inl same ↦ rw same (low, omega arith)
      | inr next ↦ rw next (omega arith, omega arith)
    ]

-- The relative error of a float's value `a` (in units of which `u` make one) for a number `n` is at most
-- 1 / (2 * m).
pub record IsNear (m u a n : ℕ) : Type 0 where
  pub not_above : a * (2 * m) ≤ n * u * (2 * m) + n * u
  pub not_below : n * u * (2 * m) ≤ a * (2 * m) + n * u

pub half-IsNear : (p m u s n : ℕ) → m * p ≤ n → IsHalf p (s * p) n → IsNear m u (s * p * u) n
half-IsNear p m u s n a h = record {
  not_above = omega (arith, mul-le-mul_right (m * u) h.not_above, mul-le-mul_right u a);
  not_below = omega (arith, mul-le-mul_right (m * u) h.not_below, mul-le-mul_right u a);
}

pub equal-IsNear : (m u a n : ℕ) → a ≡ n * u → IsNear m u a n
equal-IsNear m u a n e = record { not_above = rw e (omega arith); not_below = rw e (omega arith) }

-- A number of `k` bits, by its significand.
pub short_significand :
    (fraction k j n : ℕ)
    → HasBits k n
    → j + k ≡ suc fraction
    → (2 ^ fraction ≤ n * 2 ^ j) × (n * 2 ^ j ≤ 2 * 2 ^ fraction)
short_significand fraction k j n h e =
    let whole : 2 ^ j * 2 ^ k ≡ 2 ^ fraction + 2 ^ fraction =
      sym (two_pow_add j k) ∙ ap (λ x. 2 ^ x) e ∙ two-pow-succ fraction in
    (
      omega (arith, whole, mul-le-mul_right (2 ^ j) h.above),
      omega (arith, whole, mul-le-mul_right (2 ^ j) (below n (2 ^ k) h.below)),
    )
  where
    below : (x y : ℕ) → x < y → x ≤ y
    below x y q = omega arith

pub long_bounds :
    (fraction k s n : ℕ)
    → HasBits k n
    → s + suc fraction ≡ k
    → (2 ^ fraction * 2 ^ s ≤ n) × (n < 2 * 2 ^ fraction * 2 ^ s)
long_bounds fraction k s n h e =
    let whole : 2 ^ k ≡ 2 ^ s * (2 ^ fraction + 2 ^ fraction) =
      ap (λ x. 2 ^ x) (sym e)
      ∙ two_pow_add s (suc fraction)
      ∙ ap (λ x. 2 ^ s * x) (two-pow-succ fraction) in
    (omega (arith, whole, h.above), omega (arith, whole, h.below))

-- ===== src/Value/Float/Nearest.antt =====
-- A natural number becomes the nearest float.
use native.Mathlib.Nat.{
  two-pow-succ, mul_assoc, div-eq_of_lt, mod-eq_of_lt, pow-le-pow_right, mul-le-mul_right,
}
use horaedb_client_rs.Prelude.{
  ℕ, suc, ◌+◌, ◌-◌, ◌*◌, ◌^◌, ◌≤◌, ◌<◌, ◌≡◌, ap, sym, ◌∙◌, subst, true, false, eqb, leb, arith,
  Bool-cases, inl, inr,
}
use horaedb_client_rs.Value.Float.{Format, round_even, significand, of_nat, bit_length}
use horaedb_client_rs.Value.Float.Bits.{
  two_pow_add, two_pow_positive, HasBits, bit_length-HasBits, bit_length-le,
}
use horaedb_client_rs.Value.Float.Round.{
  scaled, scaled-significand, IsNear, half-IsNear, equal-IsNear, round_even-IsHalf,
  round_even-bounds, short_significand, long_bounds,
}

-- A float's exponent and significand, of a number of `k` bits.
float_bits : Format → ℕ → ℕ → ℕ
float_bits f k n = (f.bias + k - 1) * 2 ^ f.fraction + (significand f.fraction k n - 2 ^ f.fraction)

-- How many units of the least float above zero make one.
abbrev pub unit : Format → ℕ
unit f = 2 ^ (f.bias - 1 + f.fraction)

float_bits-exact :
    (f : Format) (k n : ℕ)
    → 1 ≤ f.bias
    → HasBits k n
    → k ≤ suc f.fraction
    → scaled f.fraction (float_bits f k n) ≡ n * unit f
unfolding float_bits significand
float_bits-exact f k n b h s =
    let j = suc f.fraction - k in
    let e = f.bias + k - 2 in
    let bounds = short_significand f.fraction k j n h (omega arith) in
    rw (short f.fraction s) (
      ap (λ x. scaled f.fraction (x * 2 ^ f.fraction + (n * 2 ^ j - 2 ^ f.fraction)))
        (exponent h.positive)
      ∙ scaled-significand f.fraction e (n * 2 ^ j) bounds.0 bounds.1
      ∙ mul_assoc n (2 ^ j) (2 ^ e)
      ∙ ap (λ x. n * x) (sym (two_pow_add j e) ∙ ap (λ x. 2 ^ x) (omega (arith, h.positive))))
  where
    short : (x : ℕ) → k ≤ suc x → leb k (suc x) ≡ true
    short x q = ground arith

    exponent : 1 ≤ k → f.bias + k - 1 ≡ suc (f.bias + k - 2)
    exponent q = omega arith

float_bits-IsNear :
    (f : Format) (k n : ℕ)
    → 1 ≤ f.bias
    → HasBits k n
    → leb k (suc f.fraction) ≡ false
    → IsNear (2 ^ f.fraction) (unit f) (scaled f.fraction (float_bits f k n)) n
unfolding float_bits significand
float_bits-IsNear f k n b h long =
    let s = k - suc f.fraction in
    let e = f.bias + k - 2 in
    let bounds = long_bounds f.fraction k s n h (rest (suc f.fraction) (ground arith)) in
    let rounded =
      round_even-bounds (2 ^ s) (2 ^ f.fraction) n (two_pow_positive s) bounds.0 bounds.1 in
    let value : scaled f.fraction (float_bits f k n) ≡ round_even (2 ^ s) n * 2 ^ s * unit f =
      rw long (
        ap (λ x. scaled f.fraction (x * 2 ^ f.fraction + (round_even (2 ^ s) n - 2 ^ f.fraction)))
          (exponent h.positive)
        ∙ scaled-significand f.fraction e (round_even (2 ^ s) n) rounded.0 rounded.1
        ∙ ap (λ x. round_even (2 ^ s) n * x)
            (ap (λ x. 2 ^ x) (parts (ground arith)) ∙ two_pow_add s (f.bias - 1 + f.fraction))
        ∙ sym (mul_assoc (round_even (2 ^ s) n) (2 ^ s) (unit f))) in
    subst (λ x. IsNear (2 ^ f.fraction) (unit f) x n) (sym value)
      (half-IsNear (2 ^ s) (2 ^ f.fraction) (unit f) (round_even (2 ^ s) n) n bounds.0
        (round_even-IsHalf (2 ^ s) n (two_pow_positive s)))
  where
    rest : (x : ℕ) → x ≤ k → k - x + x ≡ k
    rest x q = omega arith

    exponent : 1 ≤ k → f.bias + k - 1 ≡ suc (f.bias + k - 2)
    exponent q = omega arith

    parts : suc f.fraction ≤ k → f.bias + k - 2 ≡ k - suc f.fraction + (f.bias - 1 + f.fraction)
    parts q = omega arith

no_units : (n u : ℕ) → n ≡ 0 → 0 ≡ n * u
no_units n u e = rw e (omega arith)

scaled-zero : (fraction : ℕ) → scaled fraction 0 ≡ 0
scaled-zero fraction =
    rw (div-eq_of_lt (two_pow_positive fraction)) (mod-eq_of_lt (two_pow_positive fraction))

-- A natural number below 2^64 becomes a float whose relative error is at most 1 / 2^(fraction + 1), and
-- none if the number is below 2^(fraction + 1).
pub of_nat-IsNear :
    (f : Format) (n : ℕ)
    → 1 ≤ f.bias
    → n < 2 ^ 64
    → IsNear (2 ^ f.fraction) (unit f) (scaled f.fraction (of_nat f n)) n
unfolding of_nat float_bits
of_nat-IsNear f n b h = elim (Bool-cases (eqb n 0)) [
  | inl empty ↦ rw empty (
      equal-IsNear (2 ^ f.fraction) (unit f) (scaled f.fraction 0) n
        (scaled-zero f.fraction ∙ no_units n (unit f) (ground arith)))
  | inr full ↦
      let k = bit_length-HasBits 64 n (ground arith) h in
      rw full (elim (Bool-cases (leb (bit_length 64 n) (suc f.fraction))) [
        | inl short ↦
            equal-IsNear (2 ^ f.fraction) (unit f) _ n
              (float_bits-exact f (bit_length 64 n) n b k (ground arith))
        | inr long ↦ float_bits-IsNear f (bit_length 64 n) n b k long
      ])
]

pub of_nat-exact :
    (f : Format) (n : ℕ)
    → 1 ≤ f.bias
    → n < 2 ^ 64
    → n < 2 ^ suc f.fraction
    → scaled f.fraction (of_nat f n) ≡ n * unit f
unfolding of_nat float_bits
of_nat-exact f n b h small = elim (Bool-cases (eqb n 0)) [
  | inl empty ↦ rw empty (scaled-zero f.fraction ∙ no_units n (unit f) (ground arith))
  | inr full ↦
      let k = bit_length-HasBits 64 n (ground arith) h in
      rw full (float_bits-exact f (bit_length 64 n) n b k (few (bit_length 64 n) k.above))
]
  where
    higher : (k : ℕ) → suc (suc f.fraction) ≤ k → 2 ^ suc (suc f.fraction) ≤ 2 ^ k
    higher k q = pow-le-pow_right (omega arith) q

    few : (k : ℕ) → 2 ^ k ≤ 2 * n → k ≤ suc f.fraction
    few k above = elim (Bool-cases (leb k (suc f.fraction))) [
      | inl short ↦ ground arith
      | inr long ↦
          absurd
            (omega (arith, small, above, two-pow-succ (suc f.fraction), higher k (ground arith)))
    ]

significand-le : (fraction k n : ℕ) → HasBits k n → significand fraction k n ≤ 2 * 2 ^ fraction
unfolding significand
significand-le fraction k n h = elim (Bool-cases (leb k (suc fraction))) [
  | inl short ↦
      rw short (short_significand fraction k (suc fraction - k) n h (there (ground arith))).1
  | inr long ↦
      let s = k - suc fraction in
      let bounds = long_bounds fraction k s n h (back (ground arith)) in
      rw long (round_even-bounds (2 ^ s) (2 ^ fraction) n (two_pow_positive s) bounds.0 bounds.1).1
]
  where
    there : k ≤ suc fraction → suc fraction - k + k ≡ suc fraction
    there q = omega arith

    back : suc fraction ≤ k → k - suc fraction + suc fraction ≡ k
    back q = omega arith

-- The exponent stays below its bound.
pub of_nat-le :
    (f : Format) (n : ℕ) → 1 ≤ f.bias → n < 2 ^ 64 → of_nat f n ≤ suc (f.bias + 63) * 2 ^ f.fraction
unfolding of_nat
of_nat-le f n b h = elim (Bool-cases (eqb n 0)) [
  | inl empty ↦ rw empty (omega arith)
  | inr full ↦
      let k = bit_length-HasBits 64 n (ground arith) h in
      rw full (
        bound (f.bias + bit_length 64 n - 1) (f.bias + 63) (2 ^ f.fraction)
          (significand f.fraction (bit_length 64 n) n) (omega (arith, bit_length-le 64 n))
          (significand-le f.fraction (bit_length 64 n) n k))
]
  where
    bound : (e g m s : ℕ) → e ≤ g → s ≤ 2 * m → e * m + (s - m) ≤ (suc g) * m
    bound e g m s q r = omega (arith, mul-le-mul_right m q)

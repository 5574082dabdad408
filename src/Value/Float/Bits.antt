-- ===== src/Value/Float/Bits.antt =====
-- Powers of two, and how many bits a number has.
use native.Mathlib.Nat.{two-pow-succ}
use horaedb_client_rs.Prelude.{
  ℕ, zero, suc, ◌+◌, ◌*◌, ◌/◌, ◌^◌, ◌≤◌, ◌<◌, ◌≡◌, refl, ap, sym, ◌∙◌, eqb, arith, Bool-cases, inl,
  inr,
}
use horaedb_client_rs.Value.Float.{bit_length}

pub two_pow_add : (a b : ℕ) → 2 ^ (a + b) ≡ 2 ^ a * 2 ^ b
two_pow_add a zero = ap (λ x. 2 ^ x) add_zero ∙ mul_one
  where
    add_zero : a + 0 ≡ a
    add_zero = omega arith

    mul_one : 2 ^ a ≡ 2 ^ a * 1
    mul_one = omega arith
two_pow_add a (suc b) =
    ap (λ x. 2 ^ x) add_suc
    ∙ two-pow-succ (a + b)
    ∙ ap (λ x. x + x) (two_pow_add a b)
    ∙ double (2 ^ a) (2 ^ b)
    ∙ ap (λ x. 2 ^ a * x) (sym (two-pow-succ b))
  where
    add_suc : a + suc b ≡ suc (a + b)
    add_suc = omega arith

    double : (p q : ℕ) → p * q + p * q ≡ p * (q + q)
    double p q = omega arith

pub two_pow_positive : (a : ℕ) → 0 < 2 ^ a
two_pow_positive zero = omega arith
two_pow_positive (suc a) = omega (arith, two_pow_positive a, two-pow-succ a)

pub bit_length-zero : (fuel : ℕ) → bit_length fuel 0 ≡ 0
unfolding bit_length
bit_length-zero zero = refl
bit_length-zero (suc fuel) = refl

pub bit_length-le : (fuel n : ℕ) → bit_length fuel n ≤ fuel
unfolding bit_length
bit_length-le zero n = omega arith
bit_length-le (suc fuel) n = ground (arith, bit_length-le fuel (n / 2))

-- A number lies between the powers of two that its bits count.
pub record HasBits (k n : ℕ) : Type 0 where
  pub positive : 1 ≤ k
  pub below : n < 2 ^ k
  pub above : 2 ^ k ≤ 2 * n

one_bit : (fuel n : ℕ) → 0 < n → n / 2 ≡ 0 → HasBits (suc (bit_length fuel (n / 2))) n
one_bit fuel n p h = rw h (
    rw (bit_length-zero fuel)
      (record { positive = omega arith; below = omega arith; above = omega arith }))

pub bit_length-HasBits : (fuel n : ℕ) → 0 < n → n < 2 ^ fuel → HasBits (bit_length fuel n) n
unfolding bit_length
bit_length-HasBits zero n p h = absurd (omega arith)
bit_length-HasBits (suc fuel) n p h = elim (Bool-cases (eqb n 0)) [
  | inl empty ↦ absurd (ground arith)
  | inr some_bits ↦ rw some_bits (elim (Bool-cases (eqb (n / 2) 0)) [
    | inl one ↦ one_bit fuel n p (ground arith)
    | inr more ↦
        let ih =
          bit_length-HasBits fuel (n / 2) (ground arith) (omega (arith, two-pow-succ fuel)) in
        record {
          positive = omega arith;
          below = omega (arith, ih.below, two-pow-succ (bit_length fuel (n / 2)));
          above = omega (arith, ih.above, two-pow-succ (bit_length fuel (n / 2)));
        }
  ])
]

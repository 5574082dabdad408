-- ===== src/Value/Float/Widen.antt =====
-- The cast from f32 to f64 keeps every finite number.
use native.Mathlib.Nat.{mul_assoc, add-mul}
use horaedb_client_rs.Prelude.{
  ℕ, zero, suc, ◌+◌, ◌-◌, ◌*◌, ◌/◌, ◌%◌, ◌^◌, ◌≤◌, ◌<◌, ◌≡◌, ◌≢◌, refl, ap, sym, ◌∙◌, subst,
  Bool-cases, inl, inr, false, eqb, arith,
}
use horaedb_client_rs.Value.Float.{bit_length, widen, widen_magnitude}
use horaedb_client_rs.Value.Float.Bits.{two_pow_add, HasBits, bit_length-HasBits, bit_length-le}
use horaedb_client_rs.Value.Float.Round.{
  scaled, scaled-place, scaled-significand, place-div, place-mod, short_significand,
}

units : (a b c e : ℕ) → a + b ≡ c → 2 ^ a * 2 ^ (e + b) ≡ 2 ^ e * 2 ^ c
units a b c e h = sym (two_pow_add a (e + b)) ∙ ap (λ x. 2 ^ x) (omega arith) ∙ two_pow_add e c

-- What the cast makes of a magnitude: it stays clear of the sign, and 2^925 of the least f64s above zero
-- make the least f32.
record IsWidened (m n : ℕ) : Type 0 where
  room : m < 2 ^ 63
  value : scaled 52 m ≡ scaled 23 n * 2 ^ 925

factor : (a b p q r t : ℕ) → p * q ≡ r * t → (a * p + b * p) * q ≡ (a + b) * r * t
factor a b p q r t h =
    ap (λ x. x * q) (sym (add-mul a b p))
    ∙ mul_assoc (a + b) p q
    ∙ ap (λ x. (a + b) * x) h
    ∙ sym (mul_assoc (a + b) r t)

widen_normal :
    (e fr : ℕ)
    → e < 254
    → fr < 2 ^ 23
    → IsWidened ((suc e + 896) * 2 ^ 52 + fr * 2 ^ 29) (suc e * 2 ^ 23 + fr)
widen_normal e fr le lf = record {
  room = omega arith;
  value =
      ap (λ x. scaled 52 (x * 2 ^ 52 + fr * 2 ^ 29)) (moved e)
      ∙ scaled-place 52 (e + 896) (fr * 2 ^ 29) (omega arith)
      ∙ factor (2 ^ 23) fr (2 ^ 29) (2 ^ (e + 896)) (2 ^ e) (2 ^ 925) (units 29 896 925 e refl)
      ∙ ap (λ x. x * 2 ^ 925) (sym (scaled-place 23 e fr lf));
}
  where
    moved : (x : ℕ) → suc x + 896 ≡ suc (x + 896)
    moved x = omega arith

scaled-small : (fr : ℕ) → fr < 2 ^ 23 → scaled 23 (0 * 2 ^ 23 + fr) ≡ fr
scaled-small fr h = rw (place-div (2 ^ 23) 0 fr h) (place-mod (2 ^ 23) 0 fr h)

widen_small :
    (k fr : ℕ)
    → HasBits k fr
    → k ≤ 23
    → fr < 2 ^ 23
    → IsWidened ((k + 873) * 2 ^ 52 + (fr * 2 ^ (53 - k) - 2 ^ 52)) (0 * 2 ^ 23 + fr)
widen_small k fr h few lf =
    let bounds = short_significand 52 k (53 - k) fr h (omega arith) in
    record {
      room = omega (arith, bounds.1);
      value =
          ap (λ x. scaled 52 (x * 2 ^ 52 + (fr * 2 ^ (53 - k) - 2 ^ 52))) (moved k)
          ∙ scaled-significand 52 (k + 872) (fr * 2 ^ (53 - k)) bounds.0 bounds.1
          ∙ mul_assoc fr (2 ^ (53 - k)) (2 ^ (k + 872))
          ∙ ap (λ x. fr * x) (sym (two_pow_add (53 - k) (k + 872)) ∙ ap (λ x. 2 ^ x) (whole k few))
          ∙ ap (λ x. x * 2 ^ 925) (sym (scaled-small fr lf));
    }
  where
    moved : (x : ℕ) → x + 873 ≡ suc (x + 872)
    moved x = omega arith

    whole : (x : ℕ) → x ≤ 23 → 53 - x + (x + 872) ≡ 925
    whole x q = omega arith

widen_magnitude-IsWidened :
    (e fr : ℕ) → e < 255 → fr < 2 ^ 23 → IsWidened (widen_magnitude e fr) (e * 2 ^ 23 + fr)
unfolding widen_magnitude
widen_magnitude-IsWidened zero fr le lf = elim (Bool-cases (eqb fr 0)) [
  | inl empty ↦ rw empty (
      subst (λ x. IsWidened 0 (0 * 2 ^ 23 + x)) (none_left fr (ground arith))
        (record { room = omega arith; value = refl }))
  | inr full ↦ rw full (
      widen_small (bit_length 23 fr) fr (bit_length-HasBits 23 fr (ground arith) lf)
        (bit_length-le 23 fr) lf)
]
  where
    none_left : (x : ℕ) → x ≡ 0 → 0 ≡ x
    none_left x q = sym q
widen_magnitude-IsWidened (suc e) fr le lf =
    rw (finite e le) (rw (normal e) (widen_normal e fr (omega arith) lf))
  where
    finite : (x : ℕ) → suc x < 255 → eqb (suc x) 255 ≡ false
    finite x q = ground arith

    normal : (x : ℕ) → eqb (suc x) 0 ≡ false
    normal x = ground arith

-- A finite f32 becomes an f64 of the same sign and the same value: 2^925 of the least f64s above zero make
-- the least f32.
pub widen_exact :
    (b : ℕ)
    → b < 2 ^ 32
    → b / 2 ^ 23 % 2 ^ 8 ≢ 255
    → (widen b / 2 ^ 63 ≡ b / 2 ^ 31)
      × (scaled 52 (widen b % 2 ^ 63) ≡ scaled 23 (b % 2 ^ 31) * 2 ^ 925)
unfolding widen
widen_exact b h finite =
    let w =
      widen_magnitude-IsWidened (b / 2 ^ 23 % 2 ^ 8) (b % 2 ^ 23) (omega arith) (omega arith) in
    (
      place-div (2 ^ 63) (b / 2 ^ 31) _ w.room,
      ap (scaled 52) (place-mod (2 ^ 63) (b / 2 ^ 31) _ w.room)
          ∙ w.value
          ∙ ap (λ x. scaled 23 x * 2 ^ 925) (omega arith),
    )

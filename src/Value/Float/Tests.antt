-- ===== src/Value/Float/Tests.antt =====
-- Casts of single numbers.
use horaedb_client_rs.Prelude.{◌≡◌, ◌/◌, ◌^◌, refl, some, pos, negsuc, arith}
use horaedb_client_rs.Value.{Value}
use horaedb_client_rs.Value.Float.Cast.{IsCast, float_casts-IsCast}
use horaedb_client_rs.Value.Float.Widen.{widen_exact}
use horaedb_client_rs.Value.Float.{
  binary32, as_f32, as_f64, of_int, of_nat, significand, round_even, bit_length, widen,
  widen_magnitude,
}

one_as_f32 : as_f32 (Value.int8 (pos 1)) ≡ some 0x3f800000
unfolding as_f32 of_int of_nat significand round_even bit_length
one_as_f32 = refl

minus_two_as_f64 : as_f64 (Value.int64 (negsuc 1)) ≡ some 0xc000000000000000
unfolding as_f64 of_int of_nat significand round_even bit_length
minus_two_as_f64 = refl

-- 2^24 + 1 is halfway between two floats, and goes to the even one.
tie_as_f32 : as_f32 (Value.uint32 16777217) ≡ some 0x4b800000
unfolding as_f32 of_int of_nat significand round_even bit_length
tie_as_f32 = refl

-- The largest u64 rounds up to 2^64.
max_as_f32 : as_f32 (Value.uint64 0xffffffffffffffff) ≡ some 0x5f800000
unfolding as_f32 of_int of_nat significand round_even bit_length
max_as_f32 = refl

max_as_f64 : as_f64 (Value.uint64 0xffffffffffffffff) ≡ some 0x43f0000000000000
unfolding as_f64 of_int of_nat significand round_even bit_length
max_as_f64 = refl

-- The least f32 above zero, the one after 1.0, and minus infinity.
least_as_f64 : as_f64 (Value.float 1) ≡ some 0x36a0000000000000
unfolding as_f64 widen widen_magnitude bit_length
least_as_f64 = refl

next_as_f64 : as_f64 (Value.float 0x3f800001) ≡ some 0x3ff0000020000000
unfolding as_f64 widen widen_magnitude bit_length
next_as_f64 = refl

infinity_as_f64 : as_f64 (Value.float 0xff800000) ≡ some 0xfff0000000000000
unfolding as_f64 widen widen_magnitude bit_length
infinity_as_f64 = refl

-- -(2^24 + 3) is halfway between two floats, and goes to the even one.
float_casts-IsCast_example : IsCast binary32 (negsuc 16777218) 0xcb800002
unfolding as_f32 of_int of_nat significand round_even bit_length
float_casts-IsCast_example =
    (float_casts-IsCast (Value.int32 (negsuc 16777218)) (negsuc 16777218) 0xcb800002
        (omega arith, omega arith) refl).0
      refl

-- -1.5
widen_exact_example : widen 0xbfc00000 / 2 ^ 63 ≡ 0xbfc00000 / 2 ^ 31
widen_exact_example = (widen_exact 0xbfc00000 (omega arith) (omega arith)).0

-- ===== src/Value/Float.antt =====
-- `as_f32` and `as_f64` of `Value` (src/model/value.rs). A float is its IEEE 754 bit pattern; the Rust casts
-- `as` from an integer round to the nearest float, of two as near to the even one, and the cast from f32 to
-- f64 is exact.
pub mod Bits
pub mod Round
pub mod Nearest
pub mod Cast
pub mod Widen
mod Tests
use horaedb_client_rs.Prelude.{
  ℕ, zero, suc, ◌+◌, ◌-◌, ◌*◌, ◌/◌, ◌%◌, ◌^◌, Bool, ◌&&◌, ◌||◌, Option, none, some, ℤ, pos, negsuc,
  eqb, leb, ltb, if◌then◌else◌,
}
use horaedb_client_rs.Value.{Value}

-- The bits of the fraction, the bias of the exponent, and all bits.
pub record Format : Type 0 where
  pub fraction : ℕ
  pub bias : ℕ
  pub width : ℕ

abbrev pub binary32 : Format
binary32 = record { fraction = 23; bias = 127; width = 32 }

abbrev pub binary64 : Format
binary64 = record { fraction = 52; bias = 1023; width = 64 }

-- How many bits a number below 2^fuel has.
unfoldable pub bit_length : ℕ → ℕ → ℕ
bit_length zero n = 0
bit_length (suc fuel) n = let rest = bit_length fuel (n / 2) in if eqb n 0 then 0 else suc rest

-- The multiple of `p` nearest to `n`, as its factor.
unfoldable pub round_even : ℕ → ℕ → ℕ
round_even p n =
    let q = n / p in
    let twice = n % p * 2 in if ltb p twice || (eqb twice p && eqb (q % 2) 1) then suc q else q

-- A number of `k` bits, as the factor of its last place: from 2^fraction up to twice that.
unfoldable pub significand : ℕ → ℕ → ℕ → ℕ
significand fraction k n =
    if leb k (suc fraction)
    then n * 2 ^ (suc fraction - k)
    else round_even (2 ^ (k - suc fraction)) n

-- The bit pattern of a natural number below 2^64. Rounding up to the next power of two carries into the
-- exponent.
unfoldable pub of_nat : Format → ℕ → ℕ
of_nat f n =
    let k = bit_length 64 n in
    let m = significand f.fraction k n in
    if eqb n 0 then 0 else (f.bias + k - 1) * 2 ^ f.fraction + (m - 2 ^ f.fraction)

unfoldable pub of_int : Format → ℤ → ℕ
of_int f (pos n) = of_nat f n
of_int f (negsuc n) = 2 ^ (f.width - 1) + of_nat f (suc n)

-- The f64 of an f32, without its sign, from its exponent and its fraction: infinity and NaN (which is made
-- quiet), zero and the numbers below the normal ones, or a normal number.
unfoldable pub widen_magnitude : ℕ → ℕ → ℕ
widen_magnitude exponent fraction =
    let k = bit_length 23 fraction in
    if eqb exponent 255
    then 2047 * 2 ^ 52
      + (if eqb fraction 0 || leb (2 ^ 22) fraction
          then fraction * 2 ^ 29
          else fraction * 2 ^ 29 + 2 ^ 51)
    else if eqb exponent 0
    then if eqb fraction 0 then 0 else (k + 873) * 2 ^ 52 + (fraction * 2 ^ (53 - k) - 2 ^ 52)
    else (exponent + 896) * 2 ^ 52 + fraction * 2 ^ 29

unfoldable pub widen : ℕ → ℕ
widen b = b / 2 ^ 31 * 2 ^ 63 + widen_magnitude (b / 2 ^ 23 % 2 ^ 8) (b % 2 ^ 23)

unfoldable pub as_f32 : Value → Option ℕ
as_f32 (Value.float v) = some v
as_f32 (Value.uint64 v) = some (of_int binary32 (pos v))
as_f32 (Value.uint32 v) = some (of_int binary32 (pos v))
as_f32 (Value.uint16 v) = some (of_int binary32 (pos v))
as_f32 (Value.uint8 v) = some (of_int binary32 (pos v))
as_f32 (Value.int64 v) = some (of_int binary32 v)
as_f32 (Value.int32 v) = some (of_int binary32 v)
as_f32 (Value.int16 v) = some (of_int binary32 v)
as_f32 (Value.int8 v) = some (of_int binary32 v)
as_f32 _ = none

unfoldable pub as_f64 : Value → Option ℕ
as_f64 (Value.double v) = some v
as_f64 (Value.float v) = some (widen v)
as_f64 (Value.uint64 v) = some (of_int binary64 (pos v))
as_f64 (Value.uint32 v) = some (of_int binary64 (pos v))
as_f64 (Value.uint16 v) = some (of_int binary64 (pos v))
as_f64 (Value.uint8 v) = some (of_int binary64 (pos v))
as_f64 (Value.int64 v) = some (of_int binary64 v)
as_f64 (Value.int32 v) = some (of_int binary64 v)
as_f64 (Value.int16 v) = some (of_int binary64 v)
as_f64 (Value.int8 v) = some (of_int binary64 v)
as_f64 _ = none

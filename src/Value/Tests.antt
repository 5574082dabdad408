-- ===== src/Value/Tests.antt =====
-- The theorems about values at concrete values.
use horaedb_client_rs.Prelude.{
  ◌^◌, ◌≡◌, refl, true, some, Option, [], ◌∷◌, arith, ℤ, pos, negsuc, InSigned,
}
use horaedb_client_rs.Value.{Value}
use horaedb_client_rs.Value.Bytes.{to_bytes, to_bytes-injective}
use horaedb_client_rs.Value.Cast.{
  as_i16, as_u16, as_i32, IsResidue, taken, signed_casts_exact, unsigned_casts-IsResidue,
  casts_widen,
}
use horaedb_client_rs.Value.Proto.{int16_value, from_pb, to_pb, from_pb-to_pb, Wraps, from_pb-Wraps}

from_pb-to_pb_example : from_pb (to_pb (Value.int8 (negsuc 127))) ≡ Value.int8 (negsuc 127)
from_pb-to_pb_example = from_pb-to_pb (Value.int8 (negsuc 127)) (omega arith)

from_pb-Wraps_example : Wraps (int16_value (pos 70000)) (Value.int16 (pos 4464))
unfolding from_pb
from_pb-Wraps_example = from_pb-Wraps (int16_value (pos 70000))

wrapped : from_pb (some (int16_value (pos 70000))) ≡ Value.int16 (pos 4464)
unfolding from_pb
wrapped = refl

little_endian : to_bytes (Value.int32 (negsuc 1)) ≡ 254 ∷ 255 ∷ 255 ∷ 255 ∷ []
unfolding to_bytes
little_endian = refl

to_bytes-injective_example : Value.uint16 258 ≡ Value.uint16 258
to_bytes-injective_example =
    to_bytes-injective (Value.uint16 258) (Value.uint16 258) (omega arith) (omega arith) refl refl

signed_casts_exact_example :
    ◌≡◌ {A = Option ℤ} (some (pos 200)) (some (pos 200)) × InSigned (2 ^ 16) (pos 200)
unfolding as_i16
signed_casts_exact_example = (signed_casts_exact (Value.uint8 200) (pos 200) (omega arith)).1 refl

unsigned_casts-IsResidue_example : IsResidue (2 ^ 16) (negsuc 0) 65535
unfolding as_u16
unsigned_casts-IsResidue_example =
    (unsigned_casts-IsResidue (Value.int8 (negsuc 0)) (negsuc 0) 65535 (omega arith) refl).1 refl

casts_widen_at_sample : taken (as_i16 (Value.uint8 7)) (as_i32 (Value.uint8 7)) ≡ true
casts_widen_at_sample = (casts_widen (Value.uint8 7)).1

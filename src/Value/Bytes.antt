-- ===== src/Value/Bytes.antt =====
-- `Value::to_bytes` (src/model/value.rs): little-endian bytes, of which the tags' key is made.
use mathlib.Core.Path.{ap₂}
use native.Mathlib.Nat.{pow-suc, mod-eq_of_lt}
use horaedb_client_rs.Prelude.{
  ℕ, zero, suc, ◌+◌, ◌*◌, ◌/◌, ◌%◌, ◌^◌, ◌<◌, ◌≡◌, refl, sym, ap, ◌∙◌, List, [], ◌∷◌, true, false,
  arith, ℤ, pos, negsuc, to_unsigned, of_bits, eqb, if◌then◌else◌, InSigned,
}
use horaedb_client_rs.Value.{Value, DataType, InRange, data_type}

-- `to_le_bytes` of an unsigned integer of so many bytes.
pub le_bytes : ℕ → ℕ → List ℕ
le_bytes zero u = []
le_bytes (suc n) u = (u % 256) ∷ le_bytes n (u / 256)

unfoldable pub to_bytes : Value → List ℕ
unfolding le_bytes
to_bytes Value.null = []
to_bytes (Value.timestamp v) = le_bytes 8 (to_unsigned (2 ^ 64) v)
to_bytes (Value.double v) = le_bytes 8 v
to_bytes (Value.float v) = le_bytes 4 v
to_bytes (Value.varbinary v) = v
to_bytes (Value.string v) = v
to_bytes (Value.uint64 v) = le_bytes 8 v
to_bytes (Value.uint32 v) = le_bytes 4 v
to_bytes (Value.uint16 v) = le_bytes 2 v
to_bytes (Value.uint8 v) = le_bytes 1 v
to_bytes (Value.int64 v) = le_bytes 8 (to_unsigned (2 ^ 64) v)
to_bytes (Value.int32 v) = le_bytes 4 (to_unsigned (2 ^ 32) v)
to_bytes (Value.int16 v) = le_bytes 2 (to_unsigned (2 ^ 16) v)
to_bytes (Value.int8 v) = le_bytes 1 (to_unsigned (2 ^ 8) v)
to_bytes (Value.boolean v) = le_bytes 1 (if v then 1 else 0)

-- The number that little-endian bytes stand for.
of_le_bytes : List ℕ → ℕ
of_le_bytes [] = 0
of_le_bytes (b ∷ bs) = b + of_le_bytes bs * 256

of_le_bytes-le_bytes : (n u : ℕ) → u < 256 ^ n → of_le_bytes (le_bytes n u) ≡ u
unfolding of_le_bytes le_bytes
of_le_bytes-le_bytes zero u h = omega arith
of_le_bytes-le_bytes (suc n) u h =
    omega (arith, of_le_bytes-le_bytes n (u / 256) (omega (arith, pow-suc 256 n)))

-- The value of a data type that such bytes stand for.
of_bytes : DataType → List ℕ → Value
unfolding of_le_bytes
of_bytes DataType.null bs = Value.null
of_bytes DataType.timestamp bs = Value.timestamp (of_bits (2 ^ 64) (of_le_bytes bs))
of_bytes DataType.double bs = Value.double (of_le_bytes bs)
of_bytes DataType.float bs = Value.float (of_le_bytes bs)
of_bytes DataType.varbinary bs = Value.varbinary bs
of_bytes DataType.string bs = Value.string bs
of_bytes DataType.uint64 bs = Value.uint64 (of_le_bytes bs)
of_bytes DataType.uint32 bs = Value.uint32 (of_le_bytes bs)
of_bytes DataType.uint16 bs = Value.uint16 (of_le_bytes bs)
of_bytes DataType.uint8 bs = Value.uint8 (of_le_bytes bs)
of_bytes DataType.int64 bs = Value.int64 (of_bits (2 ^ 64) (of_le_bytes bs))
of_bytes DataType.int32 bs = Value.int32 (of_bits (2 ^ 32) (of_le_bytes bs))
of_bytes DataType.int16 bs = Value.int16 (of_bits (2 ^ 16) (of_le_bytes bs))
of_bytes DataType.int8 bs = Value.int8 (of_bits (2 ^ 8) (of_le_bytes bs))
of_bytes DataType.boolean bs = Value.boolean (eqb (of_le_bytes bs) 1)

-- A signed integer is read back from its bit pattern.
of_bits-to_unsigned :
    (m : ℕ) (z : ℤ) → InSigned m z → (of_bits m (to_unsigned m z) ≡ z) × (to_unsigned m z < m)
of_bits-to_unsigned m (pos n) h = grind (arith, mod-eq_of_lt)
of_bits-to_unsigned m (negsuc n) h = grind (arith, mod-eq_of_lt)

signed_bytes :
    (n : ℕ) (z : ℤ)
    → InSigned (256 ^ n) z
    → of_bits (256 ^ n) (of_le_bytes (le_bytes n (to_unsigned (256 ^ n) z))) ≡ z
signed_bytes n z h =
    ap (of_bits (256 ^ n)) (of_le_bytes-le_bytes n _ (of_bits-to_unsigned (256 ^ n) z h).1)
    ∙ (of_bits-to_unsigned (256 ^ n) z h).0

-- The bytes determine the value within its data type.
of_bytes-to_bytes : (v : Value) → InRange v → of_bytes (data_type v) (to_bytes v) ≡ v
unfolding of_bytes to_bytes data_type
of_bytes-to_bytes Value.null h = refl
of_bytes-to_bytes (Value.timestamp v) h = ap Value.timestamp (signed_bytes 8 v h)
of_bytes-to_bytes (Value.double v) h = ap Value.double (of_le_bytes-le_bytes 8 v h)
of_bytes-to_bytes (Value.float v) h = ap Value.float (of_le_bytes-le_bytes 4 v h)
of_bytes-to_bytes (Value.varbinary v) h = refl
of_bytes-to_bytes (Value.string v) h = refl
of_bytes-to_bytes (Value.uint64 v) h = ap Value.uint64 (of_le_bytes-le_bytes 8 v h)
of_bytes-to_bytes (Value.uint32 v) h = ap Value.uint32 (of_le_bytes-le_bytes 4 v h)
of_bytes-to_bytes (Value.uint16 v) h = ap Value.uint16 (of_le_bytes-le_bytes 2 v h)
of_bytes-to_bytes (Value.uint8 v) h = ap Value.uint8 (of_le_bytes-le_bytes 1 v h)
of_bytes-to_bytes (Value.int64 v) h = ap Value.int64 (signed_bytes 8 v h)
of_bytes-to_bytes (Value.int32 v) h = ap Value.int32 (signed_bytes 4 v h)
of_bytes-to_bytes (Value.int16 v) h = ap Value.int16 (signed_bytes 2 v h)
of_bytes-to_bytes (Value.int8 v) h = ap Value.int8 (signed_bytes 1 v h)
of_bytes-to_bytes (Value.boolean true) h = refl
of_bytes-to_bytes (Value.boolean false) h = refl

-- Two values of one data type, each in the range of that type, with the same bytes are the same
-- value.
pub to_bytes-injective :
    (v w : Value)
    → InRange v
    → InRange w
    → data_type v ≡ data_type w
    → to_bytes v ≡ to_bytes w
    → v ≡ w
to_bytes-injective v w hv hw d e =
    sym (of_bytes-to_bytes v hv) ∙ ap₂ of_bytes d e ∙ of_bytes-to_bytes w hw

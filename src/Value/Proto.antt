-- ===== src/Value/Proto.antt =====
-- The two conversions between `Value` and the protobuf value (`impl From` in src/model/value.rs).
-- The protobuf message is an optional payload; its small integers travel in 32 bits.
use horaedb_client_rs.Prelude.{
  ℕ, ◌+◌, ◌*◌, ◌/◌, ◌%◌, ◌^◌, ◌<◌, ◌≡◌, refl, Bool, Option, none, some, List, arith, ℤ, Str,
  InSigned, to_signed, to_unsigned,
}
use horaedb_client_rs.Value.{Value, InRange}

pub data Payload : Type 0 where
  timestamp_value : ℤ → Payload
  float64_value : ℕ → Payload
  float32_value : ℕ → Payload
  varbinary_value : List ℕ → Payload
  string_value : Str → Payload
  uint64_value : ℕ → Payload
  uint32_value : ℕ → Payload
  uint16_value : ℕ → Payload
  uint8_value : ℕ → Payload
  int64_value : ℤ → Payload
  int32_value : ℤ → Payload
  int16_value : ℤ → Payload
  int8_value : ℤ → Payload
  bool_value : Bool → Payload

abbrev pub ValuePb : Type 0
ValuePb = Option Payload

-- `From<Value> for ValuePb`; `.into()` widens without change.
unfoldable pub to_pb : Value → ValuePb
to_pb Value.null = none
to_pb (Value.timestamp v) = some (timestamp_value v)
to_pb (Value.double v) = some (float64_value v)
to_pb (Value.float v) = some (float32_value v)
to_pb (Value.varbinary v) = some (varbinary_value v)
to_pb (Value.string v) = some (string_value v)
to_pb (Value.uint64 v) = some (uint64_value v)
to_pb (Value.uint32 v) = some (uint32_value v)
to_pb (Value.uint16 v) = some (uint16_value v)
to_pb (Value.uint8 v) = some (uint8_value v)
to_pb (Value.int64 v) = some (int64_value v)
to_pb (Value.int32 v) = some (int32_value v)
to_pb (Value.int16 v) = some (int16_value v)
to_pb (Value.int8 v) = some (int8_value v)
to_pb (Value.boolean v) = some (bool_value v)

-- `From<ValuePb> for Value`; the casts `as i16` and the like wrap.
unfoldable pub from_pb : ValuePb → Value
from_pb none = Value.null
from_pb (some (float64_value v)) = Value.double v
from_pb (some (string_value v)) = Value.string v
from_pb (some (int64_value v)) = Value.int64 v
from_pb (some (float32_value v)) = Value.float v
from_pb (some (int32_value v)) = Value.int32 v
from_pb (some (int16_value v)) = Value.int16 (to_signed (2 ^ 16) v)
from_pb (some (int8_value v)) = Value.int8 (to_signed (2 ^ 8) v)
from_pb (some (bool_value v)) = Value.boolean v
from_pb (some (uint64_value v)) = Value.uint64 v
from_pb (some (uint32_value v)) = Value.uint32 v
from_pb (some (uint16_value v)) = Value.uint16 (v % 2 ^ 16)
from_pb (some (uint8_value v)) = Value.uint8 (v % 2 ^ 8)
from_pb (some (timestamp_value v)) = Value.timestamp v
from_pb (some (varbinary_value v)) = Value.varbinary v

-- A value that its Rust type allows comes back unchanged from its protobuf message.
pub from_pb-to_pb : (v : Value) → InRange v → from_pb (to_pb v) ≡ v
unfolding from_pb to_pb
from_pb-to_pb Value.null h = refl
from_pb-to_pb (Value.uint16 v) h = ground arith
from_pb-to_pb (Value.uint8 v) h = ground arith
from_pb-to_pb (Value.int16 v) h = ground arith
from_pb-to_pb (Value.int8 v) h = ground arith
from_pb-to_pb v h = refl

-- What a payload is read as: a value of its own type. The small integers are the ones of their width with
-- the same bits at the low end, all else is the number or the bytes of the payload.
abbrev pub Wraps : Payload → Value → Type 0
Wraps (timestamp_value v) (Value.timestamp u) = u ≡ v
Wraps (float64_value v) (Value.double u) = u ≡ v
Wraps (float32_value v) (Value.float u) = u ≡ v
Wraps (varbinary_value v) (Value.varbinary u) = u ≡ v
Wraps (string_value v) (Value.string u) = u ≡ v
Wraps (uint64_value v) (Value.uint64 u) = u ≡ v
Wraps (uint32_value v) (Value.uint32 u) = u ≡ v
Wraps (uint16_value v) (Value.uint16 u) = (u < 2 ^ 16) × ((k : ℕ) × (v ≡ u + k * 2 ^ 16))
Wraps (uint8_value v) (Value.uint8 u) = (u < 2 ^ 8) × ((k : ℕ) × (v ≡ u + k * 2 ^ 8))
Wraps (int64_value v) (Value.int64 u) = u ≡ v
Wraps (int32_value v) (Value.int32 u) = u ≡ v
Wraps (int16_value v) (Value.int16 u) =
    InSigned (2 ^ 16) u × (to_unsigned (2 ^ 16) u ≡ to_unsigned (2 ^ 16) v)
Wraps (int8_value v) (Value.int8 u) =
    InSigned (2 ^ 8) u × (to_unsigned (2 ^ 8) u ≡ to_unsigned (2 ^ 8) v)
Wraps (bool_value v) (Value.boolean u) = u ≡ v
Wraps _ _ = ⊥

-- Whatever the payload, it is read as a value of its type with the same content, but a small integer that
-- is too large for its type is wrapped: it becomes the one in range that differs from it by a multiple of
-- the width, or for the signed ones has the same low bits.
pub from_pb-Wraps : (p : Payload) → Wraps p (from_pb (some p))
unfolding from_pb
from_pb-Wraps (uint16_value v) = (omega arith, (v / 2 ^ 16, omega arith))
from_pb-Wraps (uint8_value v) = (omega arith, (v / 2 ^ 8, omega arith))
from_pb-Wraps (int16_value v) = ground arith
from_pb-Wraps (int8_value v) = ground arith
from_pb-Wraps (timestamp_value v) = refl
from_pb-Wraps (float64_value v) = refl
from_pb-Wraps (float32_value v) = refl
from_pb-Wraps (varbinary_value v) = refl
from_pb-Wraps (string_value v) = refl
from_pb-Wraps (uint64_value v) = refl
from_pb-Wraps (uint32_value v) = refl
from_pb-Wraps (int64_value v) = refl
from_pb-Wraps (int32_value v) = refl
from_pb-Wraps (bool_value v) = refl

-- ===== src/Value.antt =====
-- src/model/value.rs: the values of HoraeDB and their data types. Integers are ℤ or ℕ with the range of
-- their width (`InRange`); a float is its bit pattern; texts and binaries are their bytes.
pub mod Bytes
pub mod Cast
pub mod Float
pub mod Proto
mod Tests
use horaedb_client_rs.Prelude.{ℕ, ◌^◌, ◌<◌, Bool, true, false, List, All, ℤ, Str, InSigned}

-- `TimestampMs`
abbrev pub TimestampMs : Type 0
TimestampMs = ℤ

pub data Value : Type 0 where
  null : Value
  timestamp : TimestampMs → Value
  double : ℕ → Value
  float : ℕ → Value
  varbinary : List ℕ → Value
  string : Str → Value
  uint64 : ℕ → Value
  uint32 : ℕ → Value
  uint16 : ℕ → Value
  uint8 : ℕ → Value
  int64 : ℤ → Value
  int32 : ℤ → Value
  int16 : ℤ → Value
  int8 : ℤ → Value
  boolean : Bool → Value

pub data DataType : Type 0 where
  null timestamp double float varbinary string uint64 uint32 uint16 uint8 : DataType
  int64 int32 int16 int8 boolean : DataType

unfoldable pub data_type : Value → DataType
data_type Value.null = DataType.null
data_type (Value.timestamp v) = DataType.timestamp
data_type (Value.double v) = DataType.double
data_type (Value.float v) = DataType.float
data_type (Value.varbinary v) = DataType.varbinary
data_type (Value.string v) = DataType.string
data_type (Value.uint64 v) = DataType.uint64
data_type (Value.uint32 v) = DataType.uint32
data_type (Value.uint16 v) = DataType.uint16
data_type (Value.uint8 v) = DataType.uint8
data_type (Value.int64 v) = DataType.int64
data_type (Value.int32 v) = DataType.int32
data_type (Value.int16 v) = DataType.int16
data_type (Value.int8 v) = DataType.int8
data_type (Value.boolean v) = DataType.boolean

unfoldable pub is_null : Value → Bool
is_null Value.null = true
is_null _ = false

-- What the Rust types of the payloads promise.
abbrev pub InRange : Value → Type 0
InRange Value.null = Unit
InRange (Value.timestamp v) = InSigned (2 ^ 64) v
InRange (Value.double v) = v < 2 ^ 64
InRange (Value.float v) = v < 2 ^ 32
InRange (Value.varbinary v) = All (λ b. b < 256) v
InRange (Value.string v) = All (λ b. b < 256) v
InRange (Value.uint64 v) = v < 2 ^ 64
InRange (Value.uint32 v) = v < 2 ^ 32
InRange (Value.uint16 v) = v < 2 ^ 16
InRange (Value.uint8 v) = v < 2 ^ 8
InRange (Value.int64 v) = InSigned (2 ^ 64) v
InRange (Value.int32 v) = InSigned (2 ^ 32) v
InRange (Value.int16 v) = InSigned (2 ^ 16) v
InRange (Value.int8 v) = InSigned (2 ^ 8) v
InRange (Value.boolean v) = Unit

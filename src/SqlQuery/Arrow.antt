-- ===== src/SqlQuery/Arrow.antt =====
-- What src/model/sql_query calls of the crates arrow and zstd, as an interface. `none` is a panic.
use horaedb_client_rs.Prelude.{ℕ, Bool, Option, List, Str, ℤ, ◌⊎◌}

pub data TimeUnit : Type 0 where
  second millisecond microsecond nanosecond : TimeUnit

-- arrow's `DataType`, with the cases that the client names; the rest are `others`.
pub data ArrowType : Type 0 where
  null boolean int8 int16 int32 int64 uint8 uint16 uint32 uint64 float32 float64 : ArrowType
  utf8 large_utf8 binary large_binary : ArrowType
  timestamp : TimeUnit → Option Str → ArrowType
  time32 : TimeUnit → ArrowType
  dictionary : ArrowType → ArrowType → ArrowType
  others : Str → ArrowType

-- The array types that the client casts a column to, `dictionary_array` for a dictionary of texts under
-- `Int32Type` keys.
pub data ArrayKind : Type 0 where
  boolean_array int8_array int16_array int32_array int64_array : ArrayKind
  uint8_array uint16_array uint32_array uint64_array float32_array float64_array : ArrayKind
  string_array binary_array timestamp_millisecond_array time32_millisecond_array : ArrayKind
  dictionary_array : ArrayKind

abbrev pub Elem : ArrayKind → Type 0
Elem ArrayKind.boolean_array = Bool
Elem ArrayKind.int8_array = ℤ
Elem ArrayKind.int16_array = ℤ
Elem ArrayKind.int32_array = ℤ
Elem ArrayKind.int64_array = ℤ
Elem ArrayKind.uint8_array = ℕ
Elem ArrayKind.uint16_array = ℕ
Elem ArrayKind.uint32_array = ℕ
Elem ArrayKind.uint64_array = ℕ
Elem ArrayKind.float32_array = ℕ
Elem ArrayKind.float64_array = ℕ
Elem ArrayKind.string_array = Str
Elem ArrayKind.binary_array = List ℕ
Elem ArrayKind.timestamp_millisecond_array = ℤ
Elem ArrayKind.time32_millisecond_array = ℤ
Elem ArrayKind.dictionary_array = Str

-- `X` is the type of the errors of the crates.
pub record Arrow (X : Type 0) : Type 1 where
  pub RecordBatch : Type 0
  pub ArrayRef : Type 0
  -- The names of the fields of the schema.
  pub field_names : RecordBatch → List Str
  pub num_columns : RecordBatch → ℕ
  pub num_rows : RecordBatch → ℕ
  pub column : RecordBatch → ℕ → Option ArrayRef
  pub array_type : ArrayRef → ArrowType
  pub show_type : ArrowType → Str
  -- `downcast_ref`, or `as_dictionary` with `downcast_dict`.
  pub downcast : (k : ArrayKind) → ArrayRef → Option (ℕ → Option (Elem k))
  -- `zstd::stream::decode_all`.
  pub decode_all : List ℕ → (List ℕ) ⊎ X
  -- `StreamReader::try_new`, and the batches or errors that the reader then yields.
  pub try_new : List ℕ → (List (RecordBatch ⊎ X)) ⊎ X

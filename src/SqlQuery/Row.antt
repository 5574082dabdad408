-- ===== src/SqlQuery/Row.antt =====
-- src/model/sql_query/row.rs: rows, and how they are built from a record batch.
pub mod Cells
pub mod Types
mod Fixture
pub mod Laws
use horaedb_client_rs.Prelude.{
  ◌>>=◌, ℕ, zero, suc, Bool, Option, none, some, List, [], ◌∷◌, ◌++◌, map, Str, ◌==◌, str_eq, bytes,
  replicate, length, get_elem?, if◌then◌else◌, ℤ,
}
use horaedb_client_rs.Errors.{Error, Result}
use horaedb_client_rs.Value.{Value}
use horaedb_client_rs.SqlQuery.Arrow.{Arrow, ArrowType, TimeUnit, ArrayKind, Elem}

pub record Column : Type 0 where
  pub name : Str
  pub value : Value

pub record Row : Type 0 where
  pub columns : List Column

abbrev find_column : Str → List Column → Option Column
find_column name [] = none
find_column name (c ∷ cs) = if c.name == name then some c else find_column name cs

-- `Row::column`
unfoldable pub column : Row → Str → Option Column
column row name = find_column name row.columns

pub record RowBuilder : Type 0 where
  pub col_idx_to_name : List Str
  pub row_values : List (List Value)

-- One row of `build`: each value under the name of its place. `none` is the panic of indexing.
unfoldable pub name_columns : List Str → ℕ → List Value → Option (List Column)
name_columns names col_idx [] = some []
name_columns names col_idx (value ∷ values) = do
  name ← get_elem? names col_idx
  columns ← name_columns names (suc col_idx) values
  some (record { name = name; value = value } ∷ columns)

unfoldable pub build_rows : List Str → List (List Value) → Option (List Row)
build_rows names [] = some []
build_rows names (row ∷ rows) = do
  columns ← name_columns names 0 row
  rest ← build_rows names rows
  some (record { columns = columns } ∷ rest)

unfoldable pub build : RowBuilder → Option (List Row)
unfolding build_rows
build b = build_rows b.col_idx_to_name b.row_values

-- `*row.get_mut(col_idx).unwrap() = value`
unfoldable pub set_cell : List Value → ℕ → Value → Option (List Value)
set_cell [] col_idx value = none
set_cell (v ∷ row) zero value = some (value ∷ row)
set_cell (v ∷ row) (suc col_idx) value = do rest ← set_cell row col_idx value; some (v ∷ rest)

-- The loop of `fill_column!`, from row `row_idx` on.
unfoldable pub fill_from :
    {E : Type 0}
    → (ℕ → Option E)
    → (E → Value)
    → ℕ
    → List (List Value)
    → ℕ
    → Option (List (List Value))
fill_from value wrap row_idx [] col_idx = some []
fill_from value wrap row_idx (row ∷ rows) col_idx = do
  v ← value row_idx
  filled ← set_cell row col_idx (wrap v)
  rest ← fill_from value wrap (suc row_idx) rows col_idx
  some (filled ∷ rest)

-- The value that a cell of an array becomes.
abbrev pub wrap : (k : ArrayKind) → Elem k → Value
wrap ArrayKind.boolean_array v = Value.boolean v
wrap ArrayKind.int8_array v = Value.int8 v
wrap ArrayKind.int16_array v = Value.int16 v
wrap ArrayKind.int32_array v = Value.int32 v
wrap ArrayKind.int64_array v = Value.int64 v
wrap ArrayKind.uint8_array v = Value.uint8 v
wrap ArrayKind.uint16_array v = Value.uint16 v
wrap ArrayKind.uint32_array v = Value.uint32 v
wrap ArrayKind.uint64_array v = Value.uint64 v
wrap ArrayKind.float32_array v = Value.float v
wrap ArrayKind.float64_array v = Value.double v
wrap ArrayKind.string_array v = Value.string v
wrap ArrayKind.binary_array v = Value.varbinary v
wrap ArrayKind.timestamp_millisecond_array v = Value.timestamp v
wrap ArrayKind.time32_millisecond_array v = Value.timestamp v
wrap ArrayKind.dictionary_array v = Value.string v

-- The arms of the match of `fill_column_in_row_batch`.
pub data Arm : Type 0 where
  nothing unsupported : Arm
  cast : ArrayKind → Arm

unfoldable pub arm_of : ArrowType → Arm
arm_of ArrowType.null = Arm.nothing
arm_of ArrowType.boolean = Arm.cast ArrayKind.boolean_array
arm_of ArrowType.int8 = Arm.cast ArrayKind.int8_array
arm_of ArrowType.int16 = Arm.cast ArrayKind.int16_array
arm_of ArrowType.int32 = Arm.cast ArrayKind.int32_array
arm_of ArrowType.int64 = Arm.cast ArrayKind.int64_array
arm_of ArrowType.uint8 = Arm.cast ArrayKind.uint8_array
arm_of ArrowType.uint16 = Arm.cast ArrayKind.uint16_array
arm_of ArrowType.uint32 = Arm.cast ArrayKind.uint32_array
arm_of ArrowType.uint64 = Arm.cast ArrayKind.uint64_array
arm_of ArrowType.float32 = Arm.cast ArrayKind.float32_array
arm_of ArrowType.float64 = Arm.cast ArrayKind.float64_array
arm_of ArrowType.utf8 = Arm.cast ArrayKind.string_array
arm_of ArrowType.large_utf8 = Arm.cast ArrayKind.string_array
arm_of ArrowType.binary = Arm.cast ArrayKind.binary_array
arm_of ArrowType.large_binary = Arm.cast ArrayKind.binary_array
arm_of (ArrowType.timestamp TimeUnit.millisecond tz) =
    Arm.cast ArrayKind.timestamp_millisecond_array
arm_of (ArrowType.timestamp _ tz) = Arm.unsupported
arm_of (ArrowType.time32 TimeUnit.millisecond) = Arm.cast ArrayKind.time32_millisecond_array
arm_of (ArrowType.time32 _) = Arm.unsupported
arm_of (ArrowType.dictionary ArrowType.int32 ArrowType.utf8) = Arm.cast ArrayKind.dictionary_array
arm_of (ArrowType.dictionary _ _) = Arm.unsupported
arm_of (ArrowType.others name) = Arm.unsupported

module _ {X : Type 0} (arrow : Arrow X) where
  abbrev fill_arm :
      Arm → List (List Value) → ℕ → arrow.ArrayRef → Option (Result X (List (List Value)))
  fill_arm Arm.nothing rows col_idx array = some (Result.ok rows)
  fill_arm Arm.unsupported rows col_idx array = some (
      Result.err (
        Error.build_rows
          (bytes "Unsupported arrow type:" ++ arrow.show_type (arrow.array_type array))))
  fill_arm (Arm.cast k) rows col_idx array = do
    value ← arrow.downcast k array
    filled ← fill_from value (wrap k) 0 rows col_idx
    some (Result.ok filled)

  unfoldable pub fill_column_in_row_batch :
      List (List Value) → ℕ → arrow.ArrayRef → Option (Result X (List (List Value)))
  fill_column_in_row_batch rows col_idx array =
      fill_arm (arm_of (arrow.array_type array)) rows col_idx array

  -- The loop of `with_arrow_record_batch` over the columns, from `col_idx` on.
  unfoldable pub fill_columns :
      arrow.RecordBatch → ℕ → ℕ → List (List Value) → Option (Result X (List (List Value)))
  fill_columns batch zero col_idx rows = some (Result.ok rows)
  fill_columns batch (suc left) col_idx rows = do
    array ← arrow.column batch col_idx
    filled ← fill_column_in_row_batch rows col_idx array
    elim filled [
      | Result.err e ↦ some (Result.err e)
      | Result.ok rows' ↦ fill_columns batch left (suc col_idx) rows'
    ]

  abbrev builder_of : List Str → Result X (List (List Value)) → Result X RowBuilder
  builder_of names (Result.err e) = Result.err e
  builder_of names (Result.ok rows) =
      Result.ok (record { col_idx_to_name = names; row_values = rows })

  unfoldable pub with_arrow_record_batch : arrow.RecordBatch → Option (Result X RowBuilder)
  with_arrow_record_batch batch = do
    rows ←
        fill_columns batch (arrow.num_columns batch) 0
          (replicate (arrow.num_rows batch) (replicate (arrow.num_columns batch) Value.null))
    some (builder_of (arrow.field_names batch) rows)

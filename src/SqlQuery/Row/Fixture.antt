-- ===== src/SqlQuery/Row/Fixture.antt =====
-- The test `test_build_row` of src/model/sql_query/row.rs, with arrays that are lists.
use horaedb_client_rs.Prelude.{
  ◌>>=◌, ℕ, ◌≡◌, refl, Option, none, some, List, [], ◌∷◌, map, Str, bytes, ℤ, pos, length,
  get_elem?, inr,
}
use mathlib.Core.Option
use horaedb_client_rs.Errors.{Result}
use horaedb_client_rs.Value.{Value}
use horaedb_client_rs.SqlQuery.Arrow.{Arrow, ArrowType, TimeUnit, ArrayKind, Elem}
use horaedb_client_rs.SqlQuery.Row
use horaedb_client_rs.SqlQuery.Row.{
  Column, Row, RowBuilder, arm_of, set_cell, fill_from, fill_column_in_row_batch, fill_columns,
  with_arrow_record_batch, name_columns,
}

-- The arrays of the test.
data TestArray : Type 0 where
  int32 : List ℤ → TestArray
  texts : List Str → TestArray
  binaries : List (List ℕ) → TestArray
  timestamps : List ℤ → TestArray
  times32 : List ℤ → TestArray
  dictionary : List Str → TestArray

abbrev type_of : TestArray → ArrowType
type_of (int32 l) = ArrowType.int32
type_of (texts l) = ArrowType.utf8
type_of (binaries l) = ArrowType.binary
type_of (timestamps l) = ArrowType.timestamp TimeUnit.millisecond none
type_of (times32 l) = ArrowType.time32 TimeUnit.millisecond
type_of (dictionary l) = ArrowType.dictionary ArrowType.int32 ArrowType.utf8

abbrev downcast_array : (k : ArrayKind) → TestArray → Option (ℕ → Option (Elem k))
downcast_array ArrayKind.int32_array (int32 l) = some (get_elem? l)
downcast_array ArrayKind.string_array (texts l) = some (get_elem? l)
downcast_array ArrayKind.binary_array (binaries l) = some (get_elem? l)
downcast_array ArrayKind.timestamp_millisecond_array (timestamps l) = some (get_elem? l)
downcast_array ArrayKind.time32_millisecond_array (times32 l) = some (get_elem? l)
downcast_array ArrayKind.dictionary_array (dictionary l) = some (get_elem? l)
downcast_array _ _ = none

abbrev three_rows : Arrow Unit
three_rows = record {
  RecordBatch = List (Str × TestArray);
  ArrayRef = TestArray;
  field_names = λ b. map (λ (c : Str × TestArray). c.0) b;
  num_columns = λ b. length b;
  num_rows = λ b. 3;
  column = λ b i. Option.map (λ (c : Str × TestArray). c.1) (get_elem? b i);
  array_type = type_of;
  show_type = λ t. [];
  downcast = downcast_array;
  decode_all = λ b. inr tt;
  try_new = λ b. inr tt;
}

abbrev int_values : List ℤ
int_values = pos 1 ∷ pos 2 ∷ pos 3 ∷ []

abbrev string_values : List Str
string_values = bytes "test1" ∷ bytes "test2" ∷ bytes "test3" ∷ []

abbrev binary_values : List (List ℕ)
binary_values = bytes "0.1" ∷ bytes "0.2" ∷ bytes "0.3" ∷ []

abbrev timestamp_values : List ℤ
timestamp_values = pos 1001 ∷ pos 1002 ∷ pos 1003 ∷ []

abbrev timestamp32_values : List ℤ
timestamp32_values = pos 1004 ∷ pos 1005 ∷ pos 1006 ∷ []

abbrev arrow_batch : List (Str × TestArray)
arrow_batch =
    (bytes "int", int32 int_values)
    ∷ (bytes "string", texts string_values)
    ∷ (bytes "varbinary", binaries binary_values)
    ∷ (bytes "timestamp", timestamps timestamp_values)
    ∷ (bytes "timestamp32", times32 timestamp32_values)
    ∷ (bytes "string_dictionary", dictionary string_values)
    ∷ []

abbrev built_of : Result Unit RowBuilder → Option (List Row)
built_of (Result.err e) = none
built_of (Result.ok b) = Row.build b

-- What the test builds; `none` is a panic.
unfoldable built_rows : Option (List Row)
built_rows = do built ← with_arrow_record_batch three_rows arrow_batch; built_of built

abbrev expected_row : ℤ → Str → List ℕ → ℤ → ℤ → Row
expected_row i s b ts ts32 = record {
  columns =
      record { name = bytes "int"; value = Value.int32 i }
      ∷ record { name = bytes "string"; value = Value.string s }
      ∷ record { name = bytes "varbinary"; value = Value.varbinary b }
      ∷ record { name = bytes "timestamp"; value = Value.timestamp ts }
      ∷ record { name = bytes "timestamp32"; value = Value.timestamp ts32 }
      ∷ record { name = bytes "string_dictionary"; value = Value.string s }
      ∷ [];
}

abbrev expected_rows : List Row
expected_rows =
    expected_row (pos 1) (bytes "test1") (bytes "0.1") (pos 1001) (pos 1004)
    ∷ expected_row (pos 2) (bytes "test2") (bytes "0.2") (pos 1002) (pos 1005)
    ∷ expected_row (pos 3) (bytes "test3") (bytes "0.3") (pos 1003) (pos 1006)
    ∷ []

rows_match : built_rows ≡ some expected_rows
unfolding built_rows with_arrow_record_batch fill_columns fill_column_in_row_batch fill_from
    set_cell arm_of Row.build Row.build_rows name_columns
rows_match = refl

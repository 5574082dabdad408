-- ===== src/SqlQuery/Tests.antt =====
-- A query whose answer is one batch with one column of integers.
use mathlib.Core.Option.{get_or}
use mathlib.Core.Option
use horaedb_client_rs.Prelude.{
  ℕ, ◌≡◌, refl, ap, arith, Option, none, some, List, [], ◌∷◌, ◌++◌, ◌+◌, map, Str, bytes, ℤ, pos,
  length, get_elem?, get_elem?_total, inl, inr,
}
use horaedb_client_rs.Errors.{Result}
use horaedb_client_rs.Value.{Value}
use horaedb_client_rs.SqlQuery.Arrow.{Arrow, ArrowType, ArrayKind, Elem}
use horaedb_client_rs.SqlQuery.Messages.{ArrowPayload, OutputPb, Compression}
use horaedb_client_rs.SqlQuery.Row.{Row, with_arrow_record_batch}
use horaedb_client_rs.SqlQuery.Row.Cells.{Holds}
use horaedb_client_rs.SqlQuery.Row.Types.{int32s}
use horaedb_client_rs.SqlQuery.Row.Laws.{BatchHolds, elements, with_arrow_record_batch-reads}
use horaedb_client_rs.SqlQuery.Response.{decode_arrow_payload, try_from}
use horaedb_client_rs.SqlQuery.Display.{fmt, fmt_rows, fmt_names, fmt_values}
use horaedb_client_rs.SqlQuery.Display.Laws.{read_csv, read_csv-fmt}
use horaedb_client_rs.SqlQuery.Response.Laws.{try_from-reads}

abbrev Batch : Type 0
Batch = List (Str × List ℤ)

abbrev downcast_int32 : (k : ArrayKind) → List ℤ → Option (ℕ → Option (Elem k))
downcast_int32 ArrayKind.int32_array l = some (get_elem? l)
downcast_int32 _ l = none

abbrev values : List ℤ
values = pos 5 ∷ pos 6 ∷ []

abbrev sample_batch : Batch
sample_batch = (bytes "n", values) ∷ []

-- An arrow with arrays of 32-bit integers, all of whose streams have this one batch.
abbrev sample_arrow : Arrow Unit
sample_arrow = record {
  RecordBatch = Batch;
  ArrayRef = List ℤ;
  field_names = λ b. map (λ (c : Str × List ℤ). c.0) b;
  num_columns = λ b. length b;
  num_rows = λ b. 2;
  column = λ b i. Option.map (λ (c : Str × List ℤ). c.1) (get_elem? b i);
  array_type = λ a. ArrowType.int32;
  show_type = λ t. [];
  downcast = downcast_int32;
  decode_all = λ b. inr tt;
  try_new = λ b. inl (inl sample_batch ∷ []);
}

abbrev cell : ℕ → Value
cell i = Value.int32 (get_or (get_elem? values i) (pos 0))

cell-Holds : Holds (get_elem? values) Value.int32 0 2 cell
cell-Holds i lo hi =
    let (v, e) = get_elem?_total values i (omega arith) in
    (v, (e, ap (λ o. Value.int32 (get_or o (pos 0))) e))

batch_holds : BatchHolds Unit sample_arrow sample_batch 2 0 (cell ∷ [])
batch_holds = (
  (
    values,
    (refl, elements ArrayKind.int32_array Value.int32 (get_elem? values) int32s refl cell-Holds),
  ),
  tt,
)

abbrev sample_payload : ArrowPayload
sample_payload = record { record_batches = [] ∷ []; compression = Compression.none }

decoded : decode_arrow_payload sample_arrow sample_payload ≡ Result.ok (sample_batch ∷ [])
unfolding decode_arrow_payload
decoded = refl

with_arrow_record_batch-reads_at_sample :
    with_arrow_record_batch sample_arrow sample_batch
    ≡ some (
        Result.ok (record {
          col_idx_to_name = bytes "n" ∷ [];
          row_values = (Value.int32 (pos 5) ∷ []) ∷ (Value.int32 (pos 6) ∷ []) ∷ [];
        }))
with_arrow_record_batch-reads_at_sample =
    with_arrow_record_batch-reads Unit sample_arrow sample_batch (cell ∷ []) refl batch_holds

try_from-reads_example :
    try_from sample_arrow (some (OutputPb.arrow sample_payload))
    ≡ some (
        Result.ok (record {
          affected_rows = 0;
          rows =
              record { columns = record { name = bytes "n"; value = Value.int32 (pos 5) } ∷ [] }
              ∷ record { columns = record { name = bytes "n"; value = Value.int32 (pos 6) } ∷ [] }
              ∷ [];
        }))
try_from-reads_example =
    try_from-reads Unit sample_arrow sample_payload (sample_batch ∷ []) ((cell ∷ []) ∷ []) decoded
      ((refl, (refl, batch_holds)), tt)

abbrev sample_rows : List Row
sample_rows =
    record { columns = record { name = bytes "n"; value = Value.int32 (pos 5) } ∷ [] }
    ∷ record { columns = record { name = bytes "n"; value = Value.int32 (pos 6) } ∷ [] }
    ∷ []

abbrev debug : Value → Str
debug (Value.int32 (pos n)) = bytes "Int32(" ++ (b'0' + n) ∷ bytes ")"
debug _ = bytes "Null"

read_csv-fmt_example :
    read_csv (fmt debug sample_rows) [] []
    ≡ (bytes "n" ∷ []) ∷ (bytes "Int32(5)" ∷ []) ∷ (bytes "Int32(6)" ∷ []) ∷ []
read_csv-fmt_example = read_csv-fmt debug sample_rows (refl, tt) ((refl, tt), ((refl, tt), tt))

fmt_at_sample : fmt debug sample_rows ≡ bytes "n,\nInt32(5),\nInt32(6),\n"
unfolding fmt fmt_rows fmt_names fmt_values
fmt_at_sample = refl

-- ===== src/Write/Tests.antt =====
-- The theorems about writes at concrete points.
use horaedb_client_rs.Prelude.{
  ◌>>=◌, bytes, ◌≡◌, refl, none, some, ap, is_some, Mem, List, [], ◌∷◌, ◌++◌, arith, str_eq, pos,
}
use mathlib.Core.List.{mem-cons_self, mem-cons, not-mem-nil}
use mathlib.Core.Logic.Or
use horaedb_client_rs.BTreeMap
use horaedb_client_rs.BTreeMap.{IsSorted}
use horaedb_client_rs.HashMap
use horaedb_client_rs.HashMap.{in_order}
use horaedb_client_rs.Value.Bytes.{to_bytes}
use horaedb_client_rs.Value.{Value, string, int32}
use horaedb_client_rs.Write.Point
use horaedb_client_rs.Write.Point.{
  Columns, Point, Built, is_reserved_column_name, ok, reserved_column_name,
}
use horaedb_client_rs.Write.Point.Laws.{Call, run, failure, error_of, build_fails_exactly, build_ok}
use horaedb_client_rs.Write.Request.{default, add_points, group, of_table, group-add_points}
use horaedb_client_rs.Write.Series.Laws.{Columns-set}
use horaedb_client_rs.Write.Key.{make_tags_key, make_tags_key_collides}
use horaedb_client_rs.Write.Delivered.{new-delivers}
use horaedb_client_rs.Write.Series
use horaedb_client_rs.Write.Series.{
  add_to_series, SeriesEntry, SeriesMap, TableRequestPbBuilder, group_points,
}
use horaedb_client_rs.Write.Series.Laws.{
  tags_of, fields_of, last_fields, of_one_table, group_points_total, group_points_files,
  group_points_misfiles,
}
use horaedb_client_rs.Write.Proto.{build}
use horaedb_client_rs.Write.Proto.Recover.{recover_points}
use horaedb_client_rs.Write.Proto.Entries.{points_of_entries, recover_points-build}

abbrev calls : List Call
calls =
    Call.timestamp (pos 7)
    ∷ Call.tag (bytes "host") (string (bytes "a"))
    ∷ Call.field (bytes "cpu") (int32 (pos 1))
    ∷ Call.field (bytes "cpu") (int32 (pos 2))
    ∷ []

abbrev sample : Point
sample = record {
  table = bytes "t";
  timestamp = pos 7;
  tags = (bytes "host", string (bytes "a")) ∷ [];
  fields = (bytes "cpu", int32 (pos 2)) ∷ [];
}

sample-built : Point.build (run (Point.new (bytes "t")) calls) ≡ ok sample
unfolding Point.build run Point.new Point.set_timestamp Point.tag Point.field BTreeMap.insert
    is_reserved_column_name
sample-built = refl

build_fails_exactly_example :
    error_of (Point.build (run (Point.new (bytes "t")) (Call.tag (bytes "TSID") Value.null ∷ [])))
    ≡ failure (Call.tag (bytes "TSID") Value.null ∷ [])
build_fails_exactly_example =
    build_fails_exactly (bytes "t") (Call.tag (bytes "TSID") Value.null ∷ [])

reserved : failure (Call.tag (bytes "TSID") Value.null ∷ []) ≡ some reserved_column_name
unfolding is_reserved_column_name
reserved = refl

build_ok_example : sample.table ≡ bytes "t"
build_ok_example = (build_ok (bytes "t") calls sample sample-built).0

group-add_points_at_sample :
    group (add_points default (sample ∷ sample ∷ [])) (bytes "t")
    ≡ group default (bytes "t") ++ of_table (bytes "t") (sample ∷ sample ∷ [])
group-add_points_at_sample = group-add_points default (sample ∷ sample ∷ []) (bytes "t")

make_tags_key_collides_example :
    make_tags_key ((bytes "ab", string (bytes "c")) ∷ [])
    ≡ make_tags_key ((bytes "a", string (bytes "bc")) ∷ [])
make_tags_key_collides_example =
    (make_tags_key_collides (bytes "a") (bytes "b") (bytes "c") [] (λ e. cc)).0

-- Two points of one table whose tags differ and have one key.
abbrev first : Point
first = record sample { tags = (bytes "ab", string (bytes "c")) ∷ [] }

abbrev second : Point
second = record sample { tags = (bytes "a", string (bytes "bc")) ∷ [] }

abbrev merged : SeriesMap
merged = (bytes "abc", record { tags = first.tags; ts_fields = (pos 7, second.fields) ∷ [] }) ∷ []

grouped : group_points (bytes "t") (first ∷ second ∷ []) [] ≡ some merged
unfolding group_points add_to_series make_tags_key to_bytes HashMap.get HashMap.insert
    BTreeMap.insert
grouped = refl

group_points_misfiles_example : tags_of merged (make_tags_key second.tags) ≡ some first.tags
group_points_misfiles_example =
    (group_points_misfiles (bytes "t") [] first second (second ∷ []) merged grouped tt mem-cons_self
      (make_tags_key_collides (bytes "a") (bytes "b") (bytes "c") [] (λ e. cc)).0
      (make_tags_key_collides (bytes "a") (bytes "b") (bytes "c") [] (λ e. cc)).1).0

abbrev alone : SeriesMap
alone = (bytes "hosta", record { tags = sample.tags; ts_fields = (pos 7, sample.fields) ∷ [] }) ∷ []

grouped_alone : group_points (bytes "t") (sample ∷ []) [] ≡ some alone
unfolding group_points add_to_series make_tags_key to_bytes HashMap.get HashMap.insert
    BTreeMap.insert
grouped_alone = refl

group_points_files_example :
    (tags_of alone (make_tags_key sample.tags) ≡ some sample.tags)
    × (fields_of alone (make_tags_key sample.tags) (pos 7)
        ≡ last_fields (make_tags_key sample.tags) (pos 7) none (sample ∷ []))
group_points_files_example =
    group_points_files (bytes "t") (sample ∷ []) alone sample grouped_alone
      (λ q m e.
        Or.elim (Columns-set _ _) (mem-cons.0 m) (λ h. ap (λ (p : Point). p.tags) h)
          (λ h. absurd (not-mem-nil h)))
      mem-cons_self

sample_built_alone :
    Series.new in_order (bytes "t") (sample ∷ [])
    ≡ some (record {
      table = bytes "t";
      series_entries = record { tags = sample.tags; ts_fields = (pos 7, sample.fields) ∷ [] } ∷ [];
    })
unfolding Series.new group_points add_to_series make_tags_key to_bytes HashMap.get HashMap.insert
    BTreeMap.insert
sample_built_alone = refl

new-delivers_at_sample : Mem sample (
    points_of_entries
      (bytes "t")
      (record { tags = sample.tags; ts_fields = (pos 7, sample.fields) ∷ [] } ∷ []))
unfolding make_tags_key to_bytes
new-delivers_at_sample =
    new-delivers in_order (bytes "t") (sample ∷ [])
      (record {
        table = bytes "t";
        series_entries =
            record { tags = sample.tags; ts_fields = (pos 7, sample.fields) ∷ [] } ∷ [];
      })
      sample sample_built_alone
      (λ q m e.
        Or.elim (Columns-set _ _) (mem-cons.0 m) (λ h. ap (λ (p : Point). p.tags) h)
          (λ h. absurd (not-mem-nil h)))
      mem-cons_self refl refl

group_points_total_at_sample :
    is_some (group_points (bytes "u") (sample ∷ []) []) ≡ of_one_table (bytes "u") (sample ∷ [])
group_points_total_at_sample = group_points_total (bytes "u") (sample ∷ []) []

abbrev series : List SeriesEntry
series =
    record { tags = first.tags; ts_fields = (pos 7, sample.fields) ∷ (pos 8, sample.fields) ∷ [] }
    ∷ record { tags = second.tags; ts_fields = (pos 7, sample.fields) ∷ [] }
    ∷ []

abbrev builder : TableRequestPbBuilder
builder = record { table = bytes "t"; series_entries = series }

recover_points-build_example :
    (build in_order builder >>= recover_points) ≡ some (points_of_entries (bytes "t") series)
recover_points-build_example =
    recover_points-build in_order builder (omega arith) (omega arith) (omega arith)

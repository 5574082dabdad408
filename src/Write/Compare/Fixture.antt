-- ===== src/Write/Compare/Fixture.antt =====
-- The points of the test `test_build_write_table`, from the time `ts1` that it reads off the clock, and the
-- run of the test on them.
use horaedb_client_rs.Prelude.{
  ◌>>=◌, ◌+◌, ℕ, ◌≡◌, refl, Option, none, some, List, [], ◌∷◌, Str, bytes, pos, length,
}
use mathlib.Core.Option
use horaedb_client_rs.HashMap
use horaedb_client_rs.Write.Proto.{
  HashOrders, build, build_tables, build_entries, build_series_entry, build_tags, build_ts_fields,
  build_requests,
}
use horaedb_client_rs.Write.Series
use horaedb_client_rs.Write.NameDict
use horaedb_client_rs.Write.Key.{make_tags_key}
use horaedb_client_rs.Write.Proto.Recover.{
  recover_columns, recover_entries, recover_groups, recover_pairs, recover_points,
}
use horaedb_client_rs.Write.Whole.Requests.Tests.{orders}
use horaedb_client_rs.HashMap.{in_order, Arrangement}
use horaedb_client_rs.BTreeMap
use horaedb_client_rs.Value.{Value}
use horaedb_client_rs.Value.Bytes.{to_bytes}
use horaedb_client_rs.Value.Proto.{to_pb, from_pb}
use horaedb_client_rs.Write.Point
use horaedb_client_rs.Write.Point.{Point, PointBuilder, Built, is_reserved_column_name}
use horaedb_client_rs.Write.Request.{default, add_point, add_points}
use horaedb_client_rs.Write.Whole.{recover_requests}
use horaedb_client_rs.Write.Compare.{make_cmp_key, make_ordered, expected_points}

-- `.build().unwrap()`
abbrev unwrapped : Built → Option Point
unwrapped (Built.ok p) = some p
unwrapped (Built.err e) = none

abbrev with_tags : Str → ℕ → PointBuilder
with_tags table ts =
    Point.tag
      (Point.tag (Point.set_timestamp (Point.new table) (pos ts)) (bytes "test_tag1")
        (Value.int32 (pos 42)))
      (bytes "test_tag2") (Value.string (bytes "test_tag_val"))

abbrev finished : PointBuilder → Str → Value → Option Point
finished b name value = unwrapped (Point.build (Point.field b name value))

unfoldable points : ℕ → Option (List Point)
points ts1 = do
  p1 ← finished (with_tags (bytes "test_table") ts1) (bytes "test_field1") (Value.int32 (pos 42))
  p2 ←
      finished (with_tags (bytes "test_table") ts1) (bytes "test_field2")
        (Value.string (bytes "test_field_val"))
  p3 ←
      finished (with_tags (bytes "test_table") (ts1 + 50)) (bytes "test_field3")
        (Value.double 4601237667291888353)
  p4 ←
      finished
        (Point.tag (with_tags (bytes "test_table") ts1) (bytes "test_tag1")
          (Value.varbinary (bytes "binarybinary")))
        (bytes "test_field1") (Value.int32 (pos 42))
  some (p1 ∷ p2 ∷ p3 ∷ p4 ∷ [])

unfoldable points2 : ℕ → Option (List Point)
points2 ts1 = do
  p ← finished (with_tags (bytes "test_table2") ts1) (bytes "test_field1") (Value.int32 (pos 42))
  some (p ∷ [])

-- What the test compares: the recovered points in order, and the expected ones.
unfoldable test_build_write_table :
    HashOrders → Arrangement (Str × List Point) → ℕ → Option (List Point × List Point)
test_build_write_table h h2 ts1 = do
  ps ← points ts1
  ps2 ← points2 ts1
  table_requests ← build_requests h (add_points (add_points default ps) ps2)
  recovered ← recover_requests table_requests
  some (make_ordered recovered, expected_points h2 (add_points (add_points default ps) ps2))

abbrev time : ℕ
time = 1700000000000

-- The test passes, and four of the five points are left: the second overwrites the first.
points_match :
    (Option.map (λ (x : List Point × List Point). x.0) (test_build_write_table orders in_order time)
      ≡ Option.map
          (λ (x : List Point × List Point). x.1)
          (test_build_write_table orders in_order time))
    × (Option.map
          (λ (x : List Point × List Point). length x.0)
          (test_build_write_table orders in_order time)
        ≡ some 4)
unfolding test_build_write_table points points2 Point.new Point.set_timestamp Point.tag Point.field
    Point.build is_reserved_column_name BTreeMap.insert build_requests build_tables add_points
    add_point HashMap.insert HashMap.get default Series.new Series.group_points Series.add_to_series
    build NameDict.convert_ordered NameDict.insert NameDict.new NameDict.place build_entries
    make_tags_key to_bytes build_series_entry build_tags build_ts_fields BTreeMap.collect from_pb
    to_pb expected_points make_cmp_key make_ordered recover_columns recover_entries recover_groups
    recover_pairs recover_points
points_match = (refl, refl)

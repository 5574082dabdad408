-- ===== src/Write/Proto/Recover.antt =====
-- What a reader makes of a request: the part of the test `test_build_write_table` in
-- src/model/write/request.rs that recovers points from protobuf. `none` is a panic.
use horaedb_client_rs.Prelude.{◌>>=◌, Option, some, List, [], ◌∷◌, ◌++◌, Str, get_elem?, str_ord}
use horaedb_client_rs.BTreeMap
use horaedb_client_rs.Value.{Value}
use horaedb_client_rs.Value.Proto.{from_pb}
use horaedb_client_rs.Write.Point.{Point, Columns}
use horaedb_client_rs.Write.Proto.{
  NamedValue, FieldGroupPb, WriteSeriesEntryPb, WriteTableRequestPb,
}

-- Each name is looked up by its number, then the pairs are collected into a `BTreeMap`.
unfoldable pub recover_pairs : List Str → List NamedValue → Option (List (Str × Value))
recover_pairs names [] = some []
recover_pairs names (c ∷ cs) = do
  name ← get_elem? names c.name_index
  value ← c.value
  rest ← recover_pairs names cs
  some ((name, from_pb value) ∷ rest)

unfoldable pub recover_columns : List Str → List NamedValue → Option Columns
recover_columns names cs = do pairs ← recover_pairs names cs; some (BTreeMap.collect pairs [])

unfoldable pub recover_groups : Str → Columns → List Str → List FieldGroupPb → Option (List Point)
recover_groups table tags names [] = some []
recover_groups table tags names (g ∷ gs) = do
  fields ← recover_columns names g.fields
  rest ← recover_groups table tags names gs
  some (record { table = table; timestamp = g.timestamp; tags = tags; fields = fields } ∷ rest)

unfoldable pub recover_entries : WriteTableRequestPb → List WriteSeriesEntryPb → Option (List Point)
recover_entries req [] = some []
recover_entries req (e ∷ es) = do
  tags ← recover_columns req.tag_names e.tags
  points ← recover_groups req.table tags req.field_names e.field_groups
  rest ← recover_entries req es
  some (points ++ rest)

unfoldable pub recover_points : WriteTableRequestPb → Option (List Point)
recover_points req = recover_entries req req.entries

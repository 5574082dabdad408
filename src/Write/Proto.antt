-- ===== src/Write/Proto.antt =====
-- `TableRequestPbBuilder::build` of src/model/write/request.rs: from the series of a table to its protobuf
-- request, names replaced by their numbers. The messages have the fields that the code sets.
pub mod Recover
pub mod RoundTrip
pub mod Entries
use horaedb_client_rs.Prelude.{◌>>=◌, ℕ, Option, none, some, List, [], ◌∷◌, Str}
use horaedb_client_rs.BTreeMap.{BTreeMap}
use horaedb_client_rs.HashMap.{HashMap, Arrangement}
use horaedb_client_rs.Value.{Value, TimestampMs}
use horaedb_client_rs.Value.Proto.{ValuePb, to_pb}
use horaedb_client_rs.Write.Point.{Point, Columns}
use horaedb_client_rs.Write.Request.{Request}
use horaedb_client_rs.Write.Key.{TagsKey}
use horaedb_client_rs.Write.NameDict
use horaedb_client_rs.Write.NameDict.{NameDict}
use horaedb_client_rs.Write.Series
use horaedb_client_rs.Write.Series.{SeriesEntry, TableRequestPbBuilder}

-- The messages `Tag` and `Field` have one shape.
pub record NamedValue : Type 0 where
  pub name_index : ℕ
  pub value : Option ValuePb

pub record FieldGroupPb : Type 0 where
  pub timestamp : TimestampMs
  pub fields : List NamedValue

pub record WriteSeriesEntryPb : Type 0 where
  pub tags : List NamedValue
  pub field_groups : List FieldGroupPb

pub record WriteTableRequestPb : Type 0 where
  pub table : Str
  pub tag_names : List Str
  pub field_names : List Str
  pub entries : List WriteSeriesEntryPb

-- The loop over names and values that `build_tags` runs, and `build_ts_fields` for each time.
unfoldable pub build_tags : NameDict → Columns → List NamedValue × NameDict
build_tags d [] = ([], d)
build_tags d ((name, val) ∷ tags) =
    let (idx, d1) = NameDict.insert d name in
    let (rest, d2) = build_tags d1 tags in
    (record { name_index = idx; value = some (to_pb val) } ∷ rest, d2)

unfoldable pub build_ts_fields :
    NameDict → BTreeMap TimestampMs Columns → List FieldGroupPb × NameDict
build_ts_fields d [] = ([], d)
build_ts_fields d ((ts, fields) ∷ ts_fields) =
    let (field_pbs, d1) = build_tags d fields in
    let (rest, d2) = build_ts_fields d1 ts_fields in
    (record { timestamp = ts; fields = field_pbs } ∷ rest, d2)

-- The two dictionaries are handed from entry to entry.
pub record Dicts : Type 0 where
  pub tags_dict : NameDict
  pub fields_dict : NameDict

unfoldable pub build_series_entry : Dicts → SeriesEntry → WriteSeriesEntryPb × Dicts
build_series_entry d entry =
    let (tags, t) = build_tags d.tags_dict entry.tags in
    let (field_groups, f) = build_ts_fields d.fields_dict entry.ts_fields in
    (record { tags = tags; field_groups = field_groups }, record { tags_dict = t; fields_dict = f })

unfoldable pub build_entries : Dicts → List SeriesEntry → List WriteSeriesEntryPb × Dicts
build_entries d [] = ([], d)
build_entries d (entry ∷ entries) =
    let (pb, d1) = build_series_entry d entry in
    let (rest, d2) = build_entries d1 entries in (pb ∷ rest, d2)

abbrev pub no_names : Dicts
no_names = record { tags_dict = NameDict.new; fields_dict = NameDict.new }

abbrev message :
    Str
    → List WriteSeriesEntryPb
    → Option (List Str)
    → Option (List Str)
    → Option WriteTableRequestPb
message table entries (some tag_names) (some field_names) =
    some (record {
      table = table;
      tag_names = tag_names;
      field_names = field_names;
      entries = entries;
    })
message table entries _ _ = none

-- `none` is a panic of `convert_ordered`.
unfoldable pub build : Arrangement (Str × ℕ) → TableRequestPbBuilder → Option WriteTableRequestPb
build h b =
    let (entries, d) = build_entries no_names b.series_entries in
    message b.table entries (NameDict.convert_ordered h d.tags_dict)
      (NameDict.convert_ordered h d.fields_dict)

-- How the hash maps of one request are read.
pub record HashOrders : Type 0 where
  pub tables : Arrangement (Str × List Point)
  pub series : Arrangement (TagsKey × SeriesEntry)
  pub names : Arrangement (Str × ℕ)

unfoldable pub build_tables :
    HashOrders → HashMap Str (List Point) → Option (List WriteTableRequestPb)
build_tables h [] = some []
build_tables h ((table, points) ∷ groups) = do
  builder ← Series.new h.series table points
  request ← build h.names builder
  requests ← build_tables h groups
  some (request ∷ requests)

-- `WriteTableRequestPbsBuilder::build`; `none` is a panic.
unfoldable pub build_requests : HashOrders → Request → Option (List WriteTableRequestPb)
build_requests h req = build_tables h (h.tables.arrange req.point_groups)

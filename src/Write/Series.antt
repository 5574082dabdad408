-- ===== src/Write/Series.antt =====
-- `TableRequestPbBuilder::new` of src/model/write/request.rs: the points of one table are put into series, by
-- the key of their tags.
pub mod Laws
pub mod Invariant
pub mod Arranged
use mathlib.Core.Option.{get_or}
use horaedb_client_rs.Prelude.{
  Option, none, some, List, [], ◌∷◌, Str, ◌==◌, str_eq, int_ord, if◌then◌else◌,
}
use horaedb_client_rs.BTreeMap
use horaedb_client_rs.BTreeMap.{BTreeMap}
use horaedb_client_rs.HashMap
use horaedb_client_rs.HashMap.{HashMap, Arrangement}
use horaedb_client_rs.Value.{TimestampMs}
use horaedb_client_rs.Write.Point.{Point, Columns}
use horaedb_client_rs.Write.Key.{TagsKey, make_tags_key}

pub record SeriesEntry : Type 0 where
  pub tags : Columns
  pub ts_fields : BTreeMap TimestampMs Columns

abbrev pub SeriesMap : Type 0
SeriesMap = HashMap TagsKey SeriesEntry

-- `or_insert_with`: a series takes its tags from its first point.
abbrev pub new_entry : Point → SeriesEntry
new_entry p = record { tags = p.tags; ts_fields = [] }

abbrev pub add_fields : SeriesEntry → Point → SeriesEntry
add_fields entry p = record entry {
  ts_fields = BTreeMap.insert p.timestamp p.fields entry.ts_fields;
}

unfoldable pub add_to_series : SeriesMap → Point → SeriesMap
add_to_series m p =
    let key = make_tags_key p.tags in
    HashMap.insert key (add_fields (get_or (HashMap.get m key) (new_entry p)) p) m

-- The loop over the points. `none` is the panic of `assert_eq!(point.table, table)`.
unfoldable pub group_points : Str → List Point → SeriesMap → Option SeriesMap
group_points table [] m = some m
group_points table (p ∷ ps) m =
    if p.table == table then group_points table ps (add_to_series m p) else none

pub record TableRequestPbBuilder : Type 0 where
  pub table : Str
  pub series_entries : List SeriesEntry

-- `into_values()` reads the map in any order.
abbrev pub values : SeriesMap → List SeriesEntry
values [] = []
values ((key, entry) ∷ m) = entry ∷ values m

abbrev pub of_series :
    Arrangement (TagsKey × SeriesEntry) → Str → Option SeriesMap → Option TableRequestPbBuilder
of_series h table none = none
of_series h table (some m) = some (record { table = table; series_entries = values (h.arrange m) })

unfoldable pub new :
    Arrangement (TagsKey × SeriesEntry) → Str → List Point → Option TableRequestPbBuilder
new h table points = of_series h table (group_points table points [])

-- ===== src/Write/Point.antt =====
-- src/model/write/point.rs: a point, and the builder that checks it.
pub mod Laws
pub mod Clean
use horaedb_client_rs.Prelude.{
  bytes, ℕ, ◌+◌, Bool, true, false, ◌&&◌, ◌||◌, Option, none, some, List, [], ◌∷◌, map, Str, ◌==◌,
  str_eq, str_ord, leb, is_empty, if◌then◌else◌,
}
use horaedb_client_rs.BTreeMap
use horaedb_client_rs.BTreeMap.{BTreeMap}
use horaedb_client_rs.Value.{Value, TimestampMs}

abbrev pub tsid : Str
tsid = bytes "tsid"

abbrev pub timestamp_name : Str
timestamp_name = bytes "timestamp"

-- `eq_ignore_ascii_case` of the standard library.
abbrev pub to_ascii_lowercase : ℕ → ℕ
to_ascii_lowercase c = if leb b'A' c && leb c b'Z' then c + 32 else c

abbrev pub eq_ignore_ascii_case : Str → Str → Bool
eq_ignore_ascii_case s t = map to_ascii_lowercase s == map to_ascii_lowercase t

unfoldable pub is_reserved_column_name : Str → Bool
is_reserved_column_name name =
    eq_ignore_ascii_case name tsid || eq_ignore_ascii_case name timestamp_name

abbrev pub Columns : Type 0
Columns = BTreeMap Str Value

pub record Point : Type 0 where
  pub table : Str
  pub timestamp : TimestampMs
  pub tags : Columns
  pub fields : Columns

pub record PointBuilder : Type 0 where
  pub table : Str
  pub timestamp : Option TimestampMs
  pub tags : Columns
  pub fields : Columns
  pub contains_reserved_column_name : Bool

unfoldable pub new : Str → PointBuilder
new table = record {
  table = table;
  timestamp = none;
  tags = [];
  fields = [];
  contains_reserved_column_name = false;
}

unfoldable pub set_table : PointBuilder → Str → PointBuilder
set_table b table = record b { table = table }

unfoldable pub set_timestamp : PointBuilder → TimestampMs → PointBuilder
set_timestamp b timestamp = record b { timestamp = some timestamp }

-- Both setters raise the flag before they insert; nothing lowers it.
unfoldable pub tag : PointBuilder → Str → Value → PointBuilder
tag b name value = record b {
  contains_reserved_column_name =
      if is_reserved_column_name name then true else b.contains_reserved_column_name;
  tags = BTreeMap.insert name value b.tags;
}

unfoldable pub field : PointBuilder → Str → Value → PointBuilder
field b name value = record b {
  contains_reserved_column_name =
      if is_reserved_column_name name then true else b.contains_reserved_column_name;
  fields = BTreeMap.insert name value b.fields;
}

-- The three texts that `build` fails with.
pub data BuildError : Type 0 where
  reserved_column_name fields_empty timestamp_unset : BuildError

pub data Built : Type 0 where
  ok : Point → Built
  err : BuildError → Built

abbrev pub with_timestamp : PointBuilder → Option TimestampMs → Built
with_timestamp b none = err timestamp_unset
with_timestamp b (some timestamp) =
    ok (record { table = b.table; timestamp = timestamp; tags = b.tags; fields = b.fields })

unfoldable pub build : PointBuilder → Built
build b =
    if b.contains_reserved_column_name
    then err reserved_column_name
    else if is_empty b.fields
    then err fields_empty
    else with_timestamp b b.timestamp

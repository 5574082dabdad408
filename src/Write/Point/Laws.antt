-- ===== src/Write/Point/Laws.antt =====
-- What a chain of builder calls builds.
use horaedb_client_rs.Prelude.{
  ◌≡◌, refl, ap, sym, subst, ◌∙◌, Bool, true, false, ◌||◌, Option, none, some, List, [], ◌∷◌, arith,
  Str, ◌==◌, str_eq, str_ord, if◌then◌else◌, is_empty,
}
use horaedb_client_rs.BTreeMap
use horaedb_client_rs.BTreeMap.{IsSorted}
use horaedb_client_rs.BTreeMap.Laws.{get-insert, insert-IsSorted, is_empty-insert}
use horaedb_client_rs.Value.{Value, TimestampMs}
use horaedb_client_rs.Write.Point.{
  Columns, Point, PointBuilder, BuildError, Built, ok, err, reserved_column_name, fields_empty,
  timestamp_unset, is_reserved_column_name, new, set_table, set_timestamp, build,
}
use horaedb_client_rs.Write.Point

-- One call of a setter.
pub data Call : Type 0 where
  table : Str → Call
  timestamp : TimestampMs → Call
  tag : Str → Value → Call
  field : Str → Value → Call

unfoldable pub step : PointBuilder → Call → PointBuilder
step b (Call.table t) = set_table b t
step b (Call.timestamp t) = set_timestamp b t
step b (Call.tag k v) = Point.tag b k v
step b (Call.field k v) = Point.field b k v

unfoldable pub run : PointBuilder → List Call → PointBuilder
unfolding step
run b [] = b
run b (c ∷ cs) = run (step b c) cs

-- What the calls say, read off the list of calls.
abbrev pub any_reserved : List Call → Bool
any_reserved [] = false
any_reserved (Call.tag k v ∷ cs) = is_reserved_column_name k || any_reserved cs
any_reserved (Call.field k v ∷ cs) = is_reserved_column_name k || any_reserved cs
any_reserved (Call.table t ∷ cs) = any_reserved cs
any_reserved (Call.timestamp t ∷ cs) = any_reserved cs

abbrev pub sets_field : List Call → Bool
sets_field [] = false
sets_field (Call.field k v ∷ cs) = true
sets_field (Call.table t ∷ cs) = sets_field cs
sets_field (Call.timestamp t ∷ cs) = sets_field cs
sets_field (Call.tag k v ∷ cs) = sets_field cs

abbrev pub last_table : Str → List Call → Str
last_table t [] = t
last_table t (Call.table u ∷ cs) = last_table u cs
last_table t (Call.field k v ∷ cs) = last_table t cs
last_table t (Call.timestamp u ∷ cs) = last_table t cs
last_table t (Call.tag k v ∷ cs) = last_table t cs

abbrev pub last_timestamp : Option TimestampMs → List Call → Option TimestampMs
last_timestamp t [] = t
last_timestamp t (Call.timestamp u ∷ cs) = last_timestamp (some u) cs
last_timestamp t (Call.field k v ∷ cs) = last_timestamp t cs
last_timestamp t (Call.table u ∷ cs) = last_timestamp t cs
last_timestamp t (Call.tag k v ∷ cs) = last_timestamp t cs

abbrev pub last_tag : Str → Option Value → List Call → Option Value
last_tag n o [] = o
last_tag n o (Call.tag k v ∷ cs) = last_tag n (if k == n then some v else o) cs
last_tag n o (Call.field k v ∷ cs) = last_tag n o cs
last_tag n o (Call.table u ∷ cs) = last_tag n o cs
last_tag n o (Call.timestamp u ∷ cs) = last_tag n o cs

abbrev pub last_field : Str → Option Value → List Call → Option Value
last_field n o [] = o
last_field n o (Call.field k v ∷ cs) = last_field n (if k == n then some v else o) cs
last_field n o (Call.tag k v ∷ cs) = last_field n o cs
last_field n o (Call.table u ∷ cs) = last_field n o cs
last_field n o (Call.timestamp u ∷ cs) = last_field n o cs

-- The first check that fails, in the order of `build`.
abbrev pub failure : List Call → Option BuildError
failure cs =
    if any_reserved cs
    then some reserved_column_name
    else if sets_field cs
    then elim (last_timestamp none cs) [ none ↦ some timestamp_unset | some t ↦ none ]
    else some fields_empty

raise : (a b c : Bool) → ((if a then true else b) || c) ≡ (b || (a || c))
raise a b c = ground arith

never_empty : (a b : Bool) → b ≡ false → (if a then false else b) ≡ false
never_empty a b e = ground arith

-- What a builder holds after the calls, from any builder on.
record Holds (b : PointBuilder) (cs : List Call) (r : PointBuilder) : Type 0 where
  pub reserved :
      r.contains_reserved_column_name ≡ (b.contains_reserved_column_name || any_reserved cs)
  pub table : r.table ≡ last_table b.table cs
  pub timestamp : r.timestamp ≡ last_timestamp b.timestamp cs
  pub tags : (n : Str) → BTreeMap.get r.tags n ≡ last_tag n (BTreeMap.get b.tags n) cs
  pub fields : (n : Str) → BTreeMap.get r.fields n ≡ last_field n (BTreeMap.get b.fields n) cs
  pub sorted : IsSorted b.tags × IsSorted b.fields → IsSorted r.tags × IsSorted r.fields
  pub empty : is_empty r.fields ≡ (if sets_field cs then false else is_empty b.fields)

run-Holds : (cs : List Call) (b : PointBuilder) → Holds b cs (run b cs)
unfolding run set_table set_timestamp Point.tag Point.field
run-Holds [] b = record {
  reserved = ground arith;
  table = refl;
  timestamp = refl;
  tags = λ n. refl;
  fields = λ n. refl;
  sorted = λ s. s;
  empty = refl;
}
run-Holds (Call.table t ∷ cs) b =
    let h = run-Holds cs (set_table b t) in
    record {
      reserved = h.reserved;
      table = h.table;
      timestamp = h.timestamp;
      tags = h.tags;
      fields = h.fields;
      sorted = h.sorted;
      empty = h.empty;
    }
run-Holds (Call.timestamp t ∷ cs) b =
    let h = run-Holds cs (set_timestamp b t) in
    record {
      reserved = h.reserved;
      table = h.table;
      timestamp = h.timestamp;
      tags = h.tags;
      fields = h.fields;
      sorted = h.sorted;
      empty = h.empty;
    }
run-Holds (Call.tag k v ∷ cs) b =
    let h = run-Holds cs (Point.tag b k v) in
    record {
      reserved = h.reserved ∙ raise (is_reserved_column_name k) _ _;
      table = h.table;
      timestamp = h.timestamp;
      tags = λ n. h.tags n ∙ ap (λ o. last_tag n o cs) (get-insert b.tags k n v);
      fields = h.fields;
      sorted = λ s. h.sorted (insert-IsSorted k v b.tags s.0, s.1);
      empty = h.empty;
    }
run-Holds (Call.field k v ∷ cs) b =
    let h = run-Holds cs (Point.field b k v) in
    record {
      reserved = h.reserved ∙ raise (is_reserved_column_name k) _ _;
      table = h.table;
      timestamp = h.timestamp;
      tags = h.tags;
      fields = λ n. h.fields n ∙ ap (λ o. last_field n o cs) (get-insert b.fields k n v);
      sorted = λ s. h.sorted (s.0, insert-IsSorted k v b.fields s.1);
      empty = h.empty ∙ never_empty (sets_field cs) _ (is_empty-insert k v b.fields);
    }

abbrev pub error_of : Built → Option BuildError
error_of (ok p) = none
error_of (err e) = some e

-- After any calls on a new builder, `build` fails exactly as the first of its checks that fails:
-- with the reserved name, if a tag or a field was ever given a reserved name, then if no field
-- was set, then if no timestamp was set. If all pass, it succeeds.
pub build_fails_exactly :
    (t : Str) (cs : List Call) → error_of (build (run (new t) cs)) ≡ failure cs
unfolding build new
build_fails_exactly t cs = ground (
  arith,
  (run-Holds cs (new t)).reserved,
  (run-Holds cs (new t)).timestamp,
  (run-Holds cs (new t)).empty,
)

-- The point that a builder gives.
pub record IsBuilt (b : PointBuilder) (p : Point) : Type 0 where
  pub reserved : b.contains_reserved_column_name ≡ false
  pub empty : is_empty b.fields ≡ false
  pub timestamp : some p.timestamp ≡ b.timestamp
  pub table : p.table ≡ b.table
  pub tags : p.tags ≡ b.tags
  pub fields : p.fields ≡ b.fields

pub build-IsBuilt : (b : PointBuilder) (p : Point) → build b ≡ ok p → IsBuilt b p
unfolding build
build-IsBuilt b p e = ground arith

-- A point that is built has the table and the timestamp set last, for each name the tag and the
-- field set last under it, its tags and its fields in ascending order of names, at least one
-- field, and no column of a reserved name was ever given.
pub build_ok :
    (t : Str) (cs : List Call) (p : Point)
    → build (run (new t) cs) ≡ ok p
    → (p.table ≡ last_table t cs)
      × (some p.timestamp ≡ last_timestamp none cs)
      × ((n : Str) → BTreeMap.get p.tags n ≡ last_tag n none cs)
      × ((n : Str) → BTreeMap.get p.fields n ≡ last_field n none cs)
      × (IsSorted p.tags × IsSorted p.fields)
      × (is_empty p.fields ≡ false)
      × (any_reserved cs ≡ false)
unfolding new BTreeMap.get
build_ok t cs p e =
    let b = run (new t) cs in
    let h = run-Holds cs (new t) in
    let i = build-IsBuilt b p e in
    let sorted = h.sorted (tt, tt) in
    (
      i.table ∙ h.table,
      i.timestamp ∙ h.timestamp,
      λ n. ap (λ m. BTreeMap.get m n) i.tags ∙ h.tags n,
      λ n. ap (λ m. BTreeMap.get m n) i.fields ∙ h.fields n,
      (subst IsSorted (sym i.tags) sorted.0, subst IsSorted (sym i.fields) sorted.1),
      ap is_empty i.fields ∙ i.empty,
      sym h.reserved ∙ i.reserved,
    )

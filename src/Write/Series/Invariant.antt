-- ===== src/Write/Series/Invariant.antt =====
-- What grouping keeps: every series is clean and sorted, no key occurs twice, and the series have no more
-- columns than the points.
use mathlib.Core.Option.{get_or}
use horaedb_client_rs.Prelude.{
  ℕ, ◌+◌, ◌≤◌, ◌≡◌, ◌≢◌, refl, subst, Bool-cases, inl, inr, Option, none, some, List, [], ◌∷◌,
  arith, Str, ◌==◌, str_eq, int_ord, All, length, Ordering, some_inj,
}
use horaedb_client_rs.BTreeMap
use horaedb_client_rs.BTreeMap.{BTreeMap, IsSorted}
use horaedb_client_rs.BTreeMap.Laws.{insert-IsSorted}
use horaedb_client_rs.HashMap
use horaedb_client_rs.HashMap.Entries.{
  All-insert, All-get, weight, weight_at, weight-insert, IsDistinct, insert-IsDistinct,
}
use horaedb_client_rs.Value.{TimestampMs}
use horaedb_client_rs.Write.Point.{Point, Columns}
use horaedb_client_rs.Write.Key.{make_tags_key}
use horaedb_client_rs.Write.Series.{
  SeriesEntry, SeriesMap, add_to_series, add_fields, new_entry, group_points,
}
use horaedb_client_rs.Write.Proto.RoundTrip.{IsClean, AllClean, count_fields}

-- A point as its builder leaves it: sorted columns with values in range.
abbrev pub PointClean : Point → Type 0
PointClean p = IsClean p.tags × IsClean p.fields

abbrev pub EntryClean : SeriesEntry → Type 0
EntryClean e = IsClean e.tags × (AllClean e.ts_fields × IsSorted e.ts_fields)

AllClean-insert :
    (m : BTreeMap TimestampMs Columns) (ts : TimestampMs) (c : Columns)
    → IsClean c
    → AllClean m
    → AllClean (BTreeMap.insert ts c m)
unfolding BTreeMap.insert
AllClean-insert [] ts c k h = (k, tt)
AllClean-insert ((t, d) ∷ m) ts c k h = by_order (int_ord.order ts t) (AllClean-insert m ts c k h.1)
  where
    by_order :
        (o : Ordering)
        → AllClean (BTreeMap.insert ts c m)
        → AllClean (elim o [
          | Ordering.lt ↦ (ts, c) ∷ (t, d) ∷ m
          | Ordering.eq ↦ (ts, c) ∷ m
          | Ordering.gt ↦ (t, d) ∷ BTreeMap.insert ts c m
        ])
    by_order Ordering.lt r = (k, h)
    by_order Ordering.eq r = (k, h.1)
    by_order Ordering.gt r = (h.0, r)

count_fields-insert :
    (m : BTreeMap TimestampMs Columns) (ts : TimestampMs) (c : Columns)
    → count_fields (BTreeMap.insert ts c m) ≤ count_fields m + length c
unfolding BTreeMap.insert
count_fields-insert [] ts c = omega arith
count_fields-insert ((t, d) ∷ m) ts c = by_order (int_ord.order ts t) (count_fields-insert m ts c)
  where
    by_order :
        (o : Ordering)
        → count_fields (BTreeMap.insert ts c m) ≤ count_fields m + length c
        → count_fields (elim o [
          | Ordering.lt ↦ (ts, c) ∷ (t, d) ∷ m
          | Ordering.eq ↦ (ts, c) ∷ m
          | Ordering.gt ↦ (t, d) ∷ BTreeMap.insert ts c m
        ])
          ≤ length d + count_fields m + length c
    by_order Ordering.lt r = omega arith
    by_order Ordering.eq r = omega arith
    by_order Ordering.gt r = omega arith

new_entry-EntryClean : (p : Point) → PointClean p → EntryClean (new_entry p)
new_entry-EntryClean p c = (c.0, (tt, tt))

add_fields-EntryClean :
    (e : SeriesEntry) (p : Point) → PointClean p → EntryClean e → EntryClean (add_fields e p)
add_fields-EntryClean e p c h = (
  h.0,
  (
    AllClean-insert e.ts_fields p.timestamp p.fields c.1 h.1.0,
    insert-IsSorted p.timestamp p.fields e.ts_fields h.1.1,
  ),
)

-- What holds of the map at every turn of the loop, with `t` tags and `f` fields so far.
pub record IsGroupedMap (m : SeriesMap) (t f : ℕ) : Type 0 where
  pub clean : All (λ x. EntryClean x.1) m
  pub distinct : IsDistinct m
  pub tags : weight (λ e. length e.tags) m ≤ t
  pub fields : weight (λ e. count_fields e.ts_fields) m ≤ f

-- The entry that a point goes into: the one that is there, or a new one.
record Receives (o : Option SeriesEntry) (p : Point) : Type 0 where
  pub clean : EntryClean (get_or o (new_entry p))
  pub tags :
      length (get_or o (new_entry p)).tags
      ≤ weight_at (λ (e : SeriesEntry). length e.tags) o + length p.tags
  pub fields :
      count_fields (get_or o (new_entry p)).ts_fields
      ≤ weight_at (λ (e : SeriesEntry). count_fields e.ts_fields) o

receives :
    (o : Option SeriesEntry) (p : Point)
    → PointClean p
    → ((e : SeriesEntry) → o ≡ some e → EntryClean e)
    → Receives o p
receives none p c h = record {
  clean = new_entry-EntryClean p c;
  tags = omega arith;
  fields = omega arith;
}
receives (some e) p c h = record { clean = h e refl; tags = omega arith; fields = omega arith }

add_to_series-IsGroupedMap :
    (m : SeriesMap) (p : Point) (t f : ℕ)
    → PointClean p
    → IsGroupedMap m t f
    → IsGroupedMap (add_to_series m p) (t + length p.tags) (f + length p.fields)
unfolding add_to_series
add_to_series-IsGroupedMap m p t f c h =
    let key = make_tags_key p.tags in
    let e : SeriesEntry = get_or (HashMap.get m key) (new_entry p) in
    let r =
      receives (HashMap.get m key) p c (λ x q. All-get (λ x. EntryClean x.1) key x m h.clean q) in
    record {
      clean =
          All-insert (λ x. EntryClean x.1) key (add_fields e p) m
            (add_fields-EntryClean e p c r.clean) h.clean;
      distinct = insert-IsDistinct key (add_fields e p) m h.distinct;
      tags = omega (
        arith,
        weight-insert (λ (x : SeriesEntry). length x.tags) key (add_fields e p) m,
        h.tags,
        r.tags,
      );
      fields = omega (
        arith,
        weight-insert (λ (x : SeriesEntry). count_fields x.ts_fields) key (add_fields e p) m,
        h.fields,
        r.fields,
        count_fields-insert e.ts_fields p.timestamp p.fields,
      );
    }

abbrev pub count_tags_of : List Point → ℕ
count_tags_of [] = 0
count_tags_of (p ∷ ps) = length p.tags + count_tags_of ps

abbrev pub count_fields_of : List Point → ℕ
count_fields_of [] = 0
count_fields_of (p ∷ ps) = length p.fields + count_fields_of ps

IsGroupedMap-wider :
    (m : SeriesMap) (t f u g : ℕ) → t ≤ u → f ≤ g → IsGroupedMap m t f → IsGroupedMap m u g
IsGroupedMap-wider m t f u g a b h = record {
  clean = h.clean;
  distinct = h.distinct;
  tags = omega (arith, h.tags);
  fields = omega (arith, h.fields);
}

group_points-IsGroupedMap :
    (table : Str) (ps : List Point) (m r : SeriesMap) (t f u g : ℕ)
    → All PointClean ps
    → t + count_tags_of ps ≤ u
    → f + count_fields_of ps ≤ g
    → IsGroupedMap m t f
    → group_points table ps m ≡ some r
    → IsGroupedMap r u g
unfolding group_points
group_points-IsGroupedMap table [] m r t f u g c a b h e =
    subst (λ x. IsGroupedMap x u g) (some_inj e)
      (IsGroupedMap-wider m t f u g (omega arith) (omega arith) h)
group_points-IsGroupedMap table (p ∷ ps) m r t f u g c a b h e =
    elim (Bool-cases (p.table == table)) [
      | inl same ↦
          group_points-IsGroupedMap table ps (add_to_series m p) r (t + length p.tags)
            (f + length p.fields) u g c.1 (omega arith) (omega arith)
            (add_to_series-IsGroupedMap m p t f c.0 h) (rw same at e)
      | inr other ↦ absurd (failed (rw other at e))
    ]
  where
    failed : none ≢ some r
    failed q = cc

-- The map that the loop ends with.
pub grouped-IsGroupedMap :
    (table : Str) (ps : List Point) (r : SeriesMap)
    → All PointClean ps
    → group_points table ps [] ≡ some r
    → IsGroupedMap r (count_tags_of ps) (count_fields_of ps)
grouped-IsGroupedMap table ps r c e =
    group_points-IsGroupedMap table ps [] r 0 0 (count_tags_of ps) (count_fields_of ps) c
      (omega arith) (omega arith)
      (record { clean = tt; distinct = tt; tags = omega arith; fields = omega arith }) e

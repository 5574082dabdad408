-- ===== src/Write/Proto/Entries.antt =====
-- The round trip of a whole table request: what is built from the series of a table, read back.
use mathlib.Core.List.{append-nil}
use horaedb_client_rs.Prelude.{
  ◌>>=◌, ℕ, ◌+◌, ◌^◌, ◌≤◌, ◌≡◌, refl, sym, some, List, [], ◌∷◌, ◌++◌, arith, Str, length,
}
use horaedb_client_rs.HashMap.{Arrangement}
use horaedb_client_rs.Write.Point.{Point}
use horaedb_client_rs.Write.NameDict
use horaedb_client_rs.Write.NameDict.{NameDict}
use horaedb_client_rs.Write.NameDict.Laws.{
  names_of, IsValid, new-IsValid, Grows, Grows-refl, Grows-trans, length-Grows,
}
use horaedb_client_rs.Write.NameDict.Ordered.{convert_ordered-eq-names_of}
use horaedb_client_rs.Write.Series.{SeriesEntry, TableRequestPbBuilder}
use horaedb_client_rs.Write.Proto.{
  WriteTableRequestPb, Dicts, no_names, build_series_entry, build_entries, build,
}
use horaedb_client_rs.Write.Proto.Recover.{recover_entries, recover_points}
use horaedb_client_rs.Write.Proto.RoundTrip.{
  IsClean, AllClean, count_fields, points_of, Prefix, Prefix-Grows, build_tags-Grows,
  build_tags-IsValid, build_ts_fields-Grows, build_ts_fields-IsValid, recover_columns-build_tags,
  recover_groups-build_ts_fields,
}

-- The columns of all entries, with repetitions.
abbrev pub count_all_tags : List SeriesEntry → ℕ
count_all_tags [] = 0
count_all_tags (e ∷ es) = length e.tags + count_all_tags es

abbrev pub count_all_fields : List SeriesEntry → ℕ
count_all_fields [] = 0
count_all_fields (e ∷ es) = count_fields e.ts_fields + count_all_fields es

abbrev pub EntriesClean : List SeriesEntry → Type 0
EntriesClean [] = Unit
EntriesClean (e ∷ es) = IsClean e.tags × AllClean e.ts_fields × EntriesClean es

-- All points of the series of a table, series by series, in the order of their times.
abbrev pub points_of_entries : Str → List SeriesEntry → List Point
points_of_entries table [] = []
points_of_entries table (e ∷ es) = points_of table e.tags e.ts_fields ++ points_of_entries table es

record DictsValid (d : Dicts) (es : List SeriesEntry) : Type 0 where
  pub tags_valid : IsValid d.tags_dict
  pub fields_valid : IsValid d.fields_dict
  pub tags_room : length (names_of d.tags_dict.dict) + count_all_tags es ≤ 2 ^ 32
  pub fields_room : length (names_of d.fields_dict.dict) + count_all_fields es ≤ 2 ^ 32

no_names-DictsValid :
    (es : List SeriesEntry)
    → count_all_tags es ≤ 2 ^ 32
    → count_all_fields es ≤ 2 ^ 32
    → DictsValid no_names es
unfolding NameDict.new
no_names-DictsValid es t f = record {
  tags_valid = new-IsValid;
  fields_valid = new-IsValid;
  tags_room = omega arith;
  fields_room = omega arith;
}

DictsValid-next :
    (d : Dicts) (e : SeriesEntry) (es : List SeriesEntry)
    → DictsValid d (e ∷ es)
    → DictsValid (build_series_entry d e).1 es
unfolding build_series_entry
DictsValid-next d e es v =
    let g = length-Grows (build_tags-Grows d.tags_dict e.tags) in
    let f = length-Grows (build_ts_fields-Grows d.fields_dict e.ts_fields) in
    record {
      tags_valid = build_tags-IsValid d.tags_dict e.tags v.tags_valid (omega (arith, v.tags_room));
      fields_valid =
          build_ts_fields-IsValid d.fields_dict e.ts_fields v.fields_valid
            (omega (arith, v.fields_room));
      tags_room = omega (arith, v.tags_room);
      fields_room = omega (arith, v.fields_room);
    }

build_entries-Grows :
    (d : Dicts) (es : List SeriesEntry)
    → Grows d.tags_dict (build_entries d es).1.tags_dict (count_all_tags es)
      × Grows d.fields_dict (build_entries d es).1.fields_dict (count_all_fields es)
unfolding build_entries build_series_entry
build_entries-Grows d [] = (Grows-refl d.tags_dict, Grows-refl d.fields_dict)
build_entries-Grows d (e ∷ es) =
    let ih = build_entries-Grows (build_series_entry d e).1 es in
    (
      Grows-trans (build_tags-Grows d.tags_dict e.tags) ih.0,
      Grows-trans (build_ts_fields-Grows d.fields_dict e.ts_fields) ih.1,
    )

build_entries-IsValid :
    (d : Dicts) (es : List SeriesEntry)
    → DictsValid d es
    → IsValid (build_entries d es).1.tags_dict × IsValid (build_entries d es).1.fields_dict
unfolding build_entries
build_entries-IsValid d [] v = (v.tags_valid, v.fields_valid)
build_entries-IsValid d (e ∷ es) v =
    build_entries-IsValid (build_series_entry d e).1 es (DictsValid-next d e es v)

recover_entries-build_entries :
    (req : WriteTableRequestPb) (d : Dicts) (es : List SeriesEntry)
    → DictsValid d es
    → EntriesClean es
    → Prefix (build_entries d es).1.tags_dict req.tag_names
    → Prefix (build_entries d es).1.fields_dict req.field_names
    → recover_entries req (build_entries d es).0 ≡ some (points_of_entries req.table es)
unfolding build_entries recover_entries build_series_entry
recover_entries-build_entries req d [] v c p q = refl
recover_entries-build_entries req d (e ∷ es) v c p q =
    let d1 = (build_series_entry d e).1 in
    let w = DictsValid-next d e es v in
    let later = build_entries-Grows d1 es in
    let tags =
      recover_columns-build_tags d.tags_dict e.tags req.tag_names v.tags_valid
        (omega (arith, v.tags_room)) c.0 (Prefix-Grows {d = d1.tags_dict} later.0 p) in
    let groups =
      recover_groups-build_ts_fields req.table e.tags d.fields_dict e.ts_fields req.field_names
        v.fields_valid (omega (arith, v.fields_room)) c.1
        (Prefix-Grows {d = d1.fields_dict} later.1 q) in
    let rest = recover_entries-build_entries req d1 es w c.2 p q in
    rw (tags, ◌>>=◌) (rw (groups, ◌>>=◌) (rw (rest, ◌>>=◌)))

-- Whatever the order in which the name dictionaries are read: if the columns of the series are
-- clean and there are at most 2^32 of them of each kind, the request is built without a panic, and
-- reading it back gives exactly the points of the series.
pub recover_points-build :
    (h : Arrangement (Str × ℕ)) (b : TableRequestPbBuilder)
    → EntriesClean b.series_entries
    → count_all_tags b.series_entries ≤ 2 ^ 32
    → count_all_fields b.series_entries ≤ 2 ^ 32
    → (build h b >>= recover_points) ≡ some (points_of_entries b.table b.series_entries)
unfolding build recover_points
recover_points-build h b c t f =
    let es = b.series_entries in
    let d = (build_entries no_names es).1 in
    let valid = build_entries-IsValid no_names es start in
    rw
      (
        convert_ordered-eq-names_of h d.tags_dict valid.0,
        convert_ordered-eq-names_of h d.fields_dict valid.1,
      )
      (recover_entries-build_entries _ no_names es start c ([], sym (append-nil _))
        ([], sym (append-nil _)))
  where
    start : DictsValid no_names b.series_entries
    start = no_names-DictsValid b.series_entries t f

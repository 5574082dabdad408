-- ===== src/Write/Delivered.antt =====
-- Which points of a table a write request holds.
use mathlib.Core.List.{mem-cons, mem-append, not-mem-nil, Mem-prop}
use mathlib.Core.List.Perm
use mathlib.Core.Logic.Or
use mathlib.Core.Path.{ap₂}
use horaedb_client_rs.Prelude.{
  ◌≡◌, ◌≢◌, refl, ap, sym, subst, ◌∙◌, Bool-cases, Option-cases, none, some, List, [], ◌∷◌, Mem,
  Str, str_eq, str_eqb_iff, ◌==◌, some_inj, inl, inr, int_ord, Ordering,
}
use horaedb_client_rs.BTreeMap
use horaedb_client_rs.BTreeMap.{BTreeMap}
use horaedb_client_rs.HashMap
use horaedb_client_rs.HashMap.{HashMap, Arrangement}
use horaedb_client_rs.Value.{TimestampMs}
use horaedb_client_rs.Write.Point.{Point, Columns}
use horaedb_client_rs.Write.Key.{TagsKey, make_tags_key}
use horaedb_client_rs.Write.Series
use horaedb_client_rs.Write.Series.{
  SeriesEntry, SeriesMap, TableRequestPbBuilder, group_points, values, of_series,
}
use horaedb_client_rs.Write.Series.Laws.{tags_of, fields_of, last_fields, group_points_files}
use horaedb_client_rs.Write.Proto.Entries.{points_of_entries}
use horaedb_client_rs.Write.Proto.RoundTrip.{points_of}

Mem-get : (m : SeriesMap) (k : TagsKey) (e : SeriesEntry) → HashMap.get m k ≡ some e → Mem (k, e) m
unfolding HashMap.get
Mem-get [] k e h = cc
Mem-get ((j, f) ∷ m) k e h = elim (Bool-cases (j == k)) [
  | inl same ↦ mem-cons.1 (
      Or.inl (ap₂ (λ a b. (a, b)) (sym ((str_eqb_iff j k).0 same)) (sym (some_inj (rw same at h)))))
  | inr other ↦ mem-cons.1 (Or.inr (Mem-get m k e (rw other at h)))
]

Mem-values : (m : SeriesMap) (k : TagsKey) (e : SeriesEntry) → Mem (k, e) m → Mem e (values m)
Mem-values [] k e h = absurd (not-mem-nil h)
Mem-values ((j, f) ∷ m) k e h =
    Or.elim Mem-prop (mem-cons.0 h)
      (λ q. mem-cons.1 (Or.inl (ap (λ (x : TagsKey × SeriesEntry). x.1) q)))
      (λ n. mem-cons.1 (Or.inr (Mem-values m k e n)))

Mem-time :
    (m : BTreeMap TimestampMs Columns) (ts : TimestampMs) (fields : Columns)
    → BTreeMap.get m ts ≡ some fields
    → Mem (ts, fields) m
unfolding BTreeMap.get
Mem-time [] ts fields h = cc
Mem-time ((t, f) ∷ m) ts fields h =
    by_order (λ e. Mem-time m ts fields e) (int_ord.order ts t) refl h
  where
    by_order :
        (BTreeMap.get m ts ≡ some fields → Mem (ts, fields) m)
        → (c : Ordering) → int_ord.order ts t ≡ c
        → (elim c [
          | Ordering.lt ↦ BTreeMap.get m ts
          | Ordering.eq ↦ some f
          | Ordering.gt ↦ BTreeMap.get m ts
        ])
          ≡ some fields
        → Mem (ts, fields) ((t, f) ∷ m)
    by_order later Ordering.lt c h = mem-cons.1 (Or.inr (later h))
    by_order later Ordering.gt c h = mem-cons.1 (Or.inr (later h))
    by_order later Ordering.eq c h =
        mem-cons.1 (Or.inl (ap₂ (λ a b. (a, b)) (int_ord.eq_of_order ts t c) (sym (some_inj h))))

Mem-points_of :
    (table : Str) (tags : Columns) (m : BTreeMap TimestampMs Columns) (ts : TimestampMs)
    (c : Columns)
    → Mem (ts, c) m
    → Mem
        (record { table = table; timestamp = ts; tags = tags; fields = c })
        (points_of table tags m)
Mem-points_of table tags [] ts c h = absurd (not-mem-nil h)
Mem-points_of table tags ((t, f) ∷ m) ts c h =
    Or.elim Mem-prop (mem-cons.0 h)
      (λ q. mem-cons.1 (
        Or.inl (
          ap
            (λ (x : TimestampMs × Columns). record {
              table = table;
              timestamp = x.0;
              tags = tags;
              fields = x.1;
            })
            q)))
      (λ n. mem-cons.1 (Or.inr (Mem-points_of table tags m ts c n)))

Mem-points_of_entries :
    (table : Str) (es : List SeriesEntry) (e : SeriesEntry) (p : Point)
    → Mem e es
    → Mem p (points_of table e.tags e.ts_fields)
    → Mem p (points_of_entries table es)
Mem-points_of_entries table [] e p h m = absurd (not-mem-nil h)
Mem-points_of_entries table (f ∷ es) e p h m =
    Or.elim Mem-prop (mem-cons.0 h)
      (λ q.
        mem-append.1
          (Or.inl (subst (λ (x : SeriesEntry). Mem p (points_of table x.tags x.ts_fields)) q m)))
      (λ n. mem-append.1 (Or.inr (Mem-points_of_entries table es e p n m)))

-- The point of a series with these tags and these fields at this time.
pub Mem-filed :
    (h : Arrangement (TagsKey × SeriesEntry)) (table : Str) (r : SeriesMap) (p : Point)
    → tags_of r (make_tags_key p.tags) ≡ some p.tags
    → fields_of r (make_tags_key p.tags) p.timestamp ≡ some p.fields
    → p.table ≡ table
    → Mem p (points_of_entries table (values (h.arrange r)))
Mem-filed h table r p t f e = elim (Option-cases (HashMap.get r (make_tags_key p.tags))) [
  | inl absent ↦ absurd (none_given (rw (absent, tags_of) at t))
  | inr (entry, present) ↦
      Mem-points_of_entries table (values (h.arrange r)) entry p
        (Mem-values (h.arrange r) (make_tags_key p.tags) entry
          ((Perm.mem_iff (h.arrange-perm r)).1 (Mem-get r (make_tags_key p.tags) entry present)))
        (there entry (some_inj (rw (present, tags_of) at t)) (rw (present, fields_of) at f))
]
  where
    none_given : none ≢ some p.tags
    none_given q = cc

    there :
        (entry : SeriesEntry)
        → entry.tags ≡ p.tags
        → BTreeMap.get entry.ts_fields p.timestamp ≡ some p.fields
        → Mem p (points_of table entry.tags entry.ts_fields)
    there entry q g =
        subst (λ (x : Point). Mem x (points_of table entry.tags entry.ts_fields))
          (ap₂
            (λ (a : Str) (b : Columns). record {
              table = a;
              timestamp = p.timestamp;
              tags = b;
              fields = p.fields;
            })
            (sym e) q)
          (Mem-points_of table entry.tags entry.ts_fields p.timestamp p.fields
            (Mem-time entry.ts_fields p.timestamp p.fields g))

-- Where the keys of a group's points tell their tags apart, every point of the group that has the
-- fields of the last point of its key and time is a point of the series that the request is built
-- from, in whatever order these are read: no point is lost but those that a later one overwrites.
pub new-delivers :
    (h : Arrangement (TagsKey × SeriesEntry)) (table : Str) (ps : List Point)
    (b : TableRequestPbBuilder) (p : Point)
    → Series.new h table ps ≡ some b
    → ((q : Point) → Mem q ps → make_tags_key q.tags ≡ make_tags_key p.tags → q.tags ≡ p.tags)
    → Mem p ps
    → p.table ≡ table
    → last_fields (make_tags_key p.tags) p.timestamp none ps ≡ some p.fields
    → Mem p (points_of_entries b.table b.series_entries)
unfolding Series.new
new-delivers h table ps b p e apart m t l = elim (Option-cases (group_points table ps [])) [
  | inl failed ↦ absurd (none_built (rw (failed, of_series) at e))
  | inr (r, grouped) ↦
      let (tags, fields) = group_points_files table ps r p grouped apart m in
      subst (λ (x : TableRequestPbBuilder). Mem p (points_of_entries x.table x.series_entries))
        (some_inj (rw (grouped, of_series) at e)) (Mem-filed h table r p tags (fields ∙ l) t)
]
  where
    none_built : none ≢ some b
    none_built q = cc

-- ===== src/Write/Once.antt =====
-- The points of the series of a group, and whether one comes twice.
use mathlib.Core.Bool.{false≢true}
use mathlib.Core.List.{mem-cons, mem-cons_self, Pairwise, Pairwise-append}
use mathlib.Core.List.Perm
use mathlib.Core.Logic.Or
use horaedb_client_rs.Prelude.{
  ◌≡◌, ◌≢◌, refl, ap, sym, ◌∙◌, false, Option, some, List, [], ◌∷◌, Mem, All, All-Mem, Str, str_eq,
  str_eqb_iff, ◌==◌, int_ord, Ordering, bool_set, pos, arith,
}
use horaedb_client_rs.BTreeMap.{BTreeMap, IsSorted}
use horaedb_client_rs.HashMap
use horaedb_client_rs.HashMap.{HashMap, Arrangement}
use horaedb_client_rs.HashMap.Entries
use horaedb_client_rs.HashMap.Entries.{IsDistinct, arrange-IsDistinct}
use horaedb_client_rs.Value.{TimestampMs}
use horaedb_client_rs.Write.Point.{Point, Columns}
use horaedb_client_rs.Write.Key.{TagsKey, make_tags_key}
use horaedb_client_rs.Write.Series.{SeriesEntry, SeriesMap, group_points, values}
use horaedb_client_rs.Write.Series.Laws.{tags_of, group_points-refines}
use horaedb_client_rs.Write.Series.Invariant.{
  PointClean, count_tags_of, count_fields_of, IsGroupedMap, grouped-IsGroupedMap,
}
use horaedb_client_rs.Write.Series.Arranged.{Mem-EntryClean}
use horaedb_client_rs.Write.Proto.RoundTrip.{points_of}
use horaedb_client_rs.Write.Proto.Entries.{points_of_entries}
use horaedb_client_rs.Write.Refine.{points_of-IsOf, points_of_entries-elim, first_tags-HasTags}

-- Two points that are not of one table, tags and time.
abbrev pub Differ : Point → Point → Type 0
Differ p q = p.table ≡ q.table → p.tags ≡ q.tags → p.timestamp ≢ q.timestamp

ordering_set : IsSet Ordering
ordering_set = hlevel

false_prop : IsProp ⊥
false_prop = hlevel

pub Differ-prop : (p q : Point) → IsProp (Differ p q)
Differ-prop p q = hlevel

SeriesEntry-option_set : IsSet (Option SeriesEntry)
SeriesEntry-option_set = hlevel

points_of-Pairwise :
    (table : Str) (tags : Columns) (m : BTreeMap TimestampMs Columns)
    → IsSorted m
    → Pairwise Differ (points_of table tags m)
points_of-Pairwise table tags [] s = Pairwise.nil
points_of-Pairwise table tags ((ts, c) ∷ m) s =
    Pairwise.cons
      (λ q n a b e.
        let i = points_of-IsOf table tags m q n in
        let later =
          All-Mem (λ (x : TimestampMs × Columns). int_ord.order ts x.0 ≡ Ordering.lt)
            (q.timestamp, q.fields) m (ordering_set _ _) s.0 i.1 in
        lt_not_self q.timestamp (rw e at later))
      (points_of-Pairwise table tags m s.1)
  where
    lt_not_self : (t : TimestampMs) → int_ord.order t t ≢ Ordering.lt
    lt_not_self t e = ground (arith, int_ord.order_self t)

-- An entry of a map of series as grouping leaves it: sorted, under the key of its tags.
abbrev IsFiled : TagsKey × SeriesEntry → Type 0
IsFiled (k, e) = (make_tags_key e.tags ≡ k) × IsSorted e.ts_fields

entries-Pairwise :
    (table : Str) (l : SeriesMap)
    → IsDistinct l
    → ((x : TagsKey × SeriesEntry) → Mem x l → IsFiled x)
    → Pairwise Differ (points_of_entries table (values l))
entries-Pairwise table [] d f = Pairwise.nil
entries-Pairwise table ((k, e) ∷ l) d f =
    (Pairwise-append Differ-prop {l₁ = points_of table e.tags e.ts_fields}).1 (
      points_of-Pairwise table e.tags e.ts_fields (f (k, e) mem-cons_self).1,
      entries-Pairwise table l d.1 (λ x m. f x (mem-cons.1 (Or.inr m))),
      λ p m q n a b c. points_of_entries-elim table q ⊥ false_prop l n (λ j o there own.
          let here = (points_of-IsOf table e.tags e.ts_fields p m).0.1 in
          let later = (points_of-IsOf table o.tags o.ts_fields q own).0.1 in
          let same : j ≡ k =
            sym (f (j, o) (mem-cons.1 (Or.inr there))).0
            ∙ ap make_tags_key (sym later ∙ sym b ∙ here)
            ∙ (f (k, e) mem-cons_self).0 in
          false≢true (
            sym (
              All-Mem (λ (x : TagsKey × SeriesEntry). (x.0 == k) ≡ false) (j, o) l (bool_set _ _)
                d.0 there)
            ∙ (str_eqb_iff j k).1 same)),
    )

-- The points that the series of a group stand for, in whatever order these are read, differ.
pub series-Pairwise :
    (h : Arrangement (TagsKey × SeriesEntry)) (table : Str) (ps : List Point) (r : SeriesMap)
    → group_points table ps [] ≡ some r
    → All PointClean ps
    → Pairwise Differ (points_of_entries table (values (h.arrange r)))
unfolding HashMap.get
series-Pairwise h table ps r g clean =
    entries-Pairwise table (h.arrange r) (arrange-IsDistinct h r kept.distinct) (λ (k, e) n.
      let there = (Perm.mem_iff (h.arrange-perm r)).0 n in
      (filed k e there, (Mem-EntryClean r (k, e) kept.clean there).1.1))
  where
    kept : IsGroupedMap r (count_tags_of ps) (count_fields_of ps)
    kept = grouped-IsGroupedMap table ps r clean g

    filed : (k : TagsKey) (e : SeriesEntry) → Mem (k, e) r → make_tags_key e.tags ≡ k
    filed k e m =
        let present = Entries.get-Mem SeriesEntry-option_set r k e kept.distinct m in
        let i =
          first_tags-HasTags k e.tags ps
            (sym (group_points-refines table ps [] r k (pos 0) g).0 ∙ rw (present, tags_of) refl) in
        ap make_tags_key (sym i.tags) ∙ i.key

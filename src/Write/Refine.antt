-- ===== src/Write/Refine.antt =====
-- What a group of a write request holds, told from the list of its points alone.
use mathlib.Core.HLevel.{×_prop}
use mathlib.Core.List.{mem-cons, mem-cons_self, mem-append, not-mem-nil, Mem-prop}
use mathlib.Core.List.Perm
use mathlib.Core.Logic.Or
use horaedb_client_rs.Prelude.{
  ◌≡◌, ◌≢◌, ◌↔◌, refl, ap, sym, subst, ◌∙◌, Bool-cases, Option-cases, Option, none, some, List, [],
  ◌∷◌, Mem, All, All-Mem, Str, str_eq, str_eqb_iff, ◌==◌, some_inj, inl, inr, int_ord,
}
use horaedb_client_rs.BTreeMap
use horaedb_client_rs.BTreeMap.{BTreeMap, IsSorted}
use horaedb_client_rs.BTreeMap.Laws
use horaedb_client_rs.HashMap
use horaedb_client_rs.HashMap.{HashMap, Arrangement}
use horaedb_client_rs.HashMap.Entries
use horaedb_client_rs.HashMap.Entries.{All-get}
use horaedb_client_rs.Value.{TimestampMs}
use horaedb_client_rs.Write.Point.{Point, Columns}
use horaedb_client_rs.Write.Key.{TagsKey, make_tags_key}
use horaedb_client_rs.Write.Series.{SeriesEntry, SeriesMap, group_points, values}
use horaedb_client_rs.Write.Series.Laws.{
  Columns-set, tags_of, fields_of, first_tags, first_tags-some, group_points-refines,
  group_points_files,
}
use horaedb_client_rs.Write.Series.Invariant.{
  EntryClean, PointClean, count_tags_of, count_fields_of, IsGroupedMap, grouped-IsGroupedMap,
}
use horaedb_client_rs.Write.Proto.Entries.{points_of_entries}
use horaedb_client_rs.Write.Proto.RoundTrip.{points_of}
use horaedb_client_rs.Write.Survive.{
  KeysApart, Survives, Survives-prop, last_point, last_fields-last_point, last_point-IsLast,
  last_point-Survives, Survives-Mem, Survives-last_point,
}
use horaedb_client_rs.Write.Delivered.{Mem-filed}

Columns-option_set : IsSet (Option Columns)
Columns-option_set = hlevel

Str-set : IsSet Str
Str-set = hlevel

SeriesEntry-option_set : IsSet (Option SeriesEntry)
SeriesEntry-option_set = hlevel

-- A point of a series, told by its table, its tags, and an entry of the series.
abbrev pub IsOf : Str → Columns → BTreeMap TimestampMs Columns → Point → Type 0
IsOf table tags m p = ((p.table ≡ table) × (p.tags ≡ tags)) × Mem (p.timestamp, p.fields) m

IsOf-prop :
    (table : Str) (tags : Columns) (m : BTreeMap TimestampMs Columns) (p : Point)
    → IsProp (IsOf table tags m p)
IsOf-prop table tags m p = ×_prop (×_prop (Str-set _ _) (Columns-set _ _)) Mem-prop

pub points_of-IsOf :
    (table : Str) (tags : Columns) (m : BTreeMap TimestampMs Columns) (p : Point)
    → Mem p (points_of table tags m)
    → IsOf table tags m p
points_of-IsOf table tags [] p h = absurd (not-mem-nil h)
points_of-IsOf table tags ((ts, f) ∷ m) p h =
    Or.elim (IsOf-prop table tags ((ts, f) ∷ m) p) (mem-cons.0 h)
      (λ e. subst (IsOf table tags ((ts, f) ∷ m)) (sym e) ((refl, refl), mem-cons_self))
      (λ n. let i = points_of-IsOf table tags m p n in (i.0, mem-cons.1 (Or.inr i.1)))

-- A point of the series of a map belongs to one of its entries.
pub points_of_entries-elim :
    (table : Str) (p : Point) (C : Type 0)
    → IsProp C
    → (l : SeriesMap) → Mem p (points_of_entries table (values l))
    → ((k : TagsKey) (e : SeriesEntry)
        → Mem (k, e) l
        → Mem p (points_of table e.tags e.ts_fields)
        → C)
    → C
points_of_entries-elim table p C c [] h f = absurd (not-mem-nil h)
points_of_entries-elim table p C c ((k, e) ∷ l) h f =
    Or.elim c (mem-append.0 h) (λ m. f k e mem-cons_self m)
      (λ n. points_of_entries-elim table p C c l n (λ j d m q. f j d (mem-cons.1 (Or.inr m)) q))

pub record HasTags (k : TagsKey) (t : Columns) (ps : List Point) : Type 0 where
  pub point : Point
  pub member : Mem point ps
  pub key : make_tags_key point.tags ≡ k
  pub tags : point.tags ≡ t

pub first_tags-HasTags :
    (k : TagsKey) (t : Columns) (ps : List Point) → first_tags k none ps ≡ some t → HasTags k t ps
first_tags-HasTags k t [] h = cc
first_tags-HasTags k t (p ∷ ps) h = elim (Bool-cases (make_tags_key p.tags == k)) [
  | inl same ↦ record {
    point = p;
    member = mem-cons_self;
    key = (str_eqb_iff (make_tags_key p.tags) k).0 same;
    tags = some_inj (sym (first_tags-some k p.tags ps) ∙ (rw same at h));
  }
  | inr other ↦
      let i = first_tags-HasTags k t ps (rw other at h) in
      record { point = i.point; member = mem-cons.1 (Or.inr i.member); key = i.key; tags = i.tags }
]

-- The points of the list that the series of a key has at a time: the last one.
series-Survives :
    (table : Str) (ps : List Point) (r : SeriesMap) (k : TagsKey) (q : Point)
    → group_points table ps [] ≡ some r
    → All (λ p. p.table ≡ table) ps
    → KeysApart ps
    → q.table ≡ table
    → tags_of r k ≡ some q.tags
    → fields_of r k q.timestamp ≡ some q.fields
    → Survives q ps
unfolding HashMap.get
series-Survives table ps r k q g one apart t a b =
    let refined = group_points-refines table ps [] r k q.timestamp g in
    let i = first_tags-HasTags k q.tags ps (sym refined.0 ∙ a) in
    elim (Option-cases (last_point k q.timestamp ps)) [
      | inl absent ↦ absurd (
          none_given
            (rw absent at (sym (last_fields-last_point k q.timestamp none ps) ∙ sym refined.1 ∙ b)))
      | inr (z, last) ↦
          let l = last_point-IsLast k q.timestamp z ps last in
          let fields : z.fields ≡ q.fields =
            some_inj (
              rw last at
                (sym (last_fields-last_point k q.timestamp none ps) ∙ sym refined.1 ∙ b)) in
          let tags = apart z i.point l.member i.member (l.key ∙ sym i.key) ∙ i.tags in
          let here = All-Mem (λ p. p.table ≡ table) z ps (Str-set _ _) one l.member ∙ sym t in
          subst (λ x. Survives x ps) (point_eq z q here l.time tags fields)
            (last_point-Survives k q.timestamp z ps last)
    ]
  where
    none_given : none ≢ some q.fields
    none_given e = cc

    point_eq :
        (x y : Point)
        → x.table ≡ y.table
        → x.timestamp ≡ y.timestamp
        → x.tags ≡ y.tags
        → x.fields ≡ y.fields
        → x ≡ y
    point_eq x y a b c d = cc

entry-Survives :
    (table : Str) (ps : List Point) (r : SeriesMap) (k : TagsKey) (e : SeriesEntry) (q : Point)
    → group_points table ps [] ≡ some r
    → All (λ p. p.table ≡ table) ps
    → KeysApart ps
    → HashMap.get r k ≡ some e
    → EntryClean e
    → Mem q (points_of table e.tags e.ts_fields)
    → Survives q ps
entry-Survives table ps r k e q g one apart present c m =
    let i = points_of-IsOf table e.tags e.ts_fields q m in
    series-Survives table ps r k q g one apart i.0.0 (rw (present, tags_of) (ap some (sym i.0.1))) (
      rw (present, fields_of)
        (BTreeMap.Laws.get-Mem Columns-option_set e.ts_fields q.timestamp q.fields c.1.1 i.1))

-- The points that the series of a group stand for, in whatever order these are read, are the points that
-- no later one overwrites.
pub series-refines :
    (h : Arrangement (TagsKey × SeriesEntry)) (table : Str) (ps : List Point) (r : SeriesMap)
    (q : Point)
    → group_points table ps [] ≡ some r
    → All (λ p. p.table ≡ table) ps
    → All PointClean ps
    → KeysApart ps
    → Mem q (points_of_entries table (values (h.arrange r))) ↔ Survives q ps
series-refines h table ps r q g one clean apart = (
  λ m.
      points_of_entries-elim table q (Survives q ps) (Survives-prop q ps) (h.arrange r) m
        (λ k e n d.
          let there = (Perm.mem_iff (h.arrange-perm r)).0 n in
          let present = Entries.get-Mem SeriesEntry-option_set r k e kept.distinct there in
          entry-Survives table ps r k e q g one apart present
            (All-get (λ x. EntryClean x.1) k e r kept.clean present) d),
  λ s.
      let m = Survives-Mem q ps s in
      let filed = group_points_files table ps r q g (λ p n. apart p q n m) m in
      Mem-filed h table r q filed.0
        (filed.1
          ∙ last_fields-last_point (make_tags_key q.tags) q.timestamp none ps
          ∙ rw (Survives-last_point q ps (λ p n. apart p q n m) s) refl)
        (All-Mem (λ p. p.table ≡ table) q ps (Str-set _ _) one m),
)
  where
    kept : IsGroupedMap r (count_tags_of ps) (count_fields_of ps)
    kept = grouped-IsGroupedMap table ps r clean g

-- ===== src/Write/Series/Laws.antt =====
-- Which points end up in which series.
use mathlib.Core.Bool.{false≢true}
use mathlib.Core.Option.{get_or}
use mathlib.Core.Logic.Or
use mathlib.Core.List.{Mem-prop, mem-cons, mem-cons_self, not-mem-nil}
use horaedb_client_rs.Prelude.{
  All, ◌++◌, subst, false, ◌≡◌, ◌≢◌, refl, ap, sym, ◌∙◌, Bool, true, ◌&&◌, Option, none, some, List,
  [], ◌∷◌, arith, Str, ◌==◌, str_eq, str_eqb_iff, int_ord, int_eq, if◌then◌else◌, Bool-cases, inl,
  inr, some_inj, is_some, Mem,
}
use horaedb_client_rs.BTreeMap
use horaedb_client_rs.HashMap
use horaedb_client_rs.HashMap.Laws.{get-insert}
use horaedb_client_rs.BTreeMap.Laws
use horaedb_client_rs.Value.{TimestampMs}
use horaedb_client_rs.Write.Point.{Point, Columns}
use horaedb_client_rs.Write.Key.{TagsKey, make_tags_key}
use horaedb_client_rs.Write.Series.{
  SeriesEntry, SeriesMap, add_to_series, add_fields, new_entry, group_points,
}

-- What a map of series says of a key and a time.
abbrev pub tags_of : SeriesMap → TagsKey → Option Columns
tags_of m k = elim (HashMap.get m k) [ none ↦ none | some e ↦ some e.tags ]

abbrev pub fields_of : SeriesMap → TagsKey → TimestampMs → Option Columns
fields_of m k ts = elim (HashMap.get m k) [ none ↦ none | some e ↦ BTreeMap.get e.ts_fields ts ]

-- The tags of the first point under a key.
abbrev pub first_tags : TagsKey → Option Columns → List Point → Option Columns
first_tags k o [] = o
first_tags k o (p ∷ ps) =
    first_tags k
      (elim o [ some t ↦ some t | none ↦ if make_tags_key p.tags == k then some p.tags else none ])
      ps

-- The fields of the last point under a key and a time.
abbrev pub last_fields : TagsKey → TimestampMs → Option Columns → List Point → Option Columns
last_fields k ts o [] = o
last_fields k ts o (p ∷ ps) =
    last_fields k ts (if make_tags_key p.tags == k && p.timestamp == ts then some p.fields else o)
      ps

-- Every point names this table.
abbrev pub of_one_table : Str → List Point → Bool
of_one_table t [] = true
of_one_table t (p ∷ ps) = p.table == t && of_one_table t ps

get-add_to_series :
    (m : SeriesMap) (p : Point) (k : TagsKey)
    → HashMap.get (add_to_series m p) k ≡ (
        if make_tags_key p.tags == k
        then some (add_fields (get_or (HashMap.get m k) (new_entry p)) p)
        else HashMap.get m k)
unfolding add_to_series
get-add_to_series m p k =
    get-insert m (make_tags_key p.tags) k _ ∙ (elim (Bool-cases (make_tags_key p.tags == k)) [
      | inl same ↦ rw same (
          ap (λ z. some (add_fields (get_or (HashMap.get m z) (new_entry p)) p))
            ((str_eqb_iff (make_tags_key p.tags) k).0 same))
      | inr other ↦ rw other
    ])

tags_of-add :
    (m : SeriesMap) (p : Point) (k : TagsKey)
    → tags_of (add_to_series m p) k ≡ elim (tags_of m k) [
      | some t ↦ some t
      | none ↦ if make_tags_key p.tags == k then some p.tags else none
    ]
tags_of-add m p k = ground (arith, get-add_to_series m p k)

-- What one step does to the entry that was there.
fields_of_entry :
    (o : Option SeriesEntry) (p : Point) (ts : TimestampMs)
    → BTreeMap.get (add_fields (get_or o (new_entry p)) p).ts_fields ts ≡ (
        if p.timestamp == ts
        then some p.fields
        else elim o [ none ↦ none | some e ↦ BTreeMap.get e.ts_fields ts ])
unfolding BTreeMap.get BTreeMap.insert
fields_of_entry none p ts = ground arith
fields_of_entry (some e) p ts = Laws.get-insert e.ts_fields p.timestamp ts p.fields

fields_of-add :
    (m : SeriesMap) (p : Point) (k : TagsKey) (ts : TimestampMs)
    → fields_of (add_to_series m p) k ts
      ≡ (if make_tags_key p.tags == k && p.timestamp == ts then some p.fields else fields_of m k ts)
fields_of-add m p k ts =
    ground (arith, get-add_to_series m p k, fields_of_entry (HashMap.get m k) p ts)

-- If the points are grouped at all, the series of each key has the tags of the first point with
-- that key, and at each time the fields of the last point with that key and that time, whatever
-- was in the map before.
pub group_points-refines :
    (table : Str) (ps : List Point) (m r : SeriesMap) (k : TagsKey) (ts : TimestampMs)
    → group_points table ps m ≡ some r
    → (tags_of r k ≡ first_tags k (tags_of m k) ps)
      × (fields_of r k ts ≡ last_fields k ts (fields_of m k ts) ps)
unfolding group_points
group_points-refines table [] m r k ts e =
    (ap (λ x. tags_of x k) (sym (some_inj e)), ap (λ x. fields_of x k ts) (sym (some_inj e)))
group_points-refines table (p ∷ ps) m r k ts e = elim (Bool-cases (p.table == table)) [
  | inl same ↦
      let ih = group_points-refines table ps (add_to_series m p) r k ts (ground arith) in
      (
        ih.0 ∙ ap (λ o. first_tags k o ps) (tags_of-add m p k),
        ih.1 ∙ ap (λ o. last_fields k ts o ps) (fields_of-add m p k ts),
      )
  | inr other ↦ ground arith
]

-- Grouping succeeds exactly if every point names the table of the group; otherwise the assertion
-- fails.
pub group_points_total :
    (table : Str) (ps : List Point) (m : SeriesMap)
    → is_some (group_points table ps m) ≡ of_one_table table ps
unfolding group_points
group_points_total table [] m = refl
group_points_total table (p ∷ ps) m =
    ground (arith, group_points_total table ps (add_to_series m p))

pub first_tags-some :
    (k : TagsKey) (t : Columns) (ps : List Point) → first_tags k (some t) ps ≡ some t
first_tags-some k t [] = refl
first_tags-some k t (p ∷ ps) = first_tags-some k t ps

first_tags-of :
    (k : TagsKey) (t : Columns) (p : Point) (ps : List Point)
    → ((q : Point) → Mem q ps → make_tags_key q.tags ≡ k → q.tags ≡ t)
    → Mem p ps
    → make_tags_key p.tags ≡ k
    → first_tags k none ps ≡ some t
first_tags-of k t p [] all m e = absurd (not-mem-nil m)
first_tags-of k t p (q ∷ ps) all m e = elim (Bool-cases (make_tags_key q.tags == k)) [
  | inl same ↦ rw same (
      first_tags-some k q.tags ps
      ∙ ap some (all q mem-cons_self ((str_eqb_iff (make_tags_key q.tags) k).0 same)))
  | inr other ↦ rw other (
      first_tags-of k t p ps (λ x n. all x (mem-cons.1 (Or.inr n)))
        (Or.elim Mem-prop (mem-cons.0 m)
          (λ h. absurd (
            false≢true (
              sym other
              ∙ (str_eqb_iff _ _).1 (ap (λ (x : Point). make_tags_key x.tags) (sym h) ∙ e))))
          (λ n. n))
        e)
]

-- Where the keys of a group's points tell their tags apart, each point is filed under its own tags,
-- with the fields of the last point of the same key and time.
pub group_points_files :
    (table : Str) (ps : List Point) (r : SeriesMap) (p : Point)
    → group_points table ps [] ≡ some r
    → ((q : Point) → Mem q ps → make_tags_key q.tags ≡ make_tags_key p.tags → q.tags ≡ p.tags)
    → Mem p ps
    → (tags_of r (make_tags_key p.tags) ≡ some p.tags)
      × (fields_of r (make_tags_key p.tags) p.timestamp
          ≡ last_fields (make_tags_key p.tags) p.timestamp none ps)
unfolding HashMap.get
group_points_files table ps r p e apart m =
    let k = make_tags_key p.tags in
    let h = group_points-refines table ps [] r k p.timestamp e in
    (h.0 ∙ first_tags-of k p.tags p ps apart m refl, h.1)

-- No point of the list has this key.
abbrev pub IsKeyFree : TagsKey → List Point → Type 0
IsKeyFree k ps = All (λ p. (make_tags_key p.tags == k) ≡ false) ps

first_tags-append :
    (k : TagsKey) (before ps : List Point)
    → IsKeyFree k before
    → first_tags k none (before ++ ps) ≡ first_tags k none ps
first_tags-append k [] ps free = refl
first_tags-append k (p ∷ before) ps free =
    rw (free.0, first_tags) (first_tags-append k before ps free.1)

-- Where a point is the first of its group with its key, and a later point has the same key and different
-- tags, the series of the key has the tags of the first: the later point is filed under tags that are not
-- its own.
pub group_points_misfiles :
    (table : Str) (before : List Point) (p q : Point) (after : List Point) (r : SeriesMap)
    → group_points table (before ++ p ∷ after) [] ≡ some r
    → IsKeyFree (make_tags_key p.tags) before
    → Mem q after
    → make_tags_key p.tags ≡ make_tags_key q.tags
    → p.tags ≢ q.tags
    → (tags_of r (make_tags_key q.tags) ≡ some p.tags)
      × (tags_of r (make_tags_key q.tags) ≢ some q.tags)
unfolding HashMap.get
group_points_misfiles table before p q after r e free m same differ =
    let k = make_tags_key q.tags in
    let h : tags_of r k ≡ some p.tags =
      (group_points-refines table (before ++ p ∷ after) [] r k q.timestamp e).0
      ∙ first_tags-append k before (p ∷ after) (subst (λ x. IsKeyFree x before) same free)
      ∙ rw ((str_eqb_iff (make_tags_key p.tags) k).1 same) (first_tags-some k p.tags after) in
    (h, λ x. differ (some_inj (sym h ∙ x)))

pub Columns-set : IsSet Columns
Columns-set = hlevel

-- ===== src/Write/Whole/Requests.antt =====
-- A whole write request, from the points that were added to the points that its messages hold.
pub mod Tests
use mathlib.Core.Bool.{false≢true}
use horaedb_client_rs.Write.Refine.{series-refines}
use horaedb_client_rs.Write.Survive.{Survives, KeysApart}
use horaedb_client_rs.Write.Groups.{
  groups-IsDistinct, Within, Within-Survives, Mem-Within, group-Mem, Mem-group, of_table-All,
  All-of_table, count_tags_of-of_table, count_fields_of-of_table,
}
use mathlib.Core.List.{mem-cons, mem-cons_self, mem-append, not-mem-nil, Mem-prop, Pairwise}
use mathlib.Core.Logic.Or
use mathlib.Core.Logic.{∨₁_prop}
use mathlib.Core.List.Perm
use horaedb_client_rs.Prelude.{
  ◌↔◌, ◌≢◌, subst, Mem, ◌++◌, ◌>>=◌, ℕ, ◌^◌, ◌≤◌, ◌≡◌, refl, ap, sym, ◌∙◌, Bool, true, Option, none,
  some, List, [], ◌∷◌, All, All-Mem, All-of_each, Str, is_some, arith, ◌==◌, str_eq, str_eqb_iff,
  Option-cases, inl, inr, length, map,
}
use horaedb_client_rs.HashMap
use horaedb_client_rs.HashMap.{HashMap, Arrangement}
use horaedb_client_rs.Write.Point.{Point, Columns}
use horaedb_client_rs.Write.Request.{Request, default, add_points, of_table}
use horaedb_client_rs.Write.Series
use horaedb_client_rs.Write.Series.{
  SeriesMap, TableRequestPbBuilder, group_points, of_series, values,
}
use horaedb_client_rs.Write.Series.Laws.{of_one_table, group_points_total}
use horaedb_client_rs.Write.Series.Invariant.{
  PointClean, count_tags_of, count_fields_of, grouped-IsGroupedMap,
}
use horaedb_client_rs.Write.Series.Arranged.{
  values-EntriesClean, count_all_tags-arrange, count_all_fields-arrange,
}
use horaedb_client_rs.Write.Proto.{
  HashOrders, WriteTableRequestPb, build, build_tables, build_requests,
}
use horaedb_client_rs.Write.Proto.Recover.{recover_points}
use horaedb_client_rs.Write.Proto.Entries.{points_of_entries, recover_points-build}
use horaedb_client_rs.Write.Series.Laws.{Columns-set}
use horaedb_client_rs.Write.Once.{Differ}
use horaedb_client_rs.Write.Whole.Once.{request-Pairwise}
use horaedb_client_rs.Write.Whole.Builds.{RequestClean, GroupClean-prop}
use horaedb_client_rs.Write.Whole.{GroupClean, IsCarried, recover_requests, groups-IsCarried}

group_is_clean :
    (ps : List Point) (t : Str) (g : List Point)
    → All PointClean ps
    → count_tags_of ps ≤ 2 ^ 32
    → count_fields_of ps ≤ 2 ^ 32
    → Mem (t, g) (add_points default ps).point_groups
    → GroupClean (t, g)
group_is_clean ps t g clean a b m =
    subst (λ x. GroupClean (t, x)) (sym (group-Mem ps t g m))
      (
        of_table-All t ps,
        (
          All-of_table PointClean t ps clean,
          (
            omega (arith, count_tags_of-of_table t ps, a),
            omega (arith, count_fields_of-of_table t ps, b),
          ),
        ),
      )

-- A request for clean points is clean.
pub add_points-RequestClean :
    (ps : List Point)
    → All PointClean ps
    → count_tags_of ps ≤ 2 ^ 32
    → count_fields_of ps ≤ 2 ^ 32
    → RequestClean (add_points default ps)
add_points-RequestClean ps clean a b =
    All-of_each GroupClean (add_points default ps).point_groups
      (λ x m. group_is_clean ps x.0 x.1 clean a b m)

pub Survives-not_empty : (q : Point) (ps : List Point) → Survives q ps → ps ≢ []
Survives-not_empty q ps s e = elim (subst (Survives q) e s) [ ]

-- What a request of whole groups of some points comes to: the messages, and the points that they read
-- back to.
pub record HoldsGroups (h : HashOrders) (ps : List Point) (req : Request) : Type 0 where
  pub requests : List WriteTableRequestPb
  pub points : List Point
  pub built : build_requests h req ≡ some requests
  pub recovered : recover_requests requests ≡ some points
  pub members :
      (q : Point)
      → Mem q points
        ↔ (Survives q (of_table q.table ps) × Mem (q.table, of_table q.table ps) req.point_groups)

pub request-HoldsGroups :
    (h : HashOrders) (ps : List Point) (req : Request)
    → RequestClean req
    → ((t : Str) → KeysApart (of_table t ps))
    → ((t : Str) (g : List Point) → Mem (t, g) req.point_groups → g ≡ of_table t ps)
    → HoldsGroups h ps req
unfolding build_requests
request-HoldsGroups h ps req clean apart whole = record {
  requests = carried.requests;
  points = carried.points;
  built = carried.built;
  recovered = carried.recovered;
  members = λ q. (
    λ m.
        let (s, n) =
          Within-Survives ps q groups (λ t g n. whole t g (there (t, g) n))
            ((carried.members q).0 m) in
        (s, there (q.table, of_table q.table ps) n),
    λ s. (carried.members q).1 (
        Mem-Within q q.table (of_table q.table ps) groups
          ((Perm.mem_iff (h.tables.arrange-perm req.point_groups)).1 s.1) s.0),
  );
}
  where
    groups : List (Str × List Point)
    groups = h.tables.arrange req.point_groups

    there : (x : Str × List Point) → Mem x groups → Mem x req.point_groups
    there x m = (Perm.mem_iff (h.tables.arrange-perm req.point_groups)).0 m

    carried : IsCarried h groups
    carried = groups-IsCarried h groups (λ t g m. (
      All-Mem GroupClean (t, g) req.point_groups (GroupClean-prop (t, g)) clean (there (t, g) m),
      subst KeysApart (sym (whole t g (there (t, g) m))) (apart t),
    ))

-- What a request for some points comes to: the messages, and the points that they read back to.
pub record IsDelivered (h : HashOrders) (ps : List Point) : Type 0 where
  pub requests : List WriteTableRequestPb
  pub points : List Point
  pub built : build_requests h (add_points default ps) ≡ some requests
  pub recovered : recover_requests requests ≡ some points
  pub members : (q : Point) → Mem q points ↔ Survives q (of_table q.table ps)
  pub differ : Pairwise Differ points

-- The refinement of a write request: for points whose columns are sorted and in range, with at most 2^32
-- tags and 2^32 fields together, whose keys tell their tags apart in each table, building the request
-- never panics in whatever order its hash maps are read, its messages read back, and the points that they
-- read back to are exactly the points that no later point of the same table, tags and time overwrites,
-- and no two of them have the same table, tags and time.
pub build_requests-refines :
    (h : HashOrders) (ps : List Point)
    → All PointClean ps
    → count_tags_of ps ≤ 2 ^ 32
    → count_fields_of ps ≤ 2 ^ 32
    → ((t : Str) → KeysApart (of_table t ps))
    → IsDelivered h ps
build_requests-refines h ps clean a b apart =
    let req = add_points default ps in
    let all_clean = add_points-RequestClean ps clean a b in
    let held = request-HoldsGroups h ps req all_clean apart (group-Mem ps) in
    record {
      requests = held.requests;
      points = held.points;
      built = held.built;
      recovered = held.recovered;
      members = λ q. (
        λ m. ((held.members q).0 m).0,
        λ s.
            (held.members q).1
              (s, Mem-group ps q.table (Survives-not_empty q (of_table q.table ps) s)),
      );
      differ =
          request-Pairwise h req
            (λ x m. All-Mem GroupClean x req.point_groups (GroupClean-prop x) all_clean m)
            (groups-IsDistinct ps) held.requests held.points held.built held.recovered;
    }

-- Points of one series.
pub one_series-KeysApart : (c : Columns) (ps : List Point) → All (λ p. p.tags ≡ c) ps → KeysApart ps
one_series-KeysApart c ps h p q m n e =
    All-Mem (λ x. x.tags ≡ c) p ps (Columns-set _ _) h m
    ∙ sym (All-Mem (λ x. x.tags ≡ c) q ps (Columns-set _ _) h n)

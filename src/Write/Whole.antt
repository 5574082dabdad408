-- ===== src/Write/Whole.antt =====
-- The groups of a write request, from their points to the protobuf messages: `TableRequestPbBuilder` and
-- `WriteTableRequestPbsBuilder::build` of src/model/write/request.rs together.
pub mod Builds
pub mod Once
pub mod Requests
use mathlib.Core.Bool.{false≢true}
use horaedb_client_rs.Write.Refine.{series-refines}
use horaedb_client_rs.Write.Survive.{Survives, KeysApart}
use horaedb_client_rs.Write.Groups.{
  Within, Within-Survives, Mem-Within, group-Mem, Mem-group, of_table-All, count_tags_of-of_table,
  count_fields_of-of_table,
}
use mathlib.Core.List.{mem-cons, mem-cons_self, mem-append, not-mem-nil, Mem-prop}
use mathlib.Core.Logic.Or
use mathlib.Core.Logic.{∨₁_prop}
use mathlib.Core.List.Perm
use horaedb_client_rs.Prelude.{
  ◌↔◌, ◌≢◌, subst, Mem, ◌++◌, ◌>>=◌, ℕ, ◌^◌, ◌≤◌, ◌≡◌, refl, ap, sym, ◌∙◌, Bool, true, Option, none,
  some, List, [], ◌∷◌, All, Str, is_some, arith, ◌==◌, str_eq, str_eqb_iff, Option-cases, inl, inr,
  length, map,
}
use horaedb_client_rs.HashMap
use horaedb_client_rs.HashMap.{HashMap, Arrangement}
use horaedb_client_rs.Write.Point.{Point}
use horaedb_client_rs.Write.Request.{Request, default, add_points, of_table}
use horaedb_client_rs.Write.Series
use horaedb_client_rs.Write.Series.{
  SeriesMap, TableRequestPbBuilder, group_points, of_series, values,
}
use horaedb_client_rs.Write.Series.Laws.{of_one_table, group_points_total}
use horaedb_client_rs.Write.Series.Invariant.{
  PointClean, count_tags_of, count_fields_of, grouped-IsGroupedMap,
}
use horaedb_client_rs.Write.Series.Arranged.{
  values-EntriesClean, count_all_tags-arrange, count_all_fields-arrange,
}
use horaedb_client_rs.Write.Proto.{
  HashOrders, WriteTableRequestPb, build, build_tables, build_requests,
}
use horaedb_client_rs.Write.Proto.Recover.{recover_points}
use horaedb_client_rs.Write.Proto.Entries.{points_of_entries, recover_points-build}

-- A group that the builders can take: clean points of its own table, with at most 2^32 tags and fields.
abbrev pub GroupClean : Str × List Point → Type 0
GroupClean (table, ps) =
    All (λ p. p.table ≡ table) ps
    × (All PointClean ps × ((count_tags_of ps ≤ 2 ^ 32) × (count_fields_of ps ≤ 2 ^ 32)))

of_one_table-All :
    (t : Str) (ps : List Point) → All (λ p. p.table ≡ t) ps → of_one_table t ps ≡ true
of_one_table-All t [] h = refl
of_one_table-All t (p ∷ ps) h = rw ((str_eqb_iff p.table t).1 h.0) (of_one_table-All t ps h.1)

-- The series of a clean group, in whatever order they are read, make a message that reads back to their
-- points.
pub new-recovers :
    (h : HashOrders) (table : Str) (ps : List Point)
    → GroupClean (table, ps)
    → (r : SeriesMap) × ((group_points table ps [] ≡ some r)
        × ((Series.new h.series table ps
              ≡ some (record { table = table; series_entries = values (h.series.arrange r) }))
            × ((build h.names
                    (record { table = table; series_entries = values (h.series.arrange r) })
                  >>= recover_points)
                ≡ some (points_of_entries table (values (h.series.arrange r))))))
unfolding Series.new
new-recovers h table ps (one, (clean, (t, f))) = elim (Option-cases (group_points table ps [])) [
  | inl failed ↦
      absurd
        (false≢true (rw failed at (group_points_total table ps [] ∙ of_one_table-All table ps one)))
  | inr (r, grouped) ↦
      let g = grouped-IsGroupedMap table ps r clean grouped in
      (
        r,
        (
          grouped,
          (
            rw (grouped, of_series) refl,
            recover_points-build h.names
                (record { table = table; series_entries = values (h.series.arrange r) })
                (values-EntriesClean h.series r g.clean)
                (omega (arith, count_all_tags-arrange h.series r, g.tags))
                (omega (arith, count_all_fields-arrange h.series r, g.fields)),
          ),
        ),
      )
]

-- The points of all the messages of a request.
abbrev pub recover_requests : List WriteTableRequestPb → Option (List Point)
recover_requests [] = some []
recover_requests (req ∷ reqs) = do
  points ← recover_points req
  rest ← recover_requests reqs
  some (points ++ rest)

-- The messages of some groups, and the points that they read back to.
pub record IsCarried (h : HashOrders) (l : List (Str × List Point)) : Type 0 where
  pub requests : List WriteTableRequestPb
  pub points : List Point
  pub built : build_tables h l ≡ some requests
  pub recovered : recover_requests requests ≡ some points
  pub members : (q : Point) → Mem q points ↔ Within q l

append-Within :
    (q : Point) (t : Str) (g : List Point) (l : List (Str × List Point)) (here rest : List Point)
    → (Mem q here ↔ Survives q g)
    → (Mem q rest ↔ Within q l)
    → Mem q (here ++ rest) ↔ Within q ((t, g) ∷ l)
append-Within q t g l here rest a b = (
  λ m. Or.elim ∨₁_prop (mem-append.0 m) (λ x. Or.inl (a.0 x)) (λ x. Or.inr (b.0 x)),
  λ w. Or.elim Mem-prop w (λ x. mem-append.1 (Or.inl (a.1 x))) (λ x. mem-append.1 (Or.inr (b.1 x))),
)

pub groups-IsCarried :
    (h : HashOrders) (l : List (Str × List Point))
    → ((t : Str) (g : List Point) → Mem (t, g) l → GroupClean (t, g) × KeysApart g)
    → IsCarried h l
unfolding build_tables
groups-IsCarried h [] c = record {
  requests = [];
  points = [];
  built = refl;
  recovered = refl;
  members = λ q. (λ m. absurd (not-mem-nil m), λ w. elim w [ ]);
}
groups-IsCarried h ((t, g) ∷ l) c =
    let (clean, apart) = c t g mem-cons_self in
    let rest = groups-IsCarried h l (λ u f m. c u f (mem-cons.1 (Or.inr m))) in
    let (r, (grouped, (made, read))) = new-recovers h t g clean in
    let here = points_of_entries t (values (h.series.arrange r)) in
    let b : TableRequestPbBuilder = record {
      table = t;
      series_entries = values (h.series.arrange r);
    } in
    elim (Option-cases (build h.names b)) [
      | inl failed ↦ absurd (none_given here (rw failed at read))
      | inr (req, is_built) ↦ record {
        requests = req ∷ rest.requests;
        points = here ++ rest.points;
        built = rw made (rw is_built (rw rest.built refl));
        recovered = rw (rw is_built at read) (rw rest.recovered refl);
        members = λ q.
            append-Within q t g l here rest.points
              (series-refines h.series t g r q grouped clean.0 clean.1.0 apart) (rest.members q);
      }
    ]
  where
    none_given : (l : List Point) → none ≢ some l
    none_given l e = cc

-- ===== src/Write/Whole/Once.antt =====
-- The points that the messages of a request read back to, and whether one comes twice.
use mathlib.Core.Bool.{false≢true}
use mathlib.Core.List.{mem-cons, mem-cons_self, mem-append, not-mem-nil, Pairwise, Pairwise-append}
use mathlib.Core.List.Perm
use mathlib.Core.Logic.Or
use horaedb_client_rs.Prelude.{
  ◌≡◌, ◌≢◌, refl, ap, sym, ◌∙◌, false, none, some, List, [], ◌∷◌, ◌++◌, Mem, All, Str, str_eq,
  str_eqb_iff, ◌==◌, bool_set, some_inj, Option-cases, inl, inr, subst,
}
use horaedb_client_rs.HashMap.Entries.{IsDistinct, arrange-IsDistinct}
use horaedb_client_rs.Write.Point.{Point}
use horaedb_client_rs.Write.Request.{Request}
use horaedb_client_rs.Write.Series.{SeriesMap, TableRequestPbBuilder, values}
use horaedb_client_rs.Write.Proto.{
  HashOrders, WriteTableRequestPb, build, build_tables, build_requests,
}
use horaedb_client_rs.Write.Proto.Entries.{points_of_entries}
use horaedb_client_rs.Write.Once.{Differ, Differ-prop, series-Pairwise}
use horaedb_client_rs.Write.Refine.{points_of-IsOf, points_of_entries-elim}
use horaedb_client_rs.Write.Whole.{GroupClean, new-recovers, recover_requests}

Str-set : IsSet Str
Str-set = hlevel

abbrev IsFresh : Str → List (Str × List Point) → Type 0
IsFresh t l = All (λ (x : Str × List Point). (x.0 == t) ≡ false) l

-- The points that the messages of some groups read back to: none twice, and none of a table without a group.
record IsOnce (h : HashOrders) (l : List (Str × List Point)) : Type 0 where
  requests : List WriteTableRequestPb
  points : List Point
  built : build_tables h l ≡ some requests
  recovered : recover_requests requests ≡ some points
  differ : Pairwise Differ points
  fresh : (t : Str) → IsFresh t l → (q : Point) → Mem q points → (q.table == t) ≡ false

points_of_entries-table :
    (t : Str) (l : SeriesMap) (q : Point) → Mem q (points_of_entries t (values l)) → q.table ≡ t
points_of_entries-table t l q m =
    points_of_entries-elim t q (q.table ≡ t) (Str-set _ _) l m
      (λ k e n own. (points_of-IsOf t e.tags e.ts_fields q own).0.0)

groups-IsOnce :
    (h : HashOrders) (l : List (Str × List Point))
    → ((x : Str × List Point) → Mem x l → GroupClean x)
    → IsDistinct l
    → IsOnce h l
unfolding build_tables
groups-IsOnce h [] c d = record {
  requests = [];
  points = [];
  built = refl;
  recovered = refl;
  differ = Pairwise.nil;
  fresh = λ t f q m. absurd (not-mem-nil m);
}
groups-IsOnce h ((t, g) ∷ l) c d =
    let clean = c (t, g) mem-cons_self in
    let rest = groups-IsOnce h l (λ x m. c x (mem-cons.1 (Or.inr m))) d.1 in
    let (r, (grouped, (made, read))) = new-recovers h t g clean in
    let series = h.series.arrange r in
    let here = points_of_entries t (values series) in
    let b : TableRequestPbBuilder = record { table = t; series_entries = values series } in
    elim (Option-cases (build h.names b)) [
      | inl failed ↦ absurd (none_given here (rw failed at read))
      | inr (req, is_built) ↦ record {
        requests = req ∷ rest.requests;
        points = here ++ rest.points;
        built = rw made (rw is_built (rw rest.built refl));
        recovered = rw (rw is_built at read) (rw rest.recovered refl);
        differ = (Pairwise-append Differ-prop {l₁ = here}).1 (
          series-Pairwise h.series t g r grouped clean.1.0,
          rest.differ,
          λ p m q n a tags. absurd (
              false≢true (
                sym (rest.fresh t d.0 q n)
                ∙ (str_eqb_iff q.table t).1 (sym a ∙ points_of_entries-table t series p m))),
        );
        fresh = λ u f q m.
            Or.elim (bool_set _ _) (mem-append.0 m)
              (λ x. subst (λ z. (z == u) ≡ false) (sym (points_of_entries-table t series q x)) f.0)
              (λ x. rest.fresh u f.1 q x);
      }
    ]
  where
    none_given : (l : List Point) → none ≢ some l
    none_given l e = cc

-- Whatever the order in which the hash maps are read, the points that the messages of a request of clean
-- groups read back to differ in their tables, their tags or their times.
pub request-Pairwise :
    (h : HashOrders) (req : Request)
    → ((x : Str × List Point) → Mem x req.point_groups → GroupClean x)
    → IsDistinct req.point_groups
    → (requests : List WriteTableRequestPb) (points : List Point)
    → build_requests h req ≡ some requests
    → recover_requests requests ≡ some points
    → Pairwise Differ points
unfolding build_requests
request-Pairwise h req c d requests points built recovered =
    let once =
      groups-IsOnce h (h.tables.arrange req.point_groups)
        (λ x m. c x ((Perm.mem_iff (h.tables.arrange-perm req.point_groups)).0 m))
        (arrange-IsDistinct h.tables req.point_groups d) in
    let same = some_inj (sym once.built ∙ built) in
    subst (Pairwise Differ) (some_inj (sym once.recovered ∙ ap recover_requests same ∙ recovered))
      once.differ

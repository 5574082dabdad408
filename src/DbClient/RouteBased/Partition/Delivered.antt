-- ===== src/DbClient/RouteBased/Partition/Delivered.antt =====
-- A whole write, from the points added to what the servers are sent.
use mathlib.Core.Bool.{false≢true}
use mathlib.Core.List.{mem-cons, not-mem-nil, Mem-prop}
use mathlib.Core.List.Perm
use mathlib.Core.Logic.Or
use horaedb_client_rs.Prelude.{
  ◌^◌, ◌≤◌, ◌≡◌, refl, ap, sym, ◌∙◌, Bool, true, false, ◌&&◌, ◌||◌, Option, some, List, [], ◌∷◌,
  map, All, Mem, Str, str_eq, str_eqb_iff, ◌==◌, is_some, Option-cases, Bool-cases, inl, inr,
}
use horaedb_client_rs.DbClient.RouteBased.Partition.{Groups, Parts, partition}
use horaedb_client_rs.DbClient.RouteBased.Partition.Clean.{partition-PartClean}
use horaedb_client_rs.DbClient.RouteBased.Partition.Laws.{group_in, assigned}
use horaedb_client_rs.DbClient.RouteBased.Partition.Routed.{partition-routed, endpoint_for-some}
use horaedb_client_rs.DbClient.RouteBased.Write.{WriteOrders, keys}
use horaedb_client_rs.Endpoint.{Endpoint, endpoint_eq, endpoint_eqb_iff}
use horaedb_client_rs.HashMap
use horaedb_client_rs.Router.{RouterImpl, Targets}
use horaedb_client_rs.Router.Expected.{endpoints_for}
use horaedb_client_rs.Router.Places.{occurs}
use horaedb_client_rs.Rpc.{Route}
use horaedb_client_rs.Write.Point.{Point}
use horaedb_client_rs.Write.Request.{Request, default, add_points, of_table}
use horaedb_client_rs.Write.Groups.{Mem-group, group-get}
use horaedb_client_rs.Write.Survive.{Survives, KeysApart}
use horaedb_client_rs.Write.Series.Invariant.{PointClean, count_tags_of, count_fields_of}
use horaedb_client_rs.Write.Whole.Requests.{add_points-RequestClean, Survives-not_empty}
use horaedb_client_rs.DbClient.RouteBased.Partition.Part.{
  IsPartCarried, part-IsPartCarried, none_given,
}

assigned-here :
    (o : Option Endpoint) (e : Endpoint) (eps : Targets) (u t : Str) (us : List Str)
    → o ≡ some e
    → (u == t) ≡ true
    → assigned (o ∷ eps) (u ∷ us) e t ≡ true
assigned-here o e eps u t us is same = rw is (rw ((endpoint_eqb_iff e e).1 refl) (rw same refl))

assigned-later :
    (o : Option Endpoint) (e d : Endpoint) (eps : Targets) (u t : Str) (us : List Str)
    → o ≡ some e
    → assigned eps us d t ≡ true
    → assigned (o ∷ eps) (u ∷ us) d t ≡ true
assigned-later o e d eps u t us is later = rw is (rw later (or_true ((e == d) && (u == t))))
  where
    or_true : (b : Bool) → (b || true) ≡ true
    or_true true = refl
    or_true false = refl

-- The server that a table is sent to.
assigned-routed :
    (r : RouterImpl) (routes : List Route) (tables : List Str) (t : Str)
    → Mem t tables
    → (e : Endpoint) × (assigned (endpoints_for r routes tables) tables e t ≡ true)
assigned-routed r routes [] t m = absurd (not-mem-nil m)
assigned-routed r routes (u ∷ us) t m =
    let (e, is) = endpoint_for-some r routes u (occurs u us) in
    elim (Bool-cases (u == t)) [
      | inl same ↦ (e, assigned-here _ e (endpoints_for r routes us) u t us is same)
      | inr other ↦
          let (d, later) = assigned-routed r routes us t (
            Or.elim Mem-prop (mem-cons.0 m)
              (λ h. absurd (false≢true (sym other ∙ (str_eqb_iff u t).1 (sym h)))) (λ n. n)) in
          (d, assigned-later _ e d (endpoints_for r routes us) u t us is later)
    ]

Mem-keys :
    (l : Groups) (t : Str) (g : List Point)
    → Mem (t, g) l
    → Mem t (map (λ (x : Str × List Point). x.0) l)
Mem-keys [] t g m = absurd (not-mem-nil m)
Mem-keys (x ∷ l) t g m =
    Or.elim Mem-prop (mem-cons.0 m)
      (λ e. mem-cons.1 (Or.inl (ap (λ (y : Str × List Point). y.0) e)))
      (λ n. mem-cons.1 (Or.inr (Mem-keys l t g n)))

-- What the split of a request for some points comes to: the parts, what the messages for each part hold,
-- and that each point that no later one overwrites has a part.
abbrev pub IsSplit : WriteOrders → List Point → RouterImpl → List Route → Type 0
IsSplit h ps r routes =
    let groups = (add_points default ps).point_groups in
    let tables = keys h groups in
    let eps = endpoints_for r routes tables in
    (parts : Parts) × ((partition groups eps tables [] [] ≡ some (parts, []))
      × (((e : Endpoint) (req : Request)
            → HashMap.get parts e ≡ some req
            → IsPartCarried h.requests ps eps tables e req)
          × ((q : Point)
              → Survives q (of_table q.table ps)
              → (e : Endpoint) × ((is_some (HashMap.get parts e) ≡ true)
                  × (assigned eps tables e q.table ≡ true)))))

-- The servers' share of a write: for points whose columns are sorted and in range, with at most 2^32 tags
-- and 2^32 fields together, whose keys tell their tags apart in each table, and the endpoints that the
-- router gives their tables, the request is split without a panic; the messages for the part of an
-- endpoint can be built, and the points that they read back to are exactly the points of the tables that
-- the router gives that endpoint, but those that a later point of the same table, tags and time
-- overwrites; and each such point has such a part.
pub partition-delivers :
    (h : WriteOrders) (ps : List Point) (r : RouterImpl) (routes : List Route)
    → All PointClean ps
    → count_tags_of ps ≤ 2 ^ 32
    → count_fields_of ps ≤ 2 ^ 32
    → ((t : Str) → KeysApart (of_table t ps))
    → IsSplit h ps r routes
partition-delivers h ps r routes clean a b apart =
    let (parts, (split, law)) = partition-routed h groups r routes in
    let kept =
      partition-PartClean groups eps tables [] parts [] [] (add_points-RequestClean ps clean a b) tt
        split in
    (
      parts,
      (
        split,
        (
          λ e req present. part-IsPartCarried h ps r routes apart parts e req kept (law e) present,
          λ q s.
              let there = Survives-not_empty q (of_table q.table ps) s in
              let (e, given) = assigned-routed r routes tables q.table (
                Mem-keys (h.requests.tables.arrange groups) q.table (of_table q.table ps) (
                  (Perm.mem_iff (h.requests.tables.arrange-perm groups)).1
                    (Mem-group ps q.table there))) in
              (
                e,
                (
                  part_is_some parts e q.table (of_table q.table ps)
                      (law e q.table ∙ rw given (group-get ps q.table there)),
                  given,
                ),
              ),
        ),
      ),
    )
  where
    groups : Groups
    groups = (add_points default ps).point_groups

    tables : List Str
    tables = keys h groups

    eps : Targets
    eps = endpoints_for r routes tables

    part_is_some :
        (parts : Parts) (e : Endpoint) (t : Str) (g : List Point)
        → group_in parts e t ≡ some g
        → is_some (HashMap.get parts e) ≡ true
    part_is_some parts e t g k = elim (Option-cases (HashMap.get parts e)) [
      | inl absent ↦ absurd (none_given g (rw (absent, group_in) at k))
      | inr (req, present) ↦ rw present refl
    ]

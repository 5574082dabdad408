-- ===== src/DbClient/RouteBased/Partition/Part.antt =====
-- What the messages for the part of one endpoint hold.
use horaedb_client_rs.Prelude.{
  All-Mem, ◌≡◌, ◌≢◌, ◌↔◌, refl, sym, ◌∙◌, Bool, true, false, Option, none, some, List, All, Mem,
  Str, str_eq, if◌then◌else◌,
}
use horaedb_client_rs.DbClient.RouteBased.Partition.{Groups, Parts}
use horaedb_client_rs.DbClient.RouteBased.Partition.Clean.{PartClean}
use horaedb_client_rs.DbClient.RouteBased.Partition.Laws.{group_in, assigned}
use horaedb_client_rs.DbClient.RouteBased.Write.{WriteOrders, keys}
use horaedb_client_rs.Endpoint.{Endpoint, endpoint_eq}
use horaedb_client_rs.HashMap
use horaedb_client_rs.HashMap.Entries
use horaedb_client_rs.HashMap.Entries.{All-get}
use horaedb_client_rs.Router.{RouterImpl, Targets}
use horaedb_client_rs.Router.Expected.{endpoints_for}
use horaedb_client_rs.Rpc.{Route}
use horaedb_client_rs.Write.Point.{Point}
use horaedb_client_rs.Write.Request.{Request, default, add_points, of_table}
use horaedb_client_rs.Write.Proto.{HashOrders, WriteTableRequestPb, build_requests}
use horaedb_client_rs.Write.Groups.{Points-option_set, group-Mem, group-get}
use horaedb_client_rs.Write.Survive.{Survives, KeysApart}
use mathlib.Core.List.{Pairwise}
use horaedb_client_rs.Write.Once.{Differ}
use horaedb_client_rs.Write.Whole.Once.{request-Pairwise}
use horaedb_client_rs.Write.Whole.Builds.{GroupClean-prop}
use horaedb_client_rs.Write.Whole.{GroupClean, recover_requests}
use horaedb_client_rs.Write.Whole.Requests.{Survives-not_empty, HoldsGroups, request-HoldsGroups}

-- What the server of an endpoint is sent of a request for some points.
pub record IsPartCarried (h : HashOrders) (ps : List Point) (eps : Targets) (tables : List Str)
    (e : Endpoint) (req : Request) : Type 0 where
  pub requests : List WriteTableRequestPb
  pub points : List Point
  pub built : build_requests h req ≡ some requests
  pub recovered : recover_requests requests ≡ some points
  pub members :
      (q : Point)
      → Mem q points ↔ (Survives q (of_table q.table ps) × (assigned eps tables e q.table ≡ true))
  pub differ : Pairwise Differ points

pub none_given : {A : Type 0} (a : A) → none ≢ some a
none_given a e = cc

-- What the law of the split says of a table that a part has.
assigned-of_group :
    (groups : Groups) (t : Str) (a : Bool) (o : Option (List Point)) (g : List Point)
    → o ≡ some g
    → o ≡ (if a then HashMap.get groups t else none)
    → (a ≡ true) × (HashMap.get groups t ≡ some g)
assigned-of_group groups t true o g present law = (refl, sym law ∙ present)
assigned-of_group groups t false o g present law = absurd (none_given g (sym law ∙ present))

module _ (h : WriteOrders) (ps : List Point) (r : RouterImpl) (routes : List Route)
    (apart : (t : Str) → KeysApart (of_table t ps)) where
  pub part-IsPartCarried :
      (parts : Parts) (e : Endpoint) (req : Request)
      → All PartClean parts
      → ((t : Str)
          → group_in parts e t ≡ (
              if assigned
                (endpoints_for r routes (keys h (add_points default ps).point_groups))
                (keys h (add_points default ps).point_groups)
                e
                t
              then HashMap.get (add_points default ps).point_groups t
              else none))
      → HashMap.get parts e ≡ some req
      → IsPartCarried h.requests ps
          (endpoints_for r routes (keys h (add_points default ps).point_groups))
          (keys h (add_points default ps).point_groups)
          e
          req
  part-IsPartCarried parts e req clean law present = record {
    requests = held.requests;
    points = held.points;
    built = held.built;
    recovered = held.recovered;
    members = λ q. (
      λ m. let (s, n) = (held.members q).0 m in (s, (routed q.table (of_table q.table ps) n).0),
      λ x. (held.members q).1 (x.0, sent q x.0 x.1),
    );
    differ =
        request-Pairwise h.requests req
          (λ x m. All-Mem GroupClean x req.point_groups (GroupClean-prop x) kept.0 m) kept.1
          held.requests held.points held.built held.recovered;
  }
    where
      groups : Groups
      groups = (add_points default ps).point_groups

      tables : List Str
      tables = keys h groups

      eps : Targets
      eps = endpoints_for r routes tables

      kept : PartClean (e, req)
      kept = All-get PartClean e req parts clean present

      in_part : (t : Str) → group_in parts e t ≡ HashMap.get req.point_groups t
      in_part t = rw (present, group_in) refl

      routed :
          (t : Str) (g : List Point)
          → Mem (t, g) req.point_groups
          → (assigned eps tables e t ≡ true) × (HashMap.get groups t ≡ some g)
      routed t g m =
          assigned-of_group groups t (assigned eps tables e t) (group_in parts e t) g
            (in_part t ∙ Entries.get-Mem Points-option_set req.point_groups t g kept.1 m) (law t)

      held : HoldsGroups h.requests ps req
      held =
          request-HoldsGroups h.requests ps req kept.0 apart
            (λ t g m. group-Mem ps t g (Entries.Mem-get groups t g (routed t g m).1))

      sent :
          (q : Point)
          → Survives q (of_table q.table ps)
          → assigned eps tables e q.table ≡ true
          → Mem (q.table, of_table q.table ps) req.point_groups
      sent q s a = Entries.Mem-get req.point_groups q.table (of_table q.table ps) (
          sym (in_part q.table)
          ∙ law q.table
          ∙ rw a (group-get ps q.table (Survives-not_empty q (of_table q.table ps) s)))

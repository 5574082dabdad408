-- ===== src/DbClient/RouteBased/Write/Delivers.antt =====
-- A write as a whole: the points that the servers are sent, and what is made of their answers.
use horaedb_client_rs.Prelude.{◌^◌, ◌≤◌, ◌≡◌, true, some, List, [], All, Str, is_some, str_eq}
use horaedb_client_rs.DbClient.RouteBased.{RouteBasedImpl}
use horaedb_client_rs.DbClient.RouteBased.Answered.{replies}
use horaedb_client_rs.DbClient.RouteBased.Replies.{send_parts-replies}
use horaedb_client_rs.DbClient.RouteBased.Partition.{Parts}
use horaedb_client_rs.DbClient.RouteBased.Partition.Clean.{
  PartClean, PartClean-prop, partition-PartClean, partition-IsDistinct,
}
use horaedb_client_rs.DbClient.RouteBased.Partition.Delivered.{partition-delivers}
use horaedb_client_rs.DbClient.RouteBased.Partition.Laws.{assigned}
use horaedb_client_rs.DbClient.RouteBased.Partition.Part.{IsPartCarried}
use horaedb_client_rs.DbClient.RouteBased.Write.{WriteOrders, keys, write_routed}
use horaedb_client_rs.DbClient.RouteBased.Write.Total.{parts-Buildable}
use horaedb_client_rs.DbClient.RouteBased.Write.Whole.{outcome, write_routed-exact}
use horaedb_client_rs.Endpoint.{Endpoint, endpoint_eq}
use horaedb_client_rs.Errors.{Result}
use horaedb_client_rs.HashMap
use horaedb_client_rs.HashMap.Entries.{arrange-IsDistinct}
use horaedb_client_rs.Router.{RouterImpl, Cache, Targets, route_request}
use horaedb_client_rs.Router.Expected.{endpoints_for, only_expected}
use horaedb_client_rs.Rpc.{RpcContext, RouteResponse}
use horaedb_client_rs.Rpc.Client.{RpcClient, RpcClientFactory}
use horaedb_client_rs.Write.Point.{Point}
use horaedb_client_rs.Write.Request.{Request, default, add_points, of_table}
use horaedb_client_rs.Write.Survive.{Survives, KeysApart}
use horaedb_client_rs.Write.Series.Invariant.{PointClean, count_tags_of, count_fields_of}
use horaedb_client_rs.Write.Whole.Builds.{arrange-All}
use horaedb_client_rs.Write.Whole.Requests.{add_points-RequestClean}

-- What a write of some points comes to: the parts, with the points that the messages for each hold; that no
-- point is left out but those that are overwritten; and the answers, which make the result.
pub record IsWritten (X : Type 0) (h : WriteOrders) (factory : RpcClientFactory X)
    (meanwhile : Cache → Cache) (r : RouteBasedImpl X) (router : RouterImpl) (client : RpcClient X)
    (ctx : RpcContext) (ps : List Point) (database : Str) (eps : Targets) : Type 0 where
  pub parts : Parts
  pub held :
      (e : Endpoint) (req : Request)
      → HashMap.get parts e ≡ some req
      → IsPartCarried h.requests ps eps (keys h (add_points default ps).point_groups) e req
  pub all_sent :
      (q : Point)
      → Survives q (of_table q.table ps)
      → (e : Endpoint) × ((is_some (HashMap.get parts e) ≡ true)
          × (assigned eps (keys h (add_points default ps).point_groups) e q.table ≡ true))
  pub after : RouteBasedImpl X
  pub answered :
      write_routed h factory meanwhile r (router, client) ctx (add_points default ps)
      ≡ some (
        outcome (replies X h factory ctx database r.standalone_pool (h.parts.arrange parts)),
        after,
      )

-- The refinement of a write: for points whose columns are sorted and in range, with at most 2^32 tags and
-- 2^32 fields together, whose keys tell their tags apart in each table, if the context names a database
-- and the router's server answers and only routes tables that it was asked for, the write splits the
-- request by the endpoints that the router gives. The messages for the part of an endpoint read back to
-- exactly the points of its tables, but those that a later point of the same table, tags and time
-- overwrites, no two of them with the same table, tags and time, and each such point has such a part. The
-- client of each part's endpoint is sent those messages, and the write returns the totals of the answers,
-- or else what was written and each error with its tables.
pub write_routed-IsWritten :
    (X : Type 0) (h : WriteOrders) (factory : RpcClientFactory X) (meanwhile : Cache → Cache)
    (r : RouteBasedImpl X) (router : RouterImpl) (client : RpcClient X) (ctx : RpcContext)
    (ps : List Point) (database : Str) (resp : RouteResponse)
    → ctx.database ≡ some database
    → client.route ctx
        (route_request h.misses router (keys h (add_points default ps).point_groups) database)
      ≡ Result.ok resp
    → only_expected router (keys h (add_points default ps).point_groups) resp.routes ≡ true
    → All PointClean ps
    → count_tags_of ps ≤ 2 ^ 32
    → count_fields_of ps ≤ 2 ^ 32
    → ((t : Str) → KeysApart (of_table t ps))
    → IsWritten X h factory meanwhile r router client ctx ps database
        (endpoints_for router resp.routes (keys h (add_points default ps).point_groups))
write_routed-IsWritten X h factory meanwhile r router client ctx ps database resp d a o clean t f
      apart =
    let req = add_points default ps in
    let tables = keys h req.point_groups in
    let eps = endpoints_for router resp.routes tables in
    let (parts, (split, (held, all_sent))) =
      partition-delivers h ps router resp.routes clean t f apart in
    let kept =
      partition-PartClean req.point_groups eps tables [] parts [] []
        (add_points-RequestClean ps clean t f) tt split in
    let distinct = partition-IsDistinct req.point_groups eps tables [] parts [] [] tt split in
    let (pool, sent) =
      send_parts-replies X h factory ctx database r.standalone_pool (h.parts.arrange parts) d
        (parts-Buildable X h factory meanwhile (h.parts.arrange parts)
          (arrange-All PartClean PartClean-prop h.parts parts kept))
        (arrange-IsDistinct h.parts parts distinct) in
    let (after, (written, cached)) =
      write_routed-exact X h factory meanwhile r router client ctx req database resp parts
        (replies X h factory ctx database r.standalone_pool (h.parts.arrange parts)) pool d a o
        split sent in
    record { parts = parts; held = held; all_sent = all_sent; after = _; answered = written }

-- ===== src/DbClient/RouteBased/Write/Whole.antt =====
-- A write from the routing of its tables to its result.
use horaedb_client_rs.Prelude.{
  ◌≡◌, ap, ◌∙◌, true, Option, none, some, List, [], Str, str_eq, if◌then◌else◌,
}
use horaedb_client_rs.DbClient.RouteBased.{DirectClientPool, RouteBasedImpl}
use horaedb_client_rs.DbClient.RouteBased.Partition.{Parts, partition}
use horaedb_client_rs.DbClient.RouteBased.Write.{
  WriteOrders, Results, keys, prepare, send_all, evicts, write_parts, write_routed,
}
use horaedb_client_rs.DbClient.RouteBased.Write.Laws.{
  of_outdated, totals, merged-merge, get-evict-evicts,
}
use horaedb_client_rs.Endpoint.{Endpoint, endpoint_eq}
use horaedb_client_rs.Errors.{Error, WriteResponse, Result, write_error}
use horaedb_client_rs.Errors.Merge.{every_ok, ok_tables, errors_of}
use horaedb_client_rs.HashMap
use horaedb_client_rs.Router.{RouterImpl, Cache, Targets, route_request, evict}
use horaedb_client_rs.Router.Expected.{endpoints_for, only_expected}
use horaedb_client_rs.Router.Fill.{last_route}
use horaedb_client_rs.Router.Laws.{route-exact}
use horaedb_client_rs.Rpc.{RpcContext, RouteResponse}
use horaedb_client_rs.Rpc.Client.{RpcClient, RpcClientFactory}
use horaedb_client_rs.Write.Request.{Request}

-- What a write returns of the results of its parts.
abbrev pub outcome : {X : Type 0} → Results X → Result X WriteResponse
outcome results =
    if every_ok results
    then Result.ok (totals results)
    else Result.err
        (Error.route_based (write_error (ok_tables results) (totals results) (errors_of results)))

write_parts-exact :
    (X : Type 0) (h : WriteOrders) (factory : RpcClientFactory X) (r : RouteBasedImpl X)
    (router : RouterImpl) (client : RpcClient X) (ctx : RpcContext) (req : Request) (eps : Targets)
    (tables : List Str) (parts : Parts) (results : Results X) (pool : DirectClientPool X)
    → partition req.point_groups eps tables [] [] ≡ some (parts, [])
    → send_all h factory ctx
        (prepare h r.standalone_pool (h.parts.arrange parts)).1
        (prepare h r.standalone_pool (h.parts.arrange parts)).0
      ≡ some (results, pool)
    → write_parts h factory r (router, client) ctx req.point_groups eps tables
      ≡ some (
        outcome results,
        record r { router = some (evict router (evicts results), client); standalone_pool = pool },
      )
unfolding write_parts
write_parts-exact X h factory r router client ctx req eps tables parts results pool p s = rw p (
    rw s (
      ap
        (λ (o : Result X WriteResponse). some (
          o,
          record r {
            router = some (evict router (evicts results), client);
            standalone_pool = pool;
          },
        ))
        (merged-merge X results)))

-- If the router's server answers and only routes tables that it was asked for, the request is split by
-- the endpoints that the router gives, and these parts are written with these results, then the write
-- returns the totals of the responses if every part was written, or else what was written and each
-- error with its tables; the tables of the parts whose server answered that a table is not there are
-- not cached any more; and all else that is cached is what the routing left.
pub write_routed-exact :
    (X : Type 0) (h : WriteOrders) (factory : RpcClientFactory X) (meanwhile : Cache → Cache)
    (r : RouteBasedImpl X) (router : RouterImpl) (client : RpcClient X) (ctx : RpcContext)
    (req : Request) (database : Str) (resp : RouteResponse) (parts : Parts) (results : Results X)
    (pool : DirectClientPool X)
    → ctx.database ≡ some database
    → client.route ctx (route_request h.misses router (keys h req.point_groups) database)
      ≡ Result.ok resp
    → only_expected router (keys h req.point_groups) resp.routes ≡ true
    → partition req.point_groups
        (endpoints_for router resp.routes (keys h req.point_groups))
        (keys h req.point_groups)
        []
        []
      ≡ some (parts, [])
    → send_all h factory ctx
        (prepare h r.standalone_pool (h.parts.arrange parts)).1
        (prepare h r.standalone_pool (h.parts.arrange parts)).0
      ≡ some (results, pool)
    → (after : RouterImpl) × ((write_routed h factory meanwhile r (router, client) ctx req
          ≡ some
              (outcome results, record r { router = some (after, client); standalone_pool = pool }))
        × ((t : Str)
            → HashMap.get after.cache t ≡ (
                if of_outdated results t
                then none
                else last_route t (HashMap.get (meanwhile router.cache) t) resp.routes)))
unfolding write_routed
write_routed-exact X h factory meanwhile r router client ctx req database resp parts results pool d
      a o p s =
    let (cache, (routed, cached)) =
      route-exact X h.misses router (keys h req.point_groups) ctx (client.route ctx) meanwhile
        database resp d a o in
    let left : RouterImpl = record router { cache = cache } in
    (
      evict left (evicts results),
      (
        rw routed (
            write_parts-exact X h factory r left client ctx req
              (endpoints_for router resp.routes (keys h req.point_groups)) (keys h req.point_groups)
              parts results pool p s),
        λ t.
            get-evict-evicts X left results t
            ∙ ap (λ (o : Option Endpoint). if of_outdated results t then none else o) (cached t),
      ),
    )

-- ===== src/DbClient/RouteBased/Query.antt =====
-- `sql_query` of src/db_client/route_based.rs.
pub mod Laws
use horaedb_client_rs.Prelude.{
  ◌>>=◌, Bool, true, false, Option, none, some, List, [], ◌∷◌, Str, bytes, is_empty, get_elem?, ℕ,
  if◌then◌else◌,
}
use horaedb_client_rs.DbClient.{resolve_database}
use horaedb_client_rs.DbClient.Inner.{InnerClient, sql_query_internal}
use horaedb_client_rs.DbClient.RouteBased.{RouteBasedImpl, router_handle, get_or_create}
use horaedb_client_rs.Endpoint.{Endpoint, endpoint_eq}
use horaedb_client_rs.Errors.{Error, Result}
use horaedb_client_rs.HashMap
use horaedb_client_rs.HashMap.{Arrangement}
use horaedb_client_rs.Router.{RouterImpl, Cache, Targets, route, evict}
use horaedb_client_rs.Rpc.{RpcContext}
use horaedb_client_rs.Rpc.Client.{RpcClient, RpcClientFactory}
use horaedb_client_rs.SqlQuery.Arrow.{Arrow}
use horaedb_client_rs.SqlQuery.Messages.{Request}
use horaedb_client_rs.SqlQuery.Response.{Response}

module _ {X : Type 0} where
  -- `map_err(|e| { router_handle.evict(&req.tables); e })`
  abbrev pub evict_on_error : Result X Response → RouterImpl → List Str → RouterImpl
  evict_on_error (Result.ok resp) r tables = r
  evict_on_error (Result.err e) r tables = evict r tables

  -- With the router in place and the context resolved: route, then ask the first table's server.
  unfoldable pub query_routed :
      Arrangement (Str × ℕ)
      → RpcClientFactory X
      → Arrow X
      → (Cache → Cache)
      → RouteBasedImpl X
      → RouterImpl × RpcClient X
      → RpcContext
      → Request
      → Option (Result X Response × RouteBasedImpl X)
  query_routed h factory arrow meanwhile r (router, client) ctx req = do
    (routed, router') ← route h router req.tables ctx (client.route ctx) meanwhile
    elim routed [
      | Result.err e ↦ some (Result.err e, record r { router = some (router', client) })
      | Result.ok eps ↦ do
        slot ← get_elem? eps 0
        elim slot [
          | none ↦ some (
            Result.err (Error.unknown (bytes "table doesn't have corresponding endpoint")),
            record r { router = some (router', client) },
          )
          | some endpoint ↦ do
            (answer, inner) ←
                sql_query_internal factory arrow (get_or_create r.standalone_pool endpoint).0 ctx
                  req
            some (
              answer,
              record r {
                router = some (evict_on_error answer router' req.tables, client);
                standalone_pool =
                    HashMap.insert endpoint inner (get_or_create r.standalone_pool endpoint).1;
              },
            )
        ]
    ]

  unfoldable pub sql_query :
      Arrangement (Str × ℕ)
      → RpcClientFactory X
      → Arrow X
      → (Cache → Cache)
      → RouteBasedImpl X
      → RpcContext
      → Request
      → Option (Result X Response × RouteBasedImpl X)
  sql_query h factory arrow meanwhile r ctx req =
      if is_empty req.tables
      then some (
        Result.err
            (Error.unknown (bytes "tables in query request can't be empty in route based mode")),
        r,
      )
      else elim (resolve_database ctx r.default_database) [
        | Result.err e ↦ some (Result.err e, r)
        | Result.ok ctx' ↦ elim (router_handle factory r) [
          | Result.err e ↦ some (Result.err e, r)
          | Result.ok handle ↦ query_routed h factory arrow meanwhile r handle ctx' req
        ]
      ]

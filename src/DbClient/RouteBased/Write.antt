-- ===== src/DbClient/RouteBased/Write.antt =====
-- `write` of src/db_client/route_based.rs.
pub mod Laws
pub mod Whole
pub mod Total
pub mod Delivers
mod Tests
use horaedb_client_rs.Prelude.{
  ◌>>=◌, ℕ, Bool, true, false, Option, none, some, List, [], ◌∷◌, ◌++◌, map, is_empty, Str, bytes,
  if◌then◌else◌,
}
use horaedb_client_rs.DbClient.{resolve_database}
use horaedb_client_rs.DbClient.Inner.{InnerClient, write_internal}
use horaedb_client_rs.DbClient.RouteBased.{
  DirectClientPool, RouteBasedImpl, router_handle, get_or_create,
}
use horaedb_client_rs.DbClient.RouteBased.Partition.{Groups, Parts, partition}
use horaedb_client_rs.Endpoint.{Endpoint, endpoint_eq}
use horaedb_client_rs.Errors.{Error, RouteBasedWriteError, write_error, WriteResponse, Result}
use horaedb_client_rs.Errors.Merge.{merge, all_ok}
use horaedb_client_rs.HashMap
use horaedb_client_rs.HashMap.{Arrangement}
use horaedb_client_rs.Router.{RouterImpl, Cache, Targets, route, evict}
use horaedb_client_rs.Rpc.{RpcContext}
use horaedb_client_rs.Rpc.Client.{RpcClient, RpcClientFactory}
use horaedb_client_rs.Util.{should_refresh}
use horaedb_client_rs.Write.Point.{Point}
use horaedb_client_rs.Write.Request.{Request}
use horaedb_client_rs.Write.Proto.{HashOrders}

-- How the hash maps of one write are read.
pub record WriteOrders : Type 0 where
  pub requests : HashOrders
  pub misses : Arrangement (Str × ℕ)
  pub parts : Arrangement (Endpoint × Request)

-- `point_groups.keys()`
abbrev pub keys : WriteOrders → Groups → List Str
keys h groups = map (λ (g : Str × List Point). g.0) (h.requests.tables.arrange groups)

-- One part, with its tables. Its client is the one of its endpoint in the pool.
pub record Sending : Type 0 where
  pub endpoint : Endpoint
  pub request : Request
  pub tables : List Str

abbrev pub Results : Type 0 → Type 0
Results X = List (List Str × Result X WriteResponse)

module _ {X : Type 0} where
  -- The first loop over the parts: their tables, and a client for each in the pool.
  unfoldable pub prepare :
      WriteOrders
      → DirectClientPool X
      → List (Endpoint × Request)
      → List Sending × DirectClientPool X
  prepare h pool [] = ([], pool)
  prepare h pool ((ep, req) ∷ parts) =
      let (sendings, after) = prepare h (get_or_create pool ep).1 parts in
      (record { endpoint = ep; request = req; tables = keys h req.point_groups } ∷ sendings, after)

  -- The writes, whose results come in the order of the parts. Parts have different endpoints, so
  -- different clients: the order in which the writes run does not matter.
  unfoldable pub send_all :
      WriteOrders
      → RpcClientFactory X
      → RpcContext
      → DirectClientPool X
      → List Sending
      → Option (Results X × DirectClientPool X)
  send_all h factory ctx pool [] = some ([], pool)
  send_all h factory ctx pool (s ∷ sendings) = do
    client ← HashMap.get pool s.endpoint
    (result, client') ← write_internal h.requests factory client ctx s.request
    (results, after) ← send_all h factory ctx (HashMap.insert s.endpoint client' pool) sendings
    some ((s.tables, result) ∷ results, after)

  abbrev pub with_missing : Results X → List Str → Results X
  with_missing results missing =
      if is_empty missing
      then results
      else results
        ++ (missing, Result.err (Error.unknown (bytes "tables don't have corresponding endpoints")))
          ∷ []

  -- The tables whose routes are outdated.
  unfoldable pub evicts : Results X → List Str
  evicts [] = []
  evicts ((tables, Result.err (Error.server e)) ∷ results) =
      let rest = evicts results in if should_refresh e.code e.msg then tables ++ rest else rest
  evicts ((tables, _) ∷ results) = evicts results

  abbrev pub merged : RouteBasedWriteError X → Result X WriteResponse
  merged (write_error tables resp errors) =
      if all_ok (write_error tables resp errors)
      then Result.ok resp
      else Result.err (Error.route_based (write_error tables resp errors))

  -- With the endpoints at hand: split, send, evict and merge.
  unfoldable pub write_parts :
      WriteOrders
      → RpcClientFactory X
      → RouteBasedImpl X
      → RouterImpl × RpcClient X
      → RpcContext
      → Groups
      → Targets
      → List Str
      → Option (Result X WriteResponse × RouteBasedImpl X)
  write_parts h factory r (router, client) ctx groups endpoints should_routes = do
    (parts, missing) ← partition groups endpoints should_routes [] []
    (results, pool) ←
        send_all h factory ctx (prepare h r.standalone_pool (h.parts.arrange parts)).1
          (prepare h r.standalone_pool (h.parts.arrange parts)).0
    some (
      merged (merge (with_missing results missing)),
      record r {
        router = some (evict router (evicts (with_missing results missing)), client);
        standalone_pool = pool;
      },
    )

  unfoldable pub write_routed :
      WriteOrders
      → RpcClientFactory X
      → (Cache → Cache)
      → RouteBasedImpl X
      → RouterImpl × RpcClient X
      → RpcContext
      → Request
      → Option (Result X WriteResponse × RouteBasedImpl X)
  write_routed h factory meanwhile r (router, client) ctx req = do
    (routed, router') ←
        route h.misses router (keys h req.point_groups) ctx (client.route ctx) meanwhile
    elim routed [
      | Result.err e ↦ some (Result.err e, record r { router = some (router', client) })
      | Result.ok endpoints ↦
          write_parts h factory r (router', client) ctx req.point_groups endpoints
            (keys h req.point_groups)
    ]

  unfoldable pub write :
      WriteOrders
      → RpcClientFactory X
      → (Cache → Cache)
      → RouteBasedImpl X
      → RpcContext
      → Request
      → Option (Result X WriteResponse × RouteBasedImpl X)
  write h factory meanwhile r ctx req = elim (resolve_database ctx r.default_database) [
    | Result.err e ↦ some (Result.err e, r)
    | Result.ok ctx' ↦ elim (router_handle factory r) [
      | Result.err e ↦ some (Result.err e, r)
      | Result.ok handle ↦ write_routed h factory meanwhile r handle ctx' req
    ]
  ]

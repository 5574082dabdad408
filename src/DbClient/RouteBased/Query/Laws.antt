-- ===== src/DbClient/RouteBased/Query/Laws.antt =====
-- Where a query goes, and what it leaves of the cached routes.
use horaedb_client_rs.Prelude.{
  ◌≡◌, refl, ap, ◌∙◌, true, not, ◌&&◌, Option, none, some, List, ◌∷◌, Str, ℕ, str_eq, get_elem?,
  if◌then◌else◌,
}
use horaedb_client_rs.DbClient.Inner.{InnerClient, sql_query_internal}
use horaedb_client_rs.DbClient.RouteBased.{RouteBasedImpl, get_or_create}
use horaedb_client_rs.DbClient.RouteBased.Query.{query_routed, evict_on_error}
use horaedb_client_rs.Endpoint.{Endpoint, endpoint_eq}
use horaedb_client_rs.Errors.{Result}
use horaedb_client_rs.HashMap
use horaedb_client_rs.HashMap.{Arrangement}
use horaedb_client_rs.Router.{RouterImpl, Cache, route_request}
use horaedb_client_rs.Router.Expected.{endpoint_for, endpoints_for, only_expected}
use horaedb_client_rs.Router.Fill.{is_ok, last_route}
use horaedb_client_rs.Router.Laws.{route-exact, get-evict}
use horaedb_client_rs.Router.Places.{occurs}
use horaedb_client_rs.Rpc.{RpcContext, RouteResponse, Route}
use horaedb_client_rs.Rpc.Client.{RpcClient, RpcClientFactory}
use horaedb_client_rs.SqlQuery.Arrow.{Arrow}
use horaedb_client_rs.SqlQuery.Messages.{Request}
use horaedb_client_rs.SqlQuery.Response.{Response}

pub first-endpoints_for :
    (r : RouterImpl) (routes : List Route) (tables : List Str) (t : Str) (ts : List Str)
    → tables ≡ t ∷ ts
    → get_elem? (endpoints_for r routes tables) 0 ≡ some (endpoint_for r routes t (occurs t ts))
first-endpoints_for r routes tables t ts e = ap (λ l. get_elem? (endpoints_for r routes l) 0) e

get-evict_on_error :
    (X : Type 0) (answer : Result X Response) (r : RouterImpl) (tables : List Str) (t : Str)
    → HashMap.get (evict_on_error answer r tables).cache t
      ≡ (if not (is_ok answer) && occurs t tables then none else HashMap.get r.cache t)
get-evict_on_error X (Result.ok resp) r tables t = refl
get-evict_on_error X (Result.err e) r tables t = get-evict r tables t

-- If the router's server answers and only routes tables that it was asked for, a query goes to the
-- client of the first table's endpoint in the pool, with all its tables, and returns what that client
-- answers. If that is an error, no table of the query is cached afterwards; all else that is cached
-- is what the routing left.
pub query_routed-exact :
    (X : Type 0) (h : Arrangement (Str × ℕ)) (factory : RpcClientFactory X) (arrow : Arrow X)
    (meanwhile : Cache → Cache) (r : RouteBasedImpl X) (router : RouterImpl) (client : RpcClient X)
    (ctx : RpcContext) (req : Request) (database : Str) (resp : RouteResponse) (t : Str)
    (ts : List Str) (ep : Endpoint) (answer : Result X Response) (inner : InnerClient X)
    → ctx.database ≡ some database
    → client.route ctx (route_request h router req.tables database) ≡ Result.ok resp
    → only_expected router req.tables resp.routes ≡ true
    → req.tables ≡ t ∷ ts
    → endpoint_for router resp.routes t (occurs t ts) ≡ some ep
    → sql_query_internal factory arrow (get_or_create r.standalone_pool ep).0 ctx req
      ≡ some (answer, inner)
    → (after : RouterImpl) × ((query_routed h factory arrow meanwhile r (router, client) ctx req
          ≡ some (
            answer,
            record r {
              router = some (after, client);
              standalone_pool = HashMap.insert ep inner (get_or_create r.standalone_pool ep).1;
            },
          ))
        × ((u : Str)
            → HashMap.get after.cache u ≡ (
                if not (is_ok answer) && occurs u req.tables
                then none
                else last_route u (HashMap.get (meanwhile router.cache) u) resp.routes)))
unfolding query_routed
query_routed-exact X h factory arrow meanwhile r router client ctx req database resp t ts ep answer
      inner d a o q s e =
    let (cache, (routed, cached)) =
      route-exact X h router req.tables ctx (client.route ctx) meanwhile database resp d a o in
    let left : RouterImpl = record router { cache = cache } in
    (
      evict_on_error answer left req.tables,
      (
        rw routed
            (rw (first-endpoints_for router resp.routes req.tables t ts q) (rw s (rw e refl))),
        λ u.
            get-evict_on_error X answer left req.tables u
            ∙ ap
                (λ (o : Option Endpoint).
                  if not (is_ok answer) && occurs u req.tables then none else o)
                (cached u),
      ),
    )

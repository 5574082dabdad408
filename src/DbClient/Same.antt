-- ===== src/DbClient/Same.antt =====
-- The two modes at a single server: what route based mode answers where the router knows no server but its
-- own.
mod Tests
use mathlib.Core.Option as Options
use horaedb_client_rs.Prelude.{
  ◌>>=◌, ◌≡◌, ◌≢◌, ◌≤◌, is_empty, refl, ap, sym, ◌∙◌, Bool, true, false, Option, none, some, List,
  [], ◌∷◌, Str, ℕ, str_eq, get_elem?, if◌then◌else◌, Bool-cases, inl, inr,
}
use horaedb_client_rs.DbClient.{resolve_database}
use horaedb_client_rs.DbClient.Inner
use horaedb_client_rs.DbClient.Inner.{InnerClient, sql_query_internal}
use horaedb_client_rs.DbClient.Raw
use horaedb_client_rs.DbClient.RouteBased
use horaedb_client_rs.DbClient.RouteBased.{
  RouteBasedImpl, init_router, router_handle, get_or_create,
}
use horaedb_client_rs.DbClient.RouteBased.Query
use horaedb_client_rs.DbClient.RouteBased.Query.{query_routed, evict_on_error}
use horaedb_client_rs.DbClient.RouteBased.Query.Laws.{first-endpoints_for}
use horaedb_client_rs.DbClient.RouteBased.Write.Total.{resolve_database-names}
use horaedb_client_rs.Endpoint.{Endpoint, endpoint_eq, to_string, from_str}
use horaedb_client_rs.Endpoint.RoundTrip.{from_str-to_string}
use horaedb_client_rs.Errors.{Error, Result}
use horaedb_client_rs.HashMap
use horaedb_client_rs.HashMap.{Arrangement}
use horaedb_client_rs.Router
use horaedb_client_rs.Router.{RouterImpl, Cache, route_request}
use horaedb_client_rs.Router.Expected.{endpoint_for, endpoints_for, only_expected}
use horaedb_client_rs.Router.Laws.{route-exact}
use horaedb_client_rs.Router.Places.{occurs}
use horaedb_client_rs.Rpc.{RpcContext, RouteRequest, RouteResponse, ResponseHeader}
use horaedb_client_rs.Rpc.Client.{RpcClient, RpcClientFactory}
use horaedb_client_rs.SqlQuery.Arrow.{Arrow}
use horaedb_client_rs.SqlQuery.Messages.{Request}
use horaedb_client_rs.SqlQuery.Response.{Response}

-- What a call answers, without the state that it leaves.
abbrev pub answer_of {ℓ} : {A S : Type ℓ} → Option (A × S) → Option A
answer_of none = none
answer_of (some (answer, after)) = some answer

answer_of-bind :
    {A S T : Type 0} (o : Option (A × S)) (g : A × S → T)
    → answer_of (o >>= (λ x. some (x.0, g x))) ≡ answer_of o
answer_of-bind none g = refl
answer_of-bind (some (answer, after)) g = refl

default_for :
    (ep : Endpoint) (t : Str) (again : Bool) → endpoint_for (Router.new ep) [] t again ≡ some ep
unfolding Router.new HashMap.get
default_for ep t true = refl
default_for ep t false = refl

module _ (X : Type 0) (h : Arrangement (Str × ℕ)) (factory : RpcClientFactory X) (arrow : Arrow X)
    (meanwhile : Cache → Cache) (ep : Endpoint) where
  query_routed-same :
      (r : RouteBasedImpl X) (client : RpcClient X) (ctx : RpcContext) (req : Request) (t : Str)
      (ts : List Str) (database : Str) (header : Option ResponseHeader)
      → r.standalone_pool ≡ []
      → req.tables ≡ t ∷ ts
      → ctx.database ≡ some database
      → client.route ctx (route_request h (Router.new ep) req.tables database)
        ≡ Result.ok (record { header = header; routes = [] })
      → answer_of (query_routed h factory arrow meanwhile r (Router.new ep, client) ctx req)
        ≡ answer_of (sql_query_internal factory arrow (Inner.new (to_string ep)) ctx req)
  unfolding query_routed get_or_create HashMap.get
  query_routed-same r client ctx req t ts database header fresh q d a =
      let (cache, (routed, cached)) =
        route-exact X h (Router.new ep) req.tables ctx (client.route ctx) meanwhile database
          (record { header = header; routes = [] }) d a refl in
      rw routed (
        rw (first-endpoints_for (Router.new ep) [] req.tables t ts q) (
          rw (default_for ep t (occurs t ts)) (
            answer_of-bind
              (sql_query_internal factory arrow (get_or_create r.standalone_pool ep).0 ctx req) _
            ∙ ap (λ i. answer_of (sql_query_internal factory arrow i ctx req))
                (ap (λ p. (get_or_create p ep).0) fresh))))

  internal-unreached :
      (ctx : RpcContext) (req : Request) (database : Str) (e : Error X)
      → factory.build (to_string ep) ≡ Result.err e
      → ctx.database ≡ some database
      → answer_of (sql_query_internal factory arrow (Inner.new (to_string ep)) ctx req)
        ≡ some (Result.err e)
  unfolding sql_query_internal Inner.new
  internal-unreached ctx req database e b d = rw (d, sql_query_internal) (rw b refl)

  -- The context resolved, and the server of the endpoint reached or not.
  resolved-same :
      (dd : Option Str) (ctx : RpcContext) (req : Request) (t : Str) (ts : List Str)
      (database : Str) (built : Result X (RpcClient X))
      → ep.addr ≢ []
      → ep.port ≤ 65535
      → factory.build (to_string ep) ≡ built
      → ((client : RpcClient X) (asked : RouteRequest)
          → built ≡ Result.ok client
          → (header : Option ResponseHeader) × (client.route ctx asked
              ≡ Result.ok (record { header = header; routes = [] })))
      → req.tables ≡ t ∷ ts
      → ctx.database ≡ some database
      → answer_of {A = Result X Response}
          (elim (router_handle factory (RouteBased.new (to_string ep) dd)) [
            | Result.err e ↦ some (Result.err e, RouteBased.new (to_string ep) dd)
            | Result.ok handle ↦
                query_routed h factory arrow meanwhile
                  (RouteBased.new (to_string ep) dd)
                  handle
                  ctx
                  req
          ])
        ≡ answer_of (sql_query_internal factory arrow (Inner.new (to_string ep)) ctx req)
  unfolding RouteBased.new init_router
  resolved-same dd ctx req t ts database (Result.err e) a p b c q d =
      rw b (sym (internal-unreached ctx req database e b d))
  resolved-same dd ctx req t ts database (Result.ok client) a p b c q d =
      let (header, answers) = c client (route_request h (Router.new ep) req.tables database) refl in
      rw b (
        rw (from_str-to_string ep a p) (
          query_routed-same (RouteBased.new (to_string ep) dd) client ctx req t ts database header
            refl q d answers))

  resolving-same :
      (dd : Option Str) (ctx : RpcContext) (req : Request) (t : Str) (ts : List Str)
      (resolved : Result X RpcContext)
      → ep.addr ≢ []
      → ep.port ≤ 65535
      → ((client : RpcClient X) (c : RpcContext) (asked : RouteRequest)
          → factory.build (to_string ep) ≡ Result.ok client
          → (header : Option ResponseHeader) × (client.route c asked
              ≡ Result.ok (record { header = header; routes = [] })))
      → req.tables ≡ t ∷ ts
      → ((ctx' : RpcContext)
          → resolved ≡ Result.ok ctx'
          → (database : Str) × (ctx'.database ≡ some database))
      → answer_of {A = Result X Response} (elim resolved [
        | Result.err e ↦ some (Result.err e, RouteBased.new (to_string ep) dd)
        | Result.ok ctx' ↦ elim (router_handle factory (RouteBased.new (to_string ep) dd)) [
          | Result.err e ↦ some (Result.err e, RouteBased.new (to_string ep) dd)
          | Result.ok handle ↦
              query_routed h factory arrow meanwhile
                (RouteBased.new (to_string ep) dd)
                handle
                ctx'
                req
        ]
      ])
        ≡ answer_of {A = Result X Response} (elim resolved [
          | Result.err e ↦ some (Result.err e, Raw.new (to_string ep) dd)
          | Result.ok ctx' ↦
              sql_query_internal factory arrow (Raw.new (to_string ep) dd).inner_client ctx' req
              >>= (λ x.
                  some (x.0, record (Raw.new {X = X} (to_string ep) dd) { inner_client = x.1 }))
        ])
  unfolding Raw.new
  resolving-same dd ctx req t ts (Result.err e) a p c q names = refl
  resolving-same dd ctx req t ts (Result.ok ctx') a p c q names =
      let (database, d) = names ctx' refl in
      resolved-same dd ctx' req t ts database (factory.build (to_string ep)) a p refl
        (λ client asked b. c client ctx' asked b) q d
      ∙ sym
          (answer_of-bind (sql_query_internal factory arrow (Inner.new (to_string ep)) ctx' req) _)

-- Where a router answers each of its calls with no routes, and its endpoint is the text of an address that
-- is not empty and a port of at most 65535, route based mode on its endpoint is raw mode on that endpoint:
-- from new clients of either, a query that names a table is answered alike, an error or a
-- panic included, whatever the context and the default database.
pub sql_query-same :
    (X : Type 0) (h : Arrangement (Str × ℕ)) (factory : RpcClientFactory X) (arrow : Arrow X)
    (meanwhile : Cache → Cache) (ep : Endpoint) (dd : Option Str) (ctx : RpcContext) (req : Request)
    (t : Str) (ts : List Str)
    → ep.addr ≢ []
    → ep.port ≤ 65535
    → ((client : RpcClient X) (c : RpcContext) (asked : RouteRequest)
        → factory.build (to_string ep) ≡ Result.ok client
        → (header : Option ResponseHeader) × (client.route c asked
            ≡ Result.ok (record { header = header; routes = [] })))
    → req.tables ≡ t ∷ ts
    → answer_of
        (Query.sql_query h factory arrow meanwhile (RouteBased.new (to_string ep) dd) ctx req)
      ≡ answer_of (Raw.sql_query factory arrow (Raw.new (to_string ep) dd) ctx req)
unfolding Query.sql_query Raw.sql_query RouteBased.new Raw.new
sql_query-same X h factory arrow meanwhile ep dd ctx req t ts a p c q = rw (ap is_empty q) (
    resolving-same X h factory arrow meanwhile ep dd ctx req t ts (resolve_database ctx dd) a p c q
      (λ ctx' e. resolve_database-names X ctx ctx' dd e))

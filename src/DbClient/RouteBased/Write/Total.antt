-- ===== src/DbClient/RouteBased/Write/Total.antt =====
-- A write of clean points returns, whatever its client has cached, whatever the servers answer, and in
-- whatever order the hash maps are read.
use horaedb_client_rs.Prelude.{
  ◌^◌, ◌≤◌, ◌≡◌, refl, true, Option, some, List, [], ◌∷◌, All, Str, str_eq, is_some, arith,
  Option-cases, inl, inr,
}
use horaedb_client_rs.DbClient.{resolve_database}
use horaedb_client_rs.DbClient.RouteBased.{RouteBasedImpl, router_handle}
use horaedb_client_rs.DbClient.RouteBased.Partition.Routed.{partition-routed}
use horaedb_client_rs.DbClient.RouteBased.Partition.Clean.{
  PartClean, PartClean-prop, partition-PartClean,
}
use horaedb_client_rs.DbClient.RouteBased.Sent.{Buildable, send_parts_total, some_of}
use horaedb_client_rs.DbClient.RouteBased.Write.{
  WriteOrders, keys, prepare, send_all, write_parts, write_routed, write,
}
use horaedb_client_rs.Endpoint.{Endpoint, endpoint_eq}
use horaedb_client_rs.Errors.{WriteResponse, Result}
use horaedb_client_rs.Router.Laws.{route-finish}
use horaedb_client_rs.Router.{RouterImpl, Cache, Targets, first_pass, fill, finish, route_request}
use horaedb_client_rs.Router.Expected.{endpoints_for, fill-exact}
use horaedb_client_rs.Rpc.{RpcContext, RouteResponse, Route}
use horaedb_client_rs.Rpc.Client.{RpcClient, RpcClientFactory}
use horaedb_client_rs.Write.Point.{Point}
use horaedb_client_rs.Write.Request.{Request, default, add_points}
use horaedb_client_rs.Write.Series.Invariant.{PointClean, count_tags_of, count_fields_of}
use horaedb_client_rs.Write.Whole.Builds.{RequestClean, arrange-All, build_requests-some}
use horaedb_client_rs.Write.Whole.Requests.{add_points-RequestClean}

-- A context that resolves names a database.
pub resolve_database-names :
    (X : Type 0) (ctx ctx' : RpcContext) (default_database : Option Str)
    → resolve_database {X = X} ctx default_database ≡ Result.ok ctx'
    → (database : Str) × (ctx'.database ≡ some database)
unfolding resolve_database
resolve_database-names X ctx ctx' default_database e = elim (Option-cases ctx.database) [
  | inr (d, named) ↦ (d, ground arith)
  | inl unnamed ↦ elim (Option-cases default_database) [
    | inr (d, given) ↦ (d, ground arith)
    | inl absent ↦ absurd (ground arith)
  ]
]

module _ (X : Type 0) (h : WriteOrders) (factory : RpcClientFactory X)
    (meanwhile : Cache → Cache) where
  pub parts-Buildable :
      (parts : List (Endpoint × Request)) → All PartClean parts → Buildable X h.requests parts
  parts-Buildable [] c = tt
  parts-Buildable ((ep, req) ∷ parts) c =
      (build_requests-some h.requests req c.0.0, parts-Buildable parts c.1)

  write_parts-some :
      (r : RouteBasedImpl X) (router : RouterImpl) (client : RpcClient X) (ctx : RpcContext)
      (req : Request) (shown : RouterImpl) (routes : List Route) (database : Str)
      → ctx.database ≡ some database
      → RequestClean req
      → is_some (
          write_parts h factory r
            (router, client)
            ctx
            req.point_groups
            (endpoints_for shown routes (keys h req.point_groups))
            (keys h req.point_groups))
        ≡ true
  unfolding write_parts
  write_parts-some r router client ctx req shown routes database d c =
      let (parts, (split, law)) = partition-routed h req.point_groups shown routes in
      let clean =
        partition-PartClean req.point_groups (endpoints_for shown routes (keys h req.point_groups))
          (keys h req.point_groups) [] parts [] [] c tt split in
      let (sent, is_sent) =
        some_of
          (send_all h factory ctx (prepare h r.standalone_pool (h.parts.arrange parts)).1
            (prepare h r.standalone_pool (h.parts.arrange parts)).0)
          (send_parts_total X h factory ctx database r.standalone_pool (h.parts.arrange parts) d (
            parts-Buildable (h.parts.arrange parts)
              (arrange-All PartClean PartClean-prop h.parts parts clean))) in
      rw split (rw is_sent refl)

  write_routed-some :
      (r : RouteBasedImpl X) (router : RouterImpl) (client : RpcClient X) (ctx : RpcContext)
      (req : Request) (database : Str)
      → ctx.database ≡ some database
      → RequestClean req
      → is_some (write_routed h factory meanwhile r (router, client) ctx req) ≡ true
  unfolding write_routed
  write_routed-some r router client ctx req database d c =
      rw (route-finish X h.misses router tables ctx (client.route ctx) meanwhile database d) (
        by_answer
          (client.route ctx (route_request h.misses router (keys h req.point_groups) database)))
    where
      tables : List Str
      tables = keys h req.point_groups

      next : Result X Targets × RouterImpl → Option (Result X WriteResponse × RouteBasedImpl X)
      next (routed, router') = elim routed [
        | Result.err e ↦ some (Result.err e, record r { router = some (router', client) })
        | Result.ok endpoints ↦
            write_parts h factory r (router', client) ctx req.point_groups endpoints tables
      ]

      by_targets :
          (routes : List Route) (after : RouterImpl) (targets : Result X Targets)
          → ((eps : Targets) → targets ≡ Result.ok eps → eps ≡ endpoints_for router routes tables)
          → is_some (next (targets, after)) ≡ true
      by_targets routes after (Result.err e) exact = refl
      by_targets routes after (Result.ok eps) exact =
          rw (exact eps refl) (write_parts-some r after client ctx req router routes database d c)

      by_answer :
          (a : Result X RouteResponse)
          → is_some (next (finish router (first_pass router tables) (meanwhile router.cache) a))
            ≡ true
      by_answer (Result.err e) = refl
      by_answer (Result.ok resp) =
          by_targets resp.routes _
            (fill (first_pass router tables).1 resp.routes (first_pass router tables).0
              (meanwhile router.cache)).0
            (λ eps e. fill-exact X router tables resp.routes (meanwhile router.cache) eps e)

  resolved_write-some :
      (r : RouteBasedImpl X) (ctx : RpcContext) (req : Request) (database : Str)
      → ctx.database ≡ some database
      → RequestClean req
      → (handle : Result X (RouterImpl × RpcClient X))
      → is_some {A = Result X WriteResponse × RouteBasedImpl X} (elim handle [
        | Result.err e ↦ some (Result.err e, r)
        | Result.ok handle ↦ write_routed h factory meanwhile r handle ctx req
      ])
        ≡ true
  resolved_write-some r ctx req database d c (Result.err e) = refl
  resolved_write-some r ctx req database d c (Result.ok (router, client)) =
      write_routed-some r router client ctx req database d c

  clean_write-some :
      (r : RouteBasedImpl X) (ctx : RpcContext) (req : Request)
      → RequestClean req
      → is_some (write h factory meanwhile r ctx req) ≡ true
  unfolding write
  clean_write-some r ctx req c =
      by_resolved (resolve_database ctx r.default_database)
        (λ ctx' e. resolve_database-names X ctx ctx' r.default_database e)
    where
      by_resolved :
          (resolved : Result X RpcContext)
          → ((ctx' : RpcContext)
              → resolved ≡ Result.ok ctx'
              → (database : Str) × (ctx'.database ≡ some database))
          → is_some {A = Result X WriteResponse × RouteBasedImpl X} (elim resolved [
            | Result.err e ↦ some (Result.err e, r)
            | Result.ok ctx' ↦ elim (router_handle factory r) [
              | Result.err e ↦ some (Result.err e, r)
              | Result.ok handle ↦ write_routed h factory meanwhile r handle ctx' req
            ]
          ])
            ≡ true
      by_resolved (Result.err e) names = refl
      by_resolved (Result.ok ctx') names =
          let (database, d) = names ctx' refl in
          resolved_write-some r ctx' req database d c (router_handle factory r)

-- A write of points whose columns are sorted and in range, with at most 2^32 tags and 2^32 fields together,
-- returns a response or an error and never panics: whatever the context, the state of the client, the
-- answers of the servers and the order in which the hash maps are read, and whatever other tasks do to
-- the cached routes meanwhile.
pub write_total :
    (X : Type 0) (h : WriteOrders) (factory : RpcClientFactory X) (meanwhile : Cache → Cache)
    (r : RouteBasedImpl X) (ctx : RpcContext) (ps : List Point)
    → All PointClean ps
    → count_tags_of ps ≤ 2 ^ 32
    → count_fields_of ps ≤ 2 ^ 32
    → is_some (write h factory meanwhile r ctx (add_points default ps)) ≡ true
write_total X h factory meanwhile r ctx ps clean t f =
    clean_write-some X h factory meanwhile r ctx (add_points default ps)
      (add_points-RequestClean ps clean t f)

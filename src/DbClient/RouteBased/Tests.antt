-- ===== src/DbClient/RouteBased/Tests.antt =====
-- A query and a write of two tables, one with a cached route and one without, while no server but the
-- router's can be reached.
use horaedb_client_rs.Prelude.{
  ◌≡◌, refl, none, some, List, [], ◌∷◌, Str, str_eq, bytes, pos, if◌then◌else◌, inr,
}
use horaedb_client_rs.DbClient.Inner
use horaedb_client_rs.DbClient.Inner.{InnerClient, sql_query_internal, write_internal}
use horaedb_client_rs.DbClient.RouteBased.{RouteBasedImpl, DirectClientPool, get_or_create}
use horaedb_client_rs.DbClient.RouteBased.Partition.{Parts, partition, assign}
use horaedb_client_rs.DbClient.RouteBased.Query.{query_routed}
use horaedb_client_rs.DbClient.RouteBased.Query.Laws.{query_routed-exact}
use horaedb_client_rs.DbClient.RouteBased.Write.{
  WriteOrders, Results, prepare, send_all, write_routed,
}
use horaedb_client_rs.DbClient.RouteBased.Write.Whole.{outcome, write_routed-exact}
use horaedb_client_rs.Endpoint.{Endpoint, endpoint_eq, to_string, of_pb}
use horaedb_client_rs.Errors.{Error, Result}
use horaedb_client_rs.HashMap
use horaedb_client_rs.HashMap.{in_order}
use horaedb_client_rs.Router.{RouterImpl, Cache}
use horaedb_client_rs.Router.Fill.{last_route}
use horaedb_client_rs.Router.Places.{occurs}
use horaedb_client_rs.Rpc.{RpcContext, RouteResponse}
use horaedb_client_rs.Rpc.Client.{RpcClient, RpcClientFactory}
use horaedb_client_rs.SqlQuery.Arrow.{Arrow, ArrowType}
use horaedb_client_rs.SqlQuery.Messages.{Request}
use horaedb_client_rs.Value.{Value}
use horaedb_client_rs.Write.Point.{Point}
use horaedb_client_rs.Write.Request as WriteRequests

abbrev server : Str → Endpoint
server name = record { addr = name; port = 8831 }

abbrev sample_router : RouterImpl
sample_router = record {
  default_endpoint = server (bytes "d");
  cache = (bytes "a", server (bytes "1")) ∷ [];
}

abbrev sample_response : RouteResponse
sample_response = record {
  header = none;
  routes =
      record { table = bytes "b"; endpoint = some (record { ip = bytes "2"; port = 8831 }) } ∷ [];
}

abbrev sample_client : RpcClient Unit
sample_client = record {
  sql_query = λ ctx req. Result.err (Error.rpc tt);
  write = λ ctx req. Result.err (Error.rpc tt);
  route = λ ctx req. Result.ok sample_response;
}

abbrev sample_factory : RpcClientFactory Unit
sample_factory = record { build = λ endpoint. Result.err (Error.connect endpoint tt) }

abbrev no_arrow : Arrow Unit
no_arrow = record {
  RecordBatch = Unit;
  ArrayRef = Unit;
  field_names = λ b. [];
  num_columns = λ b. 0;
  num_rows = λ b. 0;
  column = λ b i. none;
  array_type = λ a. ArrowType.null;
  show_type = λ t. [];
  downcast = λ k a. none;
  decode_all = λ b. inr tt;
  try_new = λ b. inr tt;
}

abbrev sample_impl : RouteBasedImpl Unit
sample_impl = record {
  router_endpoint = bytes "d:8831";
  router = none;
  standalone_pool = [];
  default_database = none;
}

abbrev sample_context : RpcContext
sample_context = record { database = some (bytes "db"); timeout = none }

abbrev query : Request
query = record { tables = bytes "b" ∷ bytes "a" ∷ []; sql = bytes "select 1" }

abbrev unchanged : Cache → Cache
unchanged cache = cache

abbrev new_client : Str → InnerClient Unit
new_client name = record { endpoint = to_string (server name); inner_client = none }

abbrev unreachable : {A : Type 0} → Str → Result Unit A
unreachable name = Result.err (Error.connect (to_string (server name)) tt)

query_routed-exact_example :
    (after : RouterImpl) × ((query_routed in_order sample_factory no_arrow unchanged sample_impl
          (sample_router, sample_client)
          sample_context
          query
        ≡ some (
          unreachable (bytes "2"),
          record sample_impl {
            router = some (after, sample_client);
            standalone_pool = (server (bytes "2"), new_client (bytes "2")) ∷ [];
          },
        ))
      × ((u : Str)
          → HashMap.get after.cache u ≡ (
              if occurs u (bytes "b" ∷ bytes "a" ∷ [])
              then none
              else last_route u (HashMap.get sample_router.cache u) sample_response.routes)))
unfolding HashMap.get HashMap.insert get_or_create Inner.new sql_query_internal of_pb
query_routed-exact_example =
    query_routed-exact Unit in_order sample_factory no_arrow unchanged sample_impl sample_router
      sample_client sample_context query (bytes "db") sample_response (bytes "b") (bytes "a" ∷ [])
      (server (bytes "2")) (unreachable (bytes "2")) (new_client (bytes "2")) refl refl refl refl
      refl refl

abbrev points : Str → List Point
points table =
    record {
      table = table;
      timestamp = pos 1;
      tags = [];
      fields = (bytes "cpu", Value.int32 (pos 1)) ∷ [];
    }
    ∷ []

abbrev write_request : WriteRequests.Request
write_request = record {
  point_groups = (bytes "a", points (bytes "a")) ∷ (bytes "b", points (bytes "b")) ∷ [];
}

abbrev orders : WriteOrders
orders = record {
  requests = record { tables = in_order; series = in_order; names = in_order };
  misses = in_order;
  parts = in_order;
}

abbrev part : Str → WriteRequests.Request
part table = record { point_groups = (table, points table) ∷ [] }

abbrev sample_parts : Parts
sample_parts = (server (bytes "1"), part (bytes "a")) ∷ (server (bytes "2"), part (bytes "b")) ∷ []

abbrev sample_results : Results Unit
sample_results =
    (bytes "a" ∷ [], unreachable (bytes "1")) ∷ (bytes "b" ∷ [], unreachable (bytes "2")) ∷ []

abbrev pool_after : DirectClientPool Unit
pool_after =
    (server (bytes "1"), new_client (bytes "1")) ∷ (server (bytes "2"), new_client (bytes "2")) ∷ []

write_routed-exact_example :
    (after : RouterImpl) × ((write_routed orders sample_factory unchanged sample_impl
          (sample_router, sample_client)
          sample_context
          write_request
        ≡ some (
          outcome sample_results,
          record sample_impl { router = some (after, sample_client); standalone_pool = pool_after },
        ))
      × ((t : Str)
          → HashMap.get after.cache t
            ≡ last_route t (HashMap.get sample_router.cache t) sample_response.routes))
unfolding HashMap.get HashMap.insert get_or_create Inner.new write_internal of_pb partition assign
    WriteRequests.default prepare send_all
write_routed-exact_example =
    write_routed-exact Unit orders sample_factory unchanged sample_impl sample_router sample_client
      sample_context write_request (bytes "db") sample_response sample_parts sample_results
      pool_after refl refl refl refl refl

-- ===== src/DbClient/RouteBased/Write/Tests.antt =====
-- Writes of points of two tables, one with a cached route.
use horaedb_client_rs.Prelude.{◌≡◌, refl, true, none, some, [], ◌∷◌, bytes, is_some, arith}
use horaedb_client_rs.DbClient.RouteBased.{RouteBasedImpl}
use horaedb_client_rs.DbClient.RouteBased.Write.Delivers.{IsWritten, write_routed-IsWritten}
use horaedb_client_rs.Router.Expected.{endpoints_for}
use horaedb_client_rs.DbClient.RouteBased.Write.{WriteOrders, keys, write}
use horaedb_client_rs.DbClient.RouteBased.Write.Total.{write_total}
use horaedb_client_rs.Errors.{Error, Result}
use horaedb_client_rs.HashMap.{in_order}
use horaedb_client_rs.Router.{RouterImpl}
use horaedb_client_rs.Rpc.{RpcContext}
use horaedb_client_rs.Rpc.Client.{RpcClient, RpcClientFactory}
use horaedb_client_rs.Write.Groups.{All-of_table}
use horaedb_client_rs.Write.Request.{default, add_points, of_table}
use horaedb_client_rs.Write.Whole.Requests.{one_series-KeysApart}
use horaedb_client_rs.Write.Whole.Requests.Tests.{orders, sent, sent-PointClean, early}

abbrev write_orders : WriteOrders
write_orders = record { requests = orders; misses = in_order; parts = in_order }

abbrev sample_router : RouterImpl
sample_router = record {
  default_endpoint = record { addr = bytes "d"; port = 8831 };
  cache = (bytes "t", record { addr = bytes "1"; port = 8831 }) ∷ [];
}

-- Every server answers.
abbrev sample_client : RpcClient Unit
sample_client = record {
  sql_query = λ ctx req. Result.err (Error.rpc tt);
  write = λ ctx req. Result.ok (record { header = none; success = 1; failed = 0 });
  route = λ ctx req. Result.ok (record { header = none; routes = [] });
}

abbrev sample_factory : RpcClientFactory Unit
sample_factory = record { build = λ endpoint. Result.ok sample_client }

abbrev sample_impl : RouteBasedImpl Unit
sample_impl = record {
  router_endpoint = bytes "d:8831";
  router = some (sample_router, sample_client);
  standalone_pool = [];
  default_database = some (bytes "db");
}

abbrev sample_context : RpcContext
sample_context = record { database = none; timeout = none }

write_total_example :
    is_some (
      write write_orders sample_factory
        (λ c. c)
        sample_impl
        sample_context
        (add_points default sent))
    ≡ true
write_total_example =
    write_total Unit write_orders sample_factory (λ c. c) sample_impl sample_context sent
      sent-PointClean (omega arith) (omega arith)

abbrev named_context : RpcContext
named_context = record { database = some (bytes "db"); timeout = none }

write_routed-IsWritten_example :
    IsWritten Unit write_orders sample_factory
      (λ c. c)
      sample_impl
      sample_router
      sample_client
      named_context
      sent
      (bytes "db")
      (endpoints_for sample_router [] (keys write_orders (add_points default sent).point_groups))
write_routed-IsWritten_example =
    write_routed-IsWritten Unit write_orders sample_factory (λ c. c) sample_impl sample_router
      sample_client named_context sent (bytes "db") (record { header = none; routes = [] }) refl
      refl refl sent-PointClean (omega arith) (omega arith)
      (λ t.
        one_series-KeysApart early.tags (of_table t sent)
          (All-of_table (λ p. p.tags ≡ early.tags) t sent (refl, (refl, (refl, tt)))))

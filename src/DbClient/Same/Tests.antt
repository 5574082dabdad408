-- ===== src/DbClient/Same/Tests.antt =====
-- A server that routes nothing and refuses the query.
use horaedb_client_rs.Prelude.{◌≡◌, refl, ap, subst, Option, none, some, [], ◌∷◌, bytes, inr, arith}
use horaedb_client_rs.DbClient.Raw
use horaedb_client_rs.DbClient.RouteBased
use horaedb_client_rs.DbClient.RouteBased.Query
use horaedb_client_rs.DbClient.Same.{answer_of, sql_query-same}
use horaedb_client_rs.Endpoint.{Endpoint, to_string}
use horaedb_client_rs.Errors.{Error, Result}
use horaedb_client_rs.HashMap.{in_order}
use horaedb_client_rs.Rpc.{RpcContext, RouteRequest, ResponseHeader}
use horaedb_client_rs.Rpc.Client.{RpcClient, RpcClientFactory}
use horaedb_client_rs.SqlQuery.Arrow.{Arrow, ArrowType}
use horaedb_client_rs.SqlQuery.Messages.{Request}

abbrev only_server : Endpoint
only_server = record { addr = bytes "1"; port = 8831 }

abbrev sample_client : RpcClient Unit
sample_client = record {
  sql_query = λ ctx req. Result.err (Error.rpc tt);
  write = λ ctx req. Result.err (Error.rpc tt);
  route = λ ctx req. Result.ok (record { header = none; routes = [] });
}

abbrev sample_factory : RpcClientFactory Unit
sample_factory = record { build = λ endpoint. Result.ok sample_client }

abbrev no_arrow : Arrow Unit
no_arrow = record {
  RecordBatch = Unit;
  ArrayRef = Unit;
  field_names = λ b. [];
  num_columns = λ b. 0;
  num_rows = λ b. 0;
  column = λ b i. none;
  array_type = λ a. ArrowType.null;
  show_type = λ t. [];
  downcast = λ k a. none;
  decode_all = λ b. inr tt;
  try_new = λ b. inr tt;
}

abbrev sample_context : RpcContext
sample_context = record { database = none; timeout = none }

abbrev query : Request
query = record { tables = bytes "b" ∷ []; sql = bytes "select 1" }

client_in : Result Unit (RpcClient Unit) → RpcClient Unit
client_in (Result.ok client) = client
client_in (Result.err e) = sample_client

routes_nothing :
    (client : RpcClient Unit) (c : RpcContext) (asked : RouteRequest)
    → sample_factory.build (to_string only_server) ≡ Result.ok client
    → (header : Option ResponseHeader) × (client.route c asked
        ≡ Result.ok (record { header = header; routes = [] }))
unfolding client_in
routes_nothing client c asked e =
    subst
      (λ (x : RpcClient Unit).
        (header : Option ResponseHeader) × (x.route c asked
          ≡ Result.ok (record { header = header; routes = [] })))
      (ap client_in e) (none, refl)

sql_query-same_example :
    answer_of (
      Query.sql_query in_order sample_factory no_arrow
        (λ c. c)
        (RouteBased.new (to_string only_server) (some (bytes "db")))
        sample_context
        query)
    ≡ answer_of (
        Raw.sql_query sample_factory no_arrow
          (Raw.new (to_string only_server) (some (bytes "db")))
          sample_context
          query)
sql_query-same_example =
    sql_query-same Unit in_order sample_factory no_arrow (λ c. c) only_server (some (bytes "db"))
      sample_context query (bytes "b") [] (λ e. cc) (omega arith) routes_nothing refl

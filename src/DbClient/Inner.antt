-- ===== src/DbClient/Inner.antt =====
-- src/db_client/inner.rs: the client of one server, which connects at its first call.
pub mod Laws
use horaedb_client_rs.Prelude.{◌>>=◌, Option, none, some, Str}
use horaedb_client_rs.Errors.{Error, WriteResponse, Result}
use horaedb_client_rs.Rpc.{RpcContext}
use horaedb_client_rs.Rpc.Client.{RpcClient, RpcClientFactory}
use horaedb_client_rs.SqlQuery.Arrow.{Arrow}
use horaedb_client_rs.SqlQuery.Messages.{Request, OutputPb, SqlQueryResponse, WriteResponsePb}
use horaedb_client_rs.SqlQuery.Response.{Response, try_from}
use horaedb_client_rs.Write.Request as WriteRequests
use horaedb_client_rs.Write.Proto.{HashOrders, build_requests}

-- `inner_client` is a cell that is set once.
pub record InnerClient (X : Type 0) : Type 0 where
  pub endpoint : Str
  pub inner_client : Option (RpcClient X)

-- `From<WriteResponsePb> for Response`
unfoldable pub from_pb : WriteResponsePb → WriteResponse
from_pb pb = record { success = pb.success; failed = pb.failed }

module _ {X : Type 0} where
  unfoldable pub new : Str → InnerClient X
  new endpoint = record { endpoint = endpoint; inner_client = none }

  -- `get_or_try_init(|| self.init())`
  abbrev pub client_handle : RpcClientFactory X → InnerClient X → Result X (RpcClient X)
  client_handle factory inner = elim inner.inner_client [
    | some client ↦ Result.ok client
    | none ↦ factory.build inner.endpoint
  ]

  abbrev pub query_answer :
      (arrow : Arrow X) → Result X (Option OutputPb) → Option (Result X Response)
  query_answer arrow (Result.err e) = some (Result.err e)
  query_answer arrow (Result.ok output) = try_from arrow output

  abbrev pub output_of : Result X SqlQueryResponse → Result X (Option OutputPb)
  output_of (Result.err e) = Result.err e
  output_of (Result.ok resp) = Result.ok resp.output

  unfoldable pub sql_query_internal :
      RpcClientFactory X
      → Arrow X
      → InnerClient X
      → RpcContext
      → Request
      → Option (Result X Response × InnerClient X)
  sql_query_internal factory arrow inner ctx req = elim ctx.database [
    | none ↦ none
    | some database ↦ elim (client_handle factory inner) [
      | Result.err e ↦ some (Result.err e, inner)
      | Result.ok client ↦ do
        answer ← query_answer arrow (
            output_of (
              client.sql_query ctx (record {
                context = record { database = database };
                tables = req.tables;
                sql = req.sql;
              })))
        some (answer, record inner { inner_client = some client })
    ]
  ]

  abbrev pub write_answer : Result X WriteResponsePb → Result X WriteResponse
  write_answer (Result.err e) = Result.err e
  write_answer (Result.ok pb) = Result.ok (from_pb pb)

  unfoldable pub write_internal :
      HashOrders
      → RpcClientFactory X
      → InnerClient X
      → RpcContext
      → WriteRequests.Request
      → Option (Result X WriteResponse × InnerClient X)
  write_internal h factory inner ctx req = elim ctx.database [
    | none ↦ none
    | some database ↦ elim (client_handle factory inner) [
      | Result.err e ↦ some (Result.err e, inner)
      | Result.ok client ↦ do
        table_requests ← build_requests h req
        some (
          write_answer (
              client.write ctx (record {
                context = record { database = database };
                table_requests = table_requests;
              })),
          record inner { inner_client = some client },
        )
    ]
  ]

-- ===== src/DbClient/Raw.antt =====
-- src/db_client/raw.rs: the client that sends everything to one server.
use horaedb_client_rs.Prelude.{◌>>=◌, Option, some, Str}
use horaedb_client_rs.DbClient.{resolve_database}
use horaedb_client_rs.DbClient.Inner
use horaedb_client_rs.DbClient.Inner.{InnerClient, sql_query_internal, write_internal}
use horaedb_client_rs.Errors.{WriteResponse, Result}
use horaedb_client_rs.Rpc.{RpcContext}
use horaedb_client_rs.Rpc.Client.{RpcClientFactory}
use horaedb_client_rs.SqlQuery.Arrow.{Arrow}
use horaedb_client_rs.SqlQuery.Messages.{Request}
use horaedb_client_rs.SqlQuery.Response.{Response}
use horaedb_client_rs.Write.Request as WriteRequests
use horaedb_client_rs.Write.Proto.{HashOrders}

pub record RawImpl (X : Type 0) : Type 0 where
  pub inner_client : InnerClient X
  pub default_database : Option Str

module _ {X : Type 0} where
  unfoldable pub new : Str → Option Str → RawImpl X
  new endpoint default_database = record {
    inner_client = Inner.new endpoint;
    default_database = default_database;
  }

  unfoldable pub sql_query :
      RpcClientFactory X
      → Arrow X
      → RawImpl X
      → RpcContext
      → Request
      → Option (Result X Response × RawImpl X)
  sql_query factory arrow r ctx req = elim (resolve_database ctx r.default_database) [
    | Result.err e ↦ some (Result.err e, r)
    | Result.ok ctx' ↦ do
      (answer, inner) ← sql_query_internal factory arrow r.inner_client ctx' req
      some (answer, record r { inner_client = inner })
  ]

  unfoldable pub write :
      HashOrders
      → RpcClientFactory X
      → RawImpl X
      → RpcContext
      → WriteRequests.Request
      → Option (Result X WriteResponse × RawImpl X)
  write h factory r ctx req = elim (resolve_database ctx r.default_database) [
    | Result.err e ↦ some (Result.err e, r)
    | Result.ok ctx' ↦ do
      (answer, inner) ← write_internal h factory r.inner_client ctx' req
      some (answer, record r { inner_client = inner })
  ]

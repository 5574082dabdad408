-- ===== src/DbClient/Inner/Laws.antt =====
-- What a call leaves of a client.
use horaedb_client_rs.Prelude.{◌>>=◌, ◌≡◌, refl, Option, none, some, Str}
use horaedb_client_rs.Errors.{Result}
use horaedb_client_rs.Rpc.{RpcContext}
use horaedb_client_rs.Rpc.Client.{RpcClient, RpcClientFactory}
use horaedb_client_rs.SqlQuery.Arrow.{Arrow}
use horaedb_client_rs.SqlQuery.Messages.{Request}
use horaedb_client_rs.Write.Request as WriteRequests
use horaedb_client_rs.Write.Proto.{HashOrders, build_requests}
use horaedb_client_rs.DbClient.Inner.{
  InnerClient, write_internal, sql_query_internal, client_handle, query_answer, output_of,
  write_answer,
}

module _ (X : Type 0) where
  -- A call keeps the endpoint of the client.
  abbrev pub Keeps : {A : Type 0} → InnerClient X → Option (A × InnerClient X) → Type 0
  Keeps inner none = Unit
  Keeps inner (some (answer, after)) = after.endpoint ≡ inner.endpoint

  Keeps-bind :
      {A B : Type 0} (inner : InnerClient X) (o : Option A) (f : A → B)
      (cell : Option (RpcClient X))
      → Keeps inner (o >>= (λ a. some (f a, record inner { inner_client = cell })))
  Keeps-bind inner none f cell = tt
  Keeps-bind inner (some a) f cell = refl

  pub write_internal-endpoint :
      (h : HashOrders) (factory : RpcClientFactory X) (inner : InnerClient X) (ctx : RpcContext)
      (req : WriteRequests.Request)
      → Keeps inner (write_internal h factory inner ctx req)
  unfolding write_internal
  write_internal-endpoint h factory inner ctx req = by_database ctx.database
    where
      by_handle :
          (database : Str) (handle : Result X (RpcClient X))
          → Keeps inner (elim handle [
            | Result.err e ↦ some (Result.err e, inner)
            | Result.ok client ↦ build_requests h req >>= (λ table_requests. some (
              write_answer (
                  client.write ctx (record {
                    context = record { database = database };
                    table_requests = table_requests;
                  })),
              record inner { inner_client = some client },
            ))
          ])
      by_handle database (Result.err e) = refl
      by_handle database (Result.ok client) =
          Keeps-bind inner (build_requests h req) _ (some client)

      by_database :
          (d : Option Str)
          → Keeps inner (elim d [
            | none ↦ none
            | some database ↦ elim (client_handle factory inner) [
              | Result.err e ↦ some (Result.err e, inner)
              | Result.ok client ↦ build_requests h req >>= (λ table_requests. some (
                write_answer (
                    client.write ctx (record {
                      context = record { database = database };
                      table_requests = table_requests;
                    })),
                record inner { inner_client = some client },
              ))
            ]
          ])
      by_database none = tt
      by_database (some d) = by_handle d (client_handle factory inner)

  pub sql_query_internal-endpoint :
      (factory : RpcClientFactory X) (arrow : Arrow X) (inner : InnerClient X) (ctx : RpcContext)
      (req : Request)
      → Keeps inner (sql_query_internal factory arrow inner ctx req)
  unfolding sql_query_internal
  sql_query_internal-endpoint factory arrow inner ctx req = by_database ctx.database
    where
      by_handle :
          (database : Str) (handle : Result X (RpcClient X))
          → Keeps inner (elim handle [
            | Result.err e ↦ some (Result.err e, inner)
            | Result.ok client ↦
                query_answer arrow (
                  output_of (
                    client.sql_query ctx (record {
                      context = record { database = database };
                      tables = req.tables;
                      sql = req.sql;
                    })))
                >>= (λ answer. some (answer, record inner { inner_client = some client }))
          ])
      by_handle database (Result.err e) = refl
      by_handle database (Result.ok client) =
          Keeps-bind inner
            (query_answer arrow (
              output_of (
                client.sql_query ctx (record {
                  context = record { database = database };
                  tables = req.tables;
                  sql = req.sql;
                }))))
            _ (some client)

      by_database :
          (d : Option Str)
          → Keeps inner (elim d [
            | none ↦ none
            | some database ↦ elim (client_handle factory inner) [
              | Result.err e ↦ some (Result.err e, inner)
              | Result.ok client ↦
                  query_answer arrow (
                    output_of (
                      client.sql_query ctx (record {
                        context = record { database = database };
                        tables = req.tables;
                        sql = req.sql;
                      })))
                  >>= (λ answer. some (answer, record inner { inner_client = some client }))
            ]
          ])
      by_database none = tt
      by_database (some d) = by_handle d (client_handle factory inner)

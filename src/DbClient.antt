-- ===== src/DbClient.antt =====
-- src/db_client: the clients of a database. A call takes the state before it and returns its result with the
-- state after; `none` is a panic.
pub mod Inner
pub mod Raw
pub mod RouteBased
pub mod Builder
pub mod Same
mod Tests
use horaedb_client_rs.Prelude.{Option, none, some, Str}
use horaedb_client_rs.Errors.{Error, Result}
use horaedb_client_rs.Rpc.{RpcContext}

unfoldable pub resolve_database : {X : Type 0} → RpcContext → Option Str → Result X RpcContext
resolve_database ctx default_database = elim ctx.database [
  | some database ↦ Result.ok ctx
  | none ↦ elim default_database [
    | some database ↦ Result.ok (record ctx { database = some database })
    | none ↦ Result.err Error.no_database
  ]
]

-- ===== src/Rpc.antt =====
-- src/rpc_client/mod.rs: the context of a call and the messages of the protocol. The messages are those of the
-- crate horaedbproto, with the fields that the client sets and reads.
pub mod Client
pub mod Mock
use horaedb_client_rs.Prelude.{ℕ, Option, none, some, List, Str}
use horaedb_client_rs.Endpoint.{EndpointPb}

-- A timeout is a number of milliseconds; the client only passes it on.
pub record RpcContext : Type 0 where
  pub database : Option Str
  pub timeout : Option ℕ

abbrev pub no_context : RpcContext
no_context = record { database = none; timeout = none }

unfoldable pub set_database : RpcContext → Str → RpcContext
set_database ctx database = record ctx { database = some database }

unfoldable pub set_timeout : RpcContext → ℕ → RpcContext
set_timeout ctx timeout = record ctx { timeout = some timeout }

pub record RequestContext : Type 0 where
  pub database : Str

pub record RouteRequest : Type 0 where
  pub context : RequestContext
  pub tables : List Str

pub record Route : Type 0 where
  pub table : Str
  pub endpoint : Option EndpointPb

pub record ResponseHeader : Type 0 where
  pub code : ℕ
  pub error : Str

pub record RouteResponse : Type 0 where
  pub header : Option ResponseHeader
  pub routes : List Route

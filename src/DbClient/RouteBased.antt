-- ===== src/DbClient/RouteBased.antt =====
-- src/db_client/route_based.rs: the client that sends each table to the server that holds it.
pub mod Pool
pub mod Sent
pub mod Answered
pub mod Replies
pub mod Partition
pub mod Query
pub mod Write
mod Tests
use horaedb_client_rs.Prelude.{Option, none, some, List, [], ◌∷◌, ◌++◌, Str, bytes}
use horaedb_client_rs.DbClient.Inner
use horaedb_client_rs.DbClient.Inner.{InnerClient}
use horaedb_client_rs.Endpoint.{
  Endpoint, ParseIntError, EndpointError, ParsedEndpoint, endpoint_eq, from_str, rsplit_once,
  to_string,
}
use horaedb_client_rs.Errors.{Error, Result}
use horaedb_client_rs.HashMap
use horaedb_client_rs.HashMap.{HashMap}
use horaedb_client_rs.Router
use horaedb_client_rs.Router.{RouterImpl}
use horaedb_client_rs.Rpc.Client.{RpcClient, RpcClientFactory}

-- `DirectClientPool`. Clients are shared: a client that is in use is the one under its endpoint here,
-- and none is ever removed.
abbrev pub DirectClientPool : Type 0 → Type 0
DirectClientPool X = HashMap Endpoint (InnerClient X)

-- `router` is a cell that is set once, with the client that the router calls.
pub record RouteBasedImpl (X : Type 0) : Type 0 where
  pub router_endpoint : Str
  pub router : Option (RouterImpl × RpcClient X)
  pub standalone_pool : DirectClientPool X
  pub default_database : Option Str

-- The texts of the errors of `from_str`.
abbrev pub int_error_text : ParseIntError → Str
int_error_text ParseIntError.empty = bytes "cannot parse integer from empty string"
int_error_text ParseIntError.invalid_digit = bytes "invalid digit found in string"
int_error_text ParseIntError.pos_overflow = bytes "number too large to fit in target type"

abbrev pub raw_port : Option (Str × Str) → Str
raw_port none = []
raw_port (some (addr, port)) = port

abbrev pub error_text : Str → EndpointError → Str
error_text s EndpointError.no_colon = bytes "Can't find ':' in the source string"
error_text s EndpointError.empty_addr = bytes "Empty addr in the source string"
error_text s EndpointError.too_large_port = bytes "Too large port (<=65536)"
error_text s (EndpointError.bad_port e) =
    bytes "Fail to parse port:"
    ++ (raw_port (rsplit_once s) ++ (bytes ", err:" ++ int_error_text e))

module _ {X : Type 0} where
  unfoldable pub new : Str → Option Str → RouteBasedImpl X
  new router_endpoint default_database = record {
    router_endpoint = router_endpoint;
    router = none;
    standalone_pool = [];
    default_database = default_database;
  }

  unfoldable pub init_router : RpcClientFactory X → Str → Result X (RouterImpl × RpcClient X)
  init_router factory router_endpoint = elim (factory.build router_endpoint) [
    | Result.err e ↦ Result.err e
    | Result.ok client ↦ elim (from_str router_endpoint) [
      | ParsedEndpoint.ok endpoint ↦ Result.ok (Router.new endpoint, client)
      | ParsedEndpoint.err e ↦ Result.err (
          Error.client (
            bytes "Failed to parse default endpoint:"
            ++ (router_endpoint ++ (bytes ", err:" ++ error_text router_endpoint e))))
    ]
  ]

  -- `get_or_try_init(|| self.init_router())`
  abbrev pub router_handle :
      RpcClientFactory X → RouteBasedImpl X → Result X (RouterImpl × RpcClient X)
  router_handle factory r = elim r.router [
    | some handle ↦ Result.ok handle
    | none ↦ init_router factory r.router_endpoint
  ]

  -- The pool with a client for the endpoint, and that client.
  unfoldable pub get_or_create : DirectClientPool X → Endpoint → InnerClient X × DirectClientPool X
  get_or_create pool endpoint = elim (HashMap.get pool endpoint) [
    | some client ↦ (client, pool)
    | none ↦
        let client : InnerClient X = Inner.new (to_string endpoint) in
        (client, HashMap.insert endpoint client pool)
  ]

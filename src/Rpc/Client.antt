-- ===== src/Rpc/Client.antt =====
-- src/rpc_client: the client of one server, and its factory. What the crate tonic does is a parameter: the call
-- of a service, and the connection.
pub mod Laws
mod Tests
use mathlib.Core.Option.{get_or}
use horaedb_client_rs.Prelude.{
  ℕ, Bool, true, false, not, Option, none, some, List, [], ◌∷◌, ◌++◌, Str, bytes, ◌⊎◌, inl, inr,
  if◌then◌else◌,
}
use horaedb_client_rs.Config.{RpcConfig, Authorization}
use horaedb_client_rs.Errors.{ServerError, Error, Result}
use horaedb_client_rs.Rpc.{RpcContext, ResponseHeader, RouteRequest, RouteResponse}
use horaedb_client_rs.SqlQuery.Messages.{
  SqlQueryRequest, SqlQueryResponse, WriteRequest, WriteResponsePb,
}
use horaedb_client_rs.Util
use horaedb_client_rs.Util.{is_ok}

-- The trait `RpcClient`: what a server answers to each call.
pub record RpcClient (X : Type 0) : Type 0 where
  pub sql_query : RpcContext → SqlQueryRequest → Result X SqlQueryResponse
  pub write : RpcContext → WriteRequest → Result X WriteResponsePb
  pub route : RpcContext → RouteRequest → Result X RouteResponse

-- The trait `RpcClientFactory`.
pub record RpcClientFactory (X : Type 0) : Type 0 where
  pub build : Str → Result X (RpcClient X)

-- `tonic::Request`, with what the client sets of it.
pub record GrpcRequest (T : Type 0) : Type 0 where
  pub message : T
  pub timeout : ℕ
  pub authorization : Option Str

-- The calls of `StorageServiceClient` over a channel.
pub record Channel (X : Type 0) : Type 0 where
  pub call_sql_query : GrpcRequest SqlQueryRequest → SqlQueryResponse ⊎ X
  pub call_write : GrpcRequest WriteRequest → WriteResponsePb ⊎ X
  pub call_route : GrpcRequest RouteRequest → RouteResponse ⊎ X

pub record RpcClientImpl (X : Type 0) : Type 0 where
  pub channel : Channel X
  pub default_read_timeout : ℕ
  pub default_write_timeout : ℕ
  pub metadata : Option Str

-- `none` is success.
unfoldable pub check_status : ResponseHeader → Option ServerError
check_status header =
    if not (is_ok header.code)
    then some (record { code = header.code; msg = header.error })
    else none

module _ {X : Type 0} where
  unfoldable pub make_request : {T : Type 0} → RpcClientImpl X → RpcContext → T → ℕ → GrpcRequest T
  make_request c ctx req default_timeout = record {
    message = req;
    timeout = get_or ctx.timeout default_timeout;
    authorization = c.metadata;
  }

  unfoldable pub make_query_request :
      {T : Type 0} → RpcClientImpl X → RpcContext → T → GrpcRequest T
  make_query_request c ctx req = make_request c ctx req c.default_read_timeout

  unfoldable pub make_write_request :
      {T : Type 0} → RpcClientImpl X → RpcContext → T → GrpcRequest T
  make_write_request c ctx req = make_request c ctx req c.default_write_timeout

  -- `if let Some(header) = resp.header.take() { check_status(header)?; }`
  abbrev pub checked : {A : Type 0} → Option ResponseHeader → A → Result X A
  checked none resp = Result.ok resp
  checked (some header) resp = elim (check_status header) [
    | some e ↦ Result.err (Error.server e)
    | none ↦ Result.ok resp
  ]

  unfoldable pub sql_query :
      RpcClientImpl X → RpcContext → SqlQueryRequest → Result X SqlQueryResponse
  sql_query c ctx req = elim (c.channel.call_sql_query (make_query_request c ctx req)) [
    | inr e ↦ Result.err (Error.rpc e)
    | inl resp ↦ checked resp.header (record resp { header = none })
  ]

  unfoldable pub write : RpcClientImpl X → RpcContext → WriteRequest → Result X WriteResponsePb
  write c ctx req = elim (c.channel.call_write (make_write_request c ctx req)) [
    | inr e ↦ Result.err (Error.rpc e)
    | inl resp ↦ checked resp.header (record resp { header = none })
  ]

  unfoldable pub route : RpcClientImpl X → RpcContext → RouteRequest → Result X RouteResponse
  route c ctx req = elim (c.channel.call_route (make_request c ctx req c.default_write_timeout)) [
    | inr e ↦ Result.err (Error.rpc e)
    | inl resp ↦ checked resp.header (record resp { header = none })
  ]

  -- `impl RpcClient for RpcClientImpl`
  unfoldable pub as_client : RpcClientImpl X → RpcClient X
  as_client c = record { sql_query = sql_query c; write = write c; route = route c }

-- What the factory hands to tonic before it connects.
pub record ConfiguredEndpoint : Type 0 where
  pub uri : Str
  pub connect_timeout : ℕ
  pub keep_alive_timeout : Option ℕ
  pub keep_alive_while_idle : Bool
  pub http2_keep_alive_interval : Option ℕ

-- `Endpoint::from_shared`, which may refuse the text, `connect`, the base64 encoding, and the parse of
-- a metadata value.
pub record Tonic (X : Type 0) : Type 0 where
  pub from_shared : Str → Option X
  pub connect : ConfiguredEndpoint → Channel X ⊎ X
  pub encode : Str → Str
  pub parse_metadata : Str → Str ⊎ X

pub record RpcClientImplFactory : Type 0 where
  pub rpc_config : RpcConfig
  pub authorization : Option Authorization

unfoldable pub make_endpoint_with_scheme : Str → Str
make_endpoint_with_scheme endpoint = bytes "http://" ++ endpoint

unfoldable pub configure : RpcConfig → Str → ConfiguredEndpoint
configure config uri =
    if config.keep_alive_while_idle
    then record {
      uri = uri;
      connect_timeout = config.connect_timeout;
      keep_alive_timeout = some config.keep_alive_timeout;
      keep_alive_while_idle = true;
      http2_keep_alive_interval = some config.keep_alive_interval;
    }
    else record {
      uri = uri;
      connect_timeout = config.connect_timeout;
      keep_alive_timeout = none;
      keep_alive_while_idle = false;
      http2_keep_alive_interval = none;
    }

module _ {X : Type 0} (tonic : Tonic X) where
  abbrev pub metadata_of : Option Authorization → Result X (Option Str)
  metadata_of none = Result.ok none
  metadata_of (some auth) =
      elim (tonic.parse_metadata
        (bytes "Basic " ++ tonic.encode (auth.username ++ (bytes ":" ++ auth.password)))) [
          | inr e ↦ Result.err (Error.other e)
          | inl metadata ↦ Result.ok (some metadata)
        ]

  -- `build` of the factory.
  unfoldable pub build_client : RpcClientImplFactory → Str → Result X (RpcClientImpl X)
  build_client f endpoint = elim (tonic.from_shared (make_endpoint_with_scheme endpoint)) [
    | some e ↦ Result.err (Error.connect endpoint e)
    | none ↦ elim (tonic.connect (configure f.rpc_config (make_endpoint_with_scheme endpoint))) [
      | inr e ↦ Result.err (Error.connect endpoint e)
      | inl channel ↦ elim (metadata_of f.authorization) [
        | Result.err e ↦ Result.err e
        | Result.ok metadata ↦ Result.ok (record {
          channel = channel;
          default_read_timeout = f.rpc_config.default_sql_query_timeout;
          default_write_timeout = f.rpc_config.default_write_timeout;
          metadata = metadata;
        })
      ]
    ]
  ]

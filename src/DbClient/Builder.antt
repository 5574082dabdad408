-- ===== src/DbClient/Builder.antt =====
-- src/db_client/builder.rs.
use horaedb_client_rs.Prelude.{Option, none, some, Str}
use horaedb_client_rs.Config
use horaedb_client_rs.Config.{RpcConfig, Authorization}
use horaedb_client_rs.DbClient.Raw
use horaedb_client_rs.DbClient.Raw.{RawImpl}
use horaedb_client_rs.DbClient.RouteBased
use horaedb_client_rs.DbClient.RouteBased.{RouteBasedImpl}
use horaedb_client_rs.Rpc.Client.{RpcClientImplFactory}

pub data Mode : Type 0 where
  direct proxy : Mode

pub record Builder : Type 0 where
  pub mode : Mode
  pub endpoint : Str
  pub default_database : Option Str
  pub rpc_config : RpcConfig
  pub authorization : Option Authorization

unfoldable pub new : Str → Mode → Builder
new endpoint mode = record {
  mode = mode;
  endpoint = endpoint;
  default_database = none;
  rpc_config = Config.default;
  authorization = none;
}

unfoldable pub set_default_database : Builder → Str → Builder
set_default_database b default_database = record b { default_database = some default_database }

unfoldable pub set_rpc_config : Builder → RpcConfig → Builder
set_rpc_config b rpc_config = record b { rpc_config = rpc_config }

unfoldable pub set_authorization : Builder → Authorization → Builder
set_authorization b authorization = record b { authorization = some authorization }

-- The client that is built, and the factory that it calls.
pub data Client (X : Type 0) : Type 0 where
  route_based : RouteBasedImpl X → Client X
  raw : RawImpl X → Client X

unfoldable pub build : {X : Type 0} → Builder → RpcClientImplFactory × Client X
build b = (
  record { rpc_config = b.rpc_config; authorization = b.authorization },
  elim b.mode [
    | Mode.direct ↦ Client.route_based (RouteBased.new b.endpoint b.default_database)
    | Mode.proxy ↦ Client.raw (Raw.new b.endpoint b.default_database)
  ],
)

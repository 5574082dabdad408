-- ===== src/Rpc/Mock.antt =====
-- src/rpc_client/mock_rpc_client.rs: the client of the unit tests, whose route looks tables up in a table of
-- routes. Its other calls are `todo!()`, a panic.
pub mod Laws
pub mod Flow
mod Tests
use horaedb_client_rs.Prelude.{Option, none, some, List, [], ◌∷◌, Str, str_eq}
use horaedb_client_rs.Endpoint.{Endpoint, EndpointPb}
use horaedb_client_rs.HashMap
use horaedb_client_rs.HashMap.{HashMap}
use horaedb_client_rs.Rpc.{Route, RouteRequest, RouteResponse}

pub record MockRpcClient : Type 0 where
  pub route_table : HashMap Str Endpoint

unfoldable pub to_endpoint_pb : Endpoint → EndpointPb
to_endpoint_pb endpoint = record { ip = endpoint.addr; port = endpoint.port }

-- `filter_map` over the tables of the request.
unfoldable pub mock_routes : HashMap Str Endpoint → List Str → List Route
unfolding to_endpoint_pb
mock_routes route_table [] = []
mock_routes route_table (m ∷ tables) =
    let rest = mock_routes route_table tables in
    elim (HashMap.get route_table m) [
      | none ↦ rest
      | some endpoint ↦ record { table = m; endpoint = some (to_endpoint_pb endpoint) } ∷ rest
    ]

unfoldable pub mock_route : MockRpcClient → RouteRequest → RouteResponse
mock_route c req = record { header = none; routes = mock_routes c.route_table req.tables }

-- ===== src/Rpc/Mock/Tests.antt =====
-- A router over a mock client that knows one of three tables.
use horaedb_client_rs.Prelude.{◌≡◌, refl, none, some, List, [], ◌∷◌, Str, str_eq, bytes}
use horaedb_client_rs.Endpoint.{Endpoint}
use horaedb_client_rs.Errors.{Result}
use horaedb_client_rs.HashMap
use horaedb_client_rs.HashMap.{in_order}
use horaedb_client_rs.Router.{RouterImpl, Cache, route}
use horaedb_client_rs.Rpc.{RpcContext}
use horaedb_client_rs.Rpc.Mock.{MockRpcClient, mock_route}
use horaedb_client_rs.Rpc.Mock.Laws.{route-mock_route, mock_cached}

abbrev server : Str → Endpoint
server name = record { addr = name; port = 8831 }

abbrev sample_router : RouterImpl
sample_router = record {
  default_endpoint = server (bytes "d");
  cache = (bytes "a", server (bytes "1")) ∷ [];
}

abbrev sample_tables : List Str
sample_tables = bytes "a" ∷ bytes "b" ∷ bytes "c" ∷ []

abbrev sample_context : RpcContext
sample_context = record { database = some (bytes "db"); timeout = none }

abbrev sample_mock : MockRpcClient
sample_mock = record { route_table = (bytes "b", server (bytes "2")) ∷ [] }

abbrev unchanged : Cache → Cache
unchanged cache = cache

route-mock_route_at_sample :
    (after : Cache) × ((route {X = Unit} in_order sample_router sample_tables sample_context
          (λ req. Result.ok (mock_route sample_mock req))
          unchanged
        ≡ some (
          Result.ok (
              some (server (bytes "1"))
              ∷ some (server (bytes "2"))
              ∷ some (server (bytes "d"))
              ∷ []),
          record sample_router { cache = after },
        ))
      × (unchanged sample_router.cache ≡ sample_router.cache
          → (t : Str)
          → HashMap.get after t
            ≡ mock_cached sample_router sample_mock.route_table sample_tables t))
unfolding HashMap.get
route-mock_route_at_sample =
    route-mock_route Unit in_order sample_router sample_tables sample_context sample_mock unchanged
      (bytes "db") refl

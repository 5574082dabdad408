-- ===== src/Router/Tests.antt =====
-- The theorems about the router at a concrete router.
use horaedb_client_rs.Prelude.{
  Mem, ◌↔◌, true, ◌≡◌, refl, false, none, some, List, [], ◌∷◌, Str, str_eq, bytes,
}
use mathlib.Core.Option
use horaedb_client_rs.Endpoint.{Endpoint, of_pb}
use horaedb_client_rs.Errors.{Result}
use horaedb_client_rs.HashMap
use horaedb_client_rs.HashMap.{in_order}
use horaedb_client_rs.Router.Asks.{route_request-asks}
use horaedb_client_rs.Router.Expected.{expects}
use horaedb_client_rs.Router.{route_request, Cache, RouterImpl, Targets, route, evict}
use horaedb_client_rs.Router.Fill.{last_route, is_ok}
use horaedb_client_rs.Router.Laws.{route-exact, route_succeeds_exactly, get-evict}
use horaedb_client_rs.Rpc.{RpcContext, RouteRequest, RouteResponse}

abbrev server : Str → Endpoint
server name = record { addr = name; port = 8831 }

-- One table is cached, one is routed by the server, and one is not.
abbrev sample_router : RouterImpl
sample_router = record {
  default_endpoint = server (bytes "d");
  cache = (bytes "a", server (bytes "1")) ∷ [];
}

abbrev sample_tables : List Str
sample_tables = bytes "a" ∷ bytes "b" ∷ bytes "c" ∷ []

abbrev sample_context : RpcContext
sample_context = record { database = some (bytes "db"); timeout = none }

abbrev sample_response : RouteResponse
sample_response = record {
  header = none;
  routes =
      record { table = bytes "b"; endpoint = some (record { ip = bytes "2"; port = 8831 }) }
      ∷ record { table = bytes "x"; endpoint = none }
      ∷ [];
}

abbrev sample_answer : RouteRequest → Result Unit RouteResponse
sample_answer req = Result.ok sample_response

abbrev unchanged : Cache → Cache
unchanged cache = cache

route-exact_example :
    (after : Cache) × ((route in_order sample_router sample_tables sample_context sample_answer
          unchanged
        ≡ some (
          Result.ok (
              some (server (bytes "1"))
              ∷ some (server (bytes "2"))
              ∷ some (server (bytes "d"))
              ∷ []),
          record sample_router { cache = after },
        ))
      × ((t : Str)
          → HashMap.get after t
            ≡ last_route t (HashMap.get sample_router.cache t) sample_response.routes))
unfolding HashMap.get of_pb
route-exact_example =
    route-exact Unit in_order sample_router sample_tables sample_context sample_answer unchanged
      (bytes "db") sample_response refl refl refl

route_succeeds_exactly_example :
    Option.map
      (λ (o : Result Unit Targets × RouterImpl). is_ok o.0)
      (route in_order sample_router (bytes "a" ∷ []) sample_context sample_answer unchanged)
    ≡ some false
unfolding HashMap.get
route_succeeds_exactly_example =
    route_succeeds_exactly Unit in_order sample_router (bytes "a" ∷ []) sample_context sample_answer
      unchanged

get-evict_at_sample :
    HashMap.get (evict sample_router (bytes "b" ∷ bytes "a" ∷ [])).cache (bytes "a") ≡ none
get-evict_at_sample = get-evict sample_router (bytes "b" ∷ bytes "a" ∷ []) (bytes "a")

route_request-asks_example :
    Mem (bytes "b") (route_request in_order sample_router sample_tables (bytes "db")).tables
    ↔ (expects sample_router sample_tables (bytes "b") ≡ true)
route_request-asks_example =
    route_request-asks in_order sample_router sample_tables (bytes "db") (bytes "b")

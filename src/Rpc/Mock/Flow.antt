-- ===== src/Rpc/Mock/Flow.antt =====
-- `test_basic_flow`, the unit test of src/router.rs: a router over a mock client whose table of routes
-- changes between the calls. The test's tables and endpoints are arguments.
pub mod Asserts
mod Tests
use horaedb_client_rs.Prelude.{◌>>=◌, Option, none, some, List, [], ◌∷◌, Str, str_eq, bytes, ℕ}
use horaedb_client_rs.Errors.{Result}
use horaedb_client_rs.Endpoint.{Endpoint}
use horaedb_client_rs.HashMap
use horaedb_client_rs.HashMap.{HashMap, Arrangement}
use horaedb_client_rs.Router
use horaedb_client_rs.Router.{RouterImpl, Targets, route, evict}
use horaedb_client_rs.Rpc.{RpcContext}
use horaedb_client_rs.Rpc.Mock.{MockRpcClient, mock_route}

abbrev pub db_context : RpcContext
db_context = record { database = some (bytes "db"); timeout = none }

-- `route(..).await.unwrap()`: `none` is a panic.
abbrev pub unwrapped : Option (Result Unit Targets × RouterImpl) → Option (Targets × RouterImpl)
unwrapped none = none
unwrapped (some (Result.err e, r)) = none
unwrapped (some (Result.ok targets, r)) = some (targets, r)

-- A call while the mock client has this table of routes and nobody else uses the router.
unfoldable pub call :
    Arrangement (Str × ℕ)
    → HashMap Str Endpoint
    → RouterImpl
    → List Str
    → Option (Targets × RouterImpl)
call h route_table r tables = unwrapped (
    route {X = Unit} h r tables db_context
      (λ req. Result.ok (mock_route (record { route_table = route_table }) req)) (λ cache. cache))

-- What the four calls of the test return.
unfoldable pub basic_flow :
    Arrangement (Str × ℕ)
    → (table1 table2 table3 table4 : Str)
    → (endpoint1 endpoint2 endpoint3 endpoint4 default_endpoint : Endpoint) → Option (List Targets)
basic_flow h table1 table2 table3 table4 endpoint1 endpoint2 endpoint3 endpoint4 default_endpoint =
    let tables = table1 ∷ table2 ∷ [] in
    let before : HashMap Str Endpoint =
      HashMap.insert table2 endpoint2 (HashMap.insert table1 endpoint1 []) in
    let after : HashMap Str Endpoint =
      HashMap.insert table2 endpoint4 (HashMap.insert table1 endpoint3 before) in
    do
      (route_res1, r1) ← call h before (Router.new default_endpoint) tables
      (route_res2, r2) ← call h after r1 tables
      (route_res3, r3) ← call h after (evict r2 (table1 ∷ table2 ∷ [])) tables
      (route_res4, r4) ← call h after r3 (table3 ∷ table4 ∷ [])
      some (route_res1 ∷ route_res2 ∷ route_res3 ∷ route_res4 ∷ [])

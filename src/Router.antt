-- ===== src/Router.antt =====
-- src/router.rs: `RouterImpl`, which routes tables to endpoints through a cache. The answer of the server
-- to the call is an argument, and so is what other tasks do to the shared cache while the call waits
-- for it.
pub mod Lookup
pub mod Fill
pub mod Places
pub mod Expected
pub mod Asks
pub mod Laws
pub mod Tasks
mod Tests
use horaedb_client_rs.Prelude.{
  ℕ, zero, suc, Option, none, some, List, [], ◌∷◌, ◌++◌, map, Str, str_eq, bytes, set, replicate,
  length,
}
use horaedb_client_rs.HashMap
use horaedb_client_rs.HashMap.{HashMap, Arrangement}
use horaedb_client_rs.Errors.{Error, Result}
use horaedb_client_rs.Endpoint.{Endpoint, of_pb}
use horaedb_client_rs.Rpc.{RpcContext, RequestContext, RouteRequest, RouteResponse, Route}

abbrev pub Cache : Type 0
Cache = HashMap Str Endpoint

pub record RouterImpl : Type 0 where
  pub default_endpoint : Endpoint
  pub cache : Cache

unfoldable pub new : Endpoint → RouterImpl
new default_endpoint = record { default_endpoint = default_endpoint; cache = [] }

abbrev pub Targets : Type 0
Targets = List (Option Endpoint)

-- The tables that are not cached, each with its place among the tables.
abbrev pub Misses : Type 0
Misses = HashMap Str ℕ

-- The first loop: cached endpoints go to the places of their tables, the rest is collected. Every
-- write is within bounds, since there are as many targets as tables.
unfoldable pub find_cached : Cache → ℕ → List Str → Targets → Misses → Targets × Misses
find_cached cache idx [] targets misses = (targets, misses)
find_cached cache idx (table ∷ tables) targets misses = elim (HashMap.get cache table) [
  | some endpoint ↦ find_cached cache (suc idx) tables (set targets idx (some endpoint)) misses
  | none ↦ find_cached cache (suc idx) tables targets (HashMap.insert table idx misses)
]

abbrev pub unknown_table : Str → Str
unknown_table table = bytes "Unknown table:" ++ (table ++ bytes " in response")

-- The second loop, over the routes of the response. What was cached before an error stays cached.
unfoldable pub fill :
    {X : Type 0} → Misses → List Route → Targets → Cache → Result X Targets × Cache
fill misses [] targets cache = (Result.ok targets, cache)
fill misses (route ∷ routes) targets cache = elim route.endpoint [
  | none ↦ fill misses routes targets cache
  | some pb ↦ elim (HashMap.get misses route.table) [
    | none ↦ (Result.err (Error.unknown (unknown_table route.table)), cache)
    | some idx ↦
        fill misses routes (set targets idx (some (of_pb pb)))
          (HashMap.insert route.table (of_pb pb) cache)
  ]
]

abbrev pub tables_of : Misses → List Str
tables_of misses = map (λ (m : Str × ℕ). m.0) misses

-- What `route` sends: the misses, in the order in which the hash map is read. `none` is the panic
-- of `assert!(ctx.database.is_some())`.
abbrev pub first_pass : RouterImpl → List Str → Targets × Misses
first_pass r tables =
    find_cached r.cache 0 tables (replicate (length tables) (some r.default_endpoint)) []

unfoldable pub route_request : Arrangement (Str × ℕ) → RouterImpl → List Str → Str → RouteRequest
route_request h r tables database = record {
  context = record { database = database };
  tables = tables_of (h.arrange (first_pass r tables).1);
}

-- What `route` does with the answer to that request, with the cache as it is by then.
abbrev pub finish :
    {X : Type 0}
    → RouterImpl
    → Targets × Misses
    → Cache
    → Result X RouteResponse
    → Result X Targets × RouterImpl
finish r (targets, misses) cache (Result.err e) = (Result.err e, record r { cache = cache })
finish r (targets, misses) cache (Result.ok resp) =
    let (result, after) = fill misses resp.routes targets cache in
    (result, record r { cache = after })

unfoldable pub route :
    {X : Type 0}
    → Arrangement (Str × ℕ)
    → RouterImpl
    → List Str
    → RpcContext
    → (RouteRequest → Result X RouteResponse)
    → (Cache → Cache)
    → Option (Result X Targets × RouterImpl)
route h r tables ctx answer meanwhile = elim ctx.database [
  | none ↦ none
  | some database ↦ some (
      finish r (first_pass r tables) (meanwhile r.cache)
        (answer (route_request h r tables database)))
]

unfoldable pub evict_all : List Str → Cache → Cache
evict_all [] cache = cache
evict_all (table ∷ tables) cache = evict_all tables (HashMap.remove table cache)

unfoldable pub evict : RouterImpl → List Str → RouterImpl
unfolding evict_all
evict r tables = record r { cache = evict_all tables r.cache }

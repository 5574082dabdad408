-- ===== src/Router/Tasks/Tests.antt =====
-- A call of `route` while another task evicts its table.
use horaedb_client_rs.Prelude.{◌≡◌, refl, some, none, [], ◌∷◌, ◌++◌, ◌+◌, ◌≤◌, bytes, Str}
use horaedb_client_rs.Endpoint.{Endpoint, of_pb}
use horaedb_client_rs.Errors.{Result}
use horaedb_client_rs.HashMap
use horaedb_client_rs.HashMap.{in_order}
use horaedb_client_rs.Rpc.{RouteResponse, RpcContext}
use horaedb_client_rs.Router.{RouterImpl, Cache, Targets, route}
use horaedb_client_rs.Router.Tasks.{System, Reach, start, later, pick, Shared, Pc, Move}
use horaedb_client_rs.Router.Tasks.Alone.{Runs, TakesSteps, route-TakesSteps}
use horaedb_client_rs.Router.Tasks.Unique.{TakesSteps-route}
use horaedb_client_rs.Router.Tasks.Rest.{Paced, rests, moves, task-ComesToRest}
use horaedb_client_rs.Router.Tasks.Heard.{SlotsOk}
use horaedb_client_rs.Router.Tasks.Invariant.{returned-SlotsOk}
use horaedb_client_rs.Router.Tasks.Kept.{CacheOk}
use horaedb_client_rs.Router.Tasks.Move.{
  call, hit, miss, ask, hear, store, done, evict, remove, evicted,
}

abbrev server : Str → Endpoint
server name = record { addr = name; port = 8831 }

abbrev response : RouteResponse
response = record {
  header = none;
  routes =
      record { table = bytes "a"; endpoint = some (record { ip = bytes "1"; port = 8831 }) } ∷ [];
}

abbrev run : (s : System Unit) × Reach Unit (server (bytes "d")) s
unfolding HashMap.get HashMap.insert HashMap.remove of_pb
run = (
  _,
  later
      (later
        (later
          (later
            (later
              (later
                (later (later (later start (pick 0 (call (bytes "a" ∷ [])))) (pick 0 (miss refl)))
                  (pick 1 (evict (bytes "a" ∷ []))))
                (pick 0 ask))
              (pick 0 (hear response)))
            (pick 0 (store (record { ip = bytes "1"; port = 8831 }) 0 refl refl)))
          (pick 1 remove))
        (pick 0 done))
      (pick 1 evicted),
)

returned-SlotsOk_example :
    SlotsOk (server (bytes "d")) response.routes (bytes "a" ∷ []) (some (server (bytes "1")) ∷ [])
    × CacheOk [] response.routes
unfolding HashMap.get HashMap.insert HashMap.remove of_pb run
returned-SlotsOk_example =
    returned-SlotsOk run.1 0 (bytes "a" ∷ []) (some (server (bytes "1")) ∷ []) refl

abbrev sample_router : RouterImpl
sample_router = record { default_endpoint = server (bytes "d"); cache = [] }

abbrev sample_context : RpcContext
sample_context = record { database = some (bytes "db"); timeout = none }

route-TakesSteps_example :
    (result : Result Unit Targets) × (after : Cache) × ((route in_order sample_router
          (bytes "a" ∷ [])
          sample_context
          (λ req. Result.ok response)
          (λ c. c)
        ≡ some (result, record sample_router { cache = after }))
      × TakesSteps Unit
          (server (bytes "d"))
          (bytes "a" ∷ [])
          []
          []
          []
          (Result.ok response)
          result
          after)
route-TakesSteps_example =
    route-TakesSteps Unit in_order sample_router (bytes "a" ∷ []) sample_context
      (λ req. Result.ok response) (λ c. c) (bytes "db") [] refl

-- The steps of that call.
abbrev steps :
    TakesSteps Unit
      (server (bytes "d"))
      (bytes "a" ∷ [])
      []
      []
      []
      (Result.ok response)
      (Result.ok (some (server (bytes "1")) ∷ []))
      ((bytes "a", server (bytes "1")) ∷ [])
unfolding HashMap.get HashMap.insert of_pb
steps = record {
  targets = some (server (bytes "d")) ∷ [];
  misses = (bytes "a", 0) ∷ [];
  calls = call (bytes "a" ∷ []);
  asks = Runs.moves refl (miss refl) (Runs.moves refl ask (Runs.rests _ _));
  hears = hear response;
  answers =
      Runs.moves refl (store (record { ip = bytes "1"; port = 8831 }) 0 refl refl)
        (Runs.moves refl done (Runs.rests _ _));
}

TakesSteps-route_example :
    route {X = Unit} in_order sample_router
      (bytes "a" ∷ [])
      sample_context
      (λ req. Result.ok response)
      (λ c. c)
    ≡ some (
      Result.ok (some (server (bytes "1")) ∷ []),
      record sample_router { cache = (bytes "a", server (bytes "1")) ∷ [] },
    )
TakesSteps-route_example =
    TakesSteps-route Unit in_order sample_router (bytes "a" ∷ []) sample_context
      (λ req. Result.ok response) (λ c. c) (bytes "db") []
      (Result.ok (some (server (bytes "1")) ∷ [])) ((bytes "a", server (bytes "1")) ∷ []) refl steps

abbrev shared : Shared
shared = record { cache = []; answered = [] }

-- The first loop over one table, which another task caches before the loop reads it.
abbrev looks_up :
    Paced Unit
      (server (bytes "d"))
      (Pc.finding (bytes "a" ∷ []) 0 (bytes "a" ∷ []) (none ∷ []) [])
      2
      (Pc.waiting (bytes "a" ∷ []) (some (server (bytes "1")) ∷ []) [])
unfolding HashMap.get
looks_up =
    moves (record { cache = (bytes "a", server (bytes "1")) ∷ []; answered = [] })
      (record { cache = (bytes "a", server (bytes "1")) ∷ []; answered = [] }) refl
      (hit (server (bytes "1")) refl)
      (moves shared shared refl ask
        (rests (Pc.waiting (bytes "a" ∷ []) (some (server (bytes "1")) ∷ []) [])))

task-ComesToRest_example :
    (2 + 0 ≤ 2)
    × Move Unit
        (server (bytes "d"))
        shared
        (Pc.waiting (bytes "a" ∷ []) (some (server (bytes "1")) ∷ []) [])
        (record shared { answered = response.routes ++ [] })
        (Pc.filling (bytes "a" ∷ []) response.routes (some (server (bytes "1")) ∷ []) [])
task-ComesToRest_example =
    task-ComesToRest Unit (server (bytes "d")) 2
      (Pc.finding (bytes "a" ∷ []) 0 (bytes "a" ∷ []) (none ∷ []) [])
      (Pc.waiting (bytes "a" ∷ []) (some (server (bytes "1")) ∷ []) []) shared (Result.ok response)
      looks_up

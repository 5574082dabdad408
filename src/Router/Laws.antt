-- ===== src/Router/Laws.antt =====
-- `route` and `evict` of src/router.rs as a whole.
use horaedb_client_rs.Prelude.{
  ℕ, ◌≡◌, refl, ap, ◌∙◌, Bool, true, false, Option, none, some, List, [], ◌∷◌, arith, Str, str_eq,
  if◌then◌else◌,
}
use mathlib.Core.Option
use horaedb_client_rs.HashMap
use horaedb_client_rs.HashMap.{Arrangement}
use horaedb_client_rs.HashMap.Laws.{get-remove}
use horaedb_client_rs.Errors.{Result}
use horaedb_client_rs.Rpc.{RpcContext, RouteRequest, RouteResponse}
use horaedb_client_rs.Router.{
  Cache, Targets, RouterImpl, first_pass, finish, fill, route, route_request, evict, evict_all,
}
use horaedb_client_rs.Router.Fill.{last_route, is_ok, is_ok-fill, cache-fill, ok_of_is_ok}
use horaedb_client_rs.Router.Places.{occurs}
use horaedb_client_rs.Router.Expected.{only_expected, endpoints_for, all_asked-expected, fill-exact}

-- Whether the call succeeds: the server answers, and only routes tables that were asked for.
abbrev pub answers : {X : Type 0} → RouterImpl → List Str → Result X RouteResponse → Bool
answers r tables (Result.err e) = false
answers r tables (Result.ok resp) = only_expected r tables resp.routes

finish-exact :
    (X : Type 0) (r : RouterImpl) (tables : List Str) (resp : RouteResponse) (cache : Cache)
    → only_expected r tables resp.routes ≡ true
    → (after : Cache) × ((finish {X = X} r (first_pass r tables) cache (Result.ok resp)
          ≡ (Result.ok (endpoints_for r resp.routes tables), record r { cache = after }))
        × ((t : Str) → HashMap.get after t ≡ last_route t (HashMap.get cache t) resp.routes))
finish-exact X r tables resp cache h =
    (filled.1, (ap (λ a. (a, record r { cache = filled.1 })) ok_result, cached))
  where
    filled : Result X Targets × Cache
    filled = fill (first_pass r tables).1 resp.routes (first_pass r tables).0 cache

    succeeds : is_ok filled.0 ≡ true
    succeeds =
        is_ok-fill X (first_pass r tables).1 resp.routes (first_pass r tables).0 cache
        ∙ all_asked-expected r tables resp.routes
        ∙ h

    ok_result : filled.0 ≡ Result.ok (endpoints_for r resp.routes tables)
    ok_result =
        let (result, e) = ok_of_is_ok filled.0 succeeds in
        e ∙ ap Result.ok (fill-exact X r tables resp.routes cache result e)

    cached : (t : Str) → HashMap.get filled.1 t ≡ last_route t (HashMap.get cache t) resp.routes
    cached t =
        cache-fill X (first_pass r tables).1 resp.routes (first_pass r tables).0 cache t succeeds

-- If the server answers and only routes tables that it was asked for, `route` returns, for each table
-- in the order given, the cached endpoint, or else the last one that the response gives the table,
-- or else the default; the default also for an earlier occurrence of a table that occurs again. The
-- cache then has, for each table, the last endpoint that the response gives it, or else what it had.
pub route-exact :
    (X : Type 0) (h : Arrangement (Str × ℕ)) (r : RouterImpl) (tables : List Str) (ctx : RpcContext)
    (answer : RouteRequest → Result X RouteResponse) (meanwhile : Cache → Cache) (database : Str)
    (resp : RouteResponse)
    → ctx.database ≡ some database
    → answer (route_request h r tables database) ≡ Result.ok resp
    → only_expected r tables resp.routes ≡ true
    → (after : Cache) × ((route h r tables ctx answer meanwhile
          ≡ some (Result.ok (endpoints_for r resp.routes tables), record r { cache = after }))
        × ((t : Str)
            → HashMap.get after t ≡ last_route t (HashMap.get (meanwhile r.cache) t) resp.routes))
unfolding route
route-exact X h r tables ctx answer meanwhile database resp d a o =
    let (after, (e, cached)) = finish-exact X r tables resp (meanwhile r.cache) o in
    (after, (rw (d, a) (ap some e), cached))

-- `route` panics exactly if no database is given. If one is, it succeeds exactly if the server
-- answers and only routes tables that it was asked for: given and not cached.
pub route_succeeds_exactly :
    (X : Type 0) (h : Arrangement (Str × ℕ)) (r : RouterImpl) (tables : List Str) (ctx : RpcContext)
    (answer : RouteRequest → Result X RouteResponse) (meanwhile : Cache → Cache)
    → Option.map
        (λ (o : Result X Targets × RouterImpl). is_ok o.0)
        (route h r tables ctx answer meanwhile)
      ≡ Option.map (λ d. answers r tables (answer (route_request h r tables d))) ctx.database
unfolding route
route_succeeds_exactly X h r tables ctx answer meanwhile = by_database ctx.database
  where
    by_answer :
        (a : Result X RouteResponse)
        → is_ok (finish r (first_pass r tables) (meanwhile r.cache) a).0 ≡ answers r tables a
    by_answer (Result.err e) = refl
    by_answer (Result.ok resp) =
        is_ok-fill X (first_pass r tables).1 resp.routes (first_pass r tables).0 (meanwhile r.cache)
        ∙ all_asked-expected r tables resp.routes

    by_database :
        (d : Option Str)
        → Option.map
            (λ (o : Result X Targets × RouterImpl). is_ok o.0)
            (elim d [
              | none ↦ none
              | some database ↦ some (
                  finish r
                    (first_pass r tables)
                    (meanwhile r.cache)
                    (answer (route_request h r tables database)))
            ])
          ≡ Option.map (λ d. answers r tables (answer (route_request h r tables d))) d
    by_database none = refl
    by_database (some d) = ap some (by_answer (answer (route_request h r tables d)))

-- What a call that names a database returns.
pub route-finish :
    (X : Type 0) (h : Arrangement (Str × ℕ)) (r : RouterImpl) (tables : List Str) (ctx : RpcContext)
    (answer : RouteRequest → Result X RouteResponse) (meanwhile : Cache → Cache) (database : Str)
    → ctx.database ≡ some database
    → route h r tables ctx answer meanwhile
      ≡ some (
          finish r
            (first_pass r tables)
            (meanwhile r.cache)
            (answer (route_request h r tables database)))
unfolding route
route-finish X h r tables ctx answer meanwhile database d = rw d refl

get-evict_all :
    (tables : List Str) (cache : Cache) (t : Str)
    → HashMap.get (evict_all tables cache) t
      ≡ (if occurs t tables then none else HashMap.get cache t)
unfolding evict_all
get-evict_all [] cache t = refl
get-evict_all (u ∷ us) cache t =
    ground (arith, get-evict_all us (HashMap.remove u cache) t, get-remove cache u t)

-- After `evict`, no table of the list is cached, and every other table is cached as it was.
pub get-evict :
    (r : RouterImpl) (tables : List Str) (t : Str)
    → HashMap.get (evict r tables).cache t
      ≡ (if occurs t tables then none else HashMap.get r.cache t)
unfolding evict
get-evict r tables t = get-evict_all tables r.cache t

-- ===== src/Router/Tasks/Alone.antt =====
-- A task that the others leave alone: the steps that it takes are what `route` and `evict` compute.
use horaedb_client_rs.Prelude.{
  ℕ, suc, ◌≡◌, refl, ap, ◌∙◌, Bool, true, false, some, List, [], ◌∷◌, ◌++◌, Str, str_eq, set,
  replicate, length, Option-cases, inl, inr,
}
use horaedb_client_rs.Endpoint.{Endpoint, of_pb}
use horaedb_client_rs.Errors.{Result}
use horaedb_client_rs.HashMap
use horaedb_client_rs.HashMap.{Arrangement}
use horaedb_client_rs.Rpc.{Route, RouteRequest, RouteResponse, RpcContext}
use horaedb_client_rs.Router.{
  Cache, Targets, Misses, RouterImpl, find_cached, fill, first_pass, finish, route, route_request,
  evict_all,
}
use horaedb_client_rs.Router.Laws.{route-finish}
use horaedb_client_rs.Router.Tasks.{Shared, Pc, Move}
use horaedb_client_rs.Router.Tasks.Move.{
  call, hit, miss, ask, fail, hear, skip, unknown, store, done, remove, evicted,
}

-- Whether a task is inside one of the loops: its next step is its own, not a caller's or the server's.
abbrev pub works : {X : Type 0} → Pc X → Bool
works Pc.idle = false
works (Pc.finding tables idx left targets misses) = true
works (Pc.waiting tables targets misses) = false
works (Pc.filling tables routes targets misses) = true
works (Pc.returned tables result) = false
works (Pc.evicting tables) = true

-- Steps of one task inside a loop, with none of another task in between. What the task does is determined:
-- it neither starts a call, nor ends one, nor hears from the server.
pub data Runs (X : Type 0) (d : Endpoint) : Shared → Pc X → Shared → Pc X → Type 0 where
  rests : (m : Shared) (p : Pc X) → Runs X d m p m p
  moves :
      {m n o : Shared} {p q r : Pc X}
      → works p ≡ true
      → Move X d m p n q
      → Runs X d n q o r
      → Runs X d m p o r

-- What an answer of the server makes of the shared state and of the task that waits for it.
abbrev pub heard_shared : {X : Type 0} → Shared → Result X RouteResponse → Shared
heard_shared m (Result.err e) = m
heard_shared m (Result.ok resp) = record m { answered = resp.routes ++ m.answered }

abbrev pub heard_state : {X : Type 0} → List Str → Targets → Misses → Result X RouteResponse → Pc X
heard_state tables targets misses (Result.err e) = Pc.returned tables (Result.err e)
heard_state tables targets misses (Result.ok resp) = Pc.filling tables resp.routes targets misses

module _ (X : Type 0) (d : Endpoint) where
  -- The first loop, up to the call of the server.
  pub finding-Runs :
      (m : Shared) (tables left : List Str) (idx : ℕ) (targets : Targets) (misses : Misses)
      → Runs X d m (Pc.finding tables idx left targets misses) m (
          Pc.waiting tables
            (find_cached m.cache idx left targets misses).0
            (find_cached m.cache idx left targets misses).1)
  unfolding find_cached
  finding-Runs m tables [] idx targets misses = moves refl ask (rests m _)
  finding-Runs m tables (t ∷ left) idx targets misses =
      elim (Option-cases (HashMap.get m.cache t)) [
        | inl absent ↦ moves refl (miss absent) (
            rw (absent, find_cached)
              (finding-Runs m tables left (suc idx) targets (HashMap.insert t idx misses)))
        | inr (e, cached) ↦ moves refl (hit e cached) (
            rw (cached, find_cached)
              (finding-Runs m tables left (suc idx) (set targets idx (some e)) misses))
      ]

  -- The second loop, up to the result.
  filling-Runs :
      (m : Shared) (tables : List Str) (routes : List Route) (targets : Targets) (misses : Misses)
      → Runs X d m
          (Pc.filling tables routes targets misses)
          (record m { cache = (fill {X = X} misses routes targets m.cache).1 })
          (Pc.returned tables (fill {X = X} misses routes targets m.cache).0)
  unfolding fill
  filling-Runs m tables [] targets misses = moves refl done (rests m _)
  filling-Runs m tables (reply ∷ routes) targets misses = elim (Option-cases reply.endpoint) [
    | inl skipped ↦
        moves refl (skip skipped) (rw (skipped, fill) (filling-Runs m tables routes targets misses))
    | inr (pb, given) ↦ elim (Option-cases (HashMap.get misses reply.table)) [
      | inl absent ↦ moves refl (unknown pb given absent) (rw (given, absent, fill) (rests m _))
      | inr (idx, known) ↦ moves refl (store pb idx given known) (
          rw (given, known, fill)
            (filling-Runs (record m { cache = HashMap.insert reply.table (of_pb pb) m.cache })
              tables routes (set targets idx (some (of_pb pb))) misses))
    ]
  ]

  evicting-Runs :
      (m : Shared) (tables : List Str)
      → Runs X d m (Pc.evicting tables) (record m { cache = evict_all tables m.cache }) Pc.idle
  unfolding evict_all
  evicting-Runs m [] = moves refl evicted (rests m Pc.idle)
  evicting-Runs m (t ∷ tables) =
      moves refl remove (evicting-Runs (record m { cache = HashMap.remove t m.cache }) tables)

  -- The step in which a waiting task hears the answer.
  pub told :
      (m : Shared) (tables : List Str) (targets : Targets) (misses : Misses)
      (answer : Result X RouteResponse)
      → Move X d m
          (Pc.waiting tables targets misses)
          (heard_shared m answer)
          (heard_state tables targets misses answer)
  told m tables targets misses (Result.err e) = fail e
  told m tables targets misses (Result.ok resp) = hear resp

  -- From the answer of the server to the result.
  heard-Runs :
      (m : Shared) (cached : Cache) (tables : List Str) (targets : Targets) (misses : Misses)
      (answer : Result X RouteResponse)
      → Runs X d
          (heard_shared m answer)
          (heard_state tables targets misses answer)
          (record (heard_shared m answer) {
            cache =
                (finish
                  (record { default_endpoint = d; cache = cached })
                  (targets, misses)
                  m.cache
                  answer).1.cache;
          })
          (Pc.returned tables
            (finish
              (record { default_endpoint = d; cache = cached })
              (targets, misses)
              m.cache
              answer).0)
  heard-Runs m cached tables targets misses (Result.err e) = rests m _
  heard-Runs m cached tables targets misses (Result.ok resp) =
      filling-Runs (record m { answered = resp.routes ++ m.answered }) tables resp.routes targets
        misses

-- The steps of a call: it starts, runs alone to the call of the server, hears this answer, and runs alone
-- to its result; other tasks may change the cache while it waits.
pub record TakesSteps (X : Type 0) (d : Endpoint) (tables : List Str) (before between : Cache)
    (answered : List Route) (answer : Result X RouteResponse) (result : Result X Targets)
    (after : Cache) : Type 0 where
  pub targets : Targets
  pub misses : Misses
  pub calls :
      Move X d
        (record { cache = before; answered = answered })
        Pc.idle
        (record { cache = before; answered = answered })
        (Pc.finding tables 0 tables (replicate (length tables) (some d)) [])
  pub asks :
      Runs X d
        (record { cache = before; answered = answered })
        (Pc.finding tables 0 tables (replicate (length tables) (some d)) [])
        (record { cache = before; answered = answered })
        (Pc.waiting tables targets misses)
  pub hears :
      Move X d
        (record { cache = between; answered = answered })
        (Pc.waiting tables targets misses)
        (heard_shared (record { cache = between; answered = answered }) answer)
        (heard_state tables targets misses answer)
  pub answers :
      Runs X d
        (heard_shared (record { cache = between; answered = answered }) answer)
        (heard_state tables targets misses answer)
        (record (heard_shared (record { cache = between; answered = answered }) answer) {
          cache = after;
        })
        (Pc.returned tables result)

finish-router :
    (X : Type 0) (r : RouterImpl) (pass : Targets × Misses) (cache : Cache)
    (answer : Result X RouteResponse)
    → (finish r pass cache answer).1 ≡ record r { cache = (finish r pass cache answer).1.cache }
finish-router X r (targets, misses) cache (Result.err e) = refl
finish-router X r (targets, misses) cache (Result.ok resp) = refl

-- What `route` computes, a task does in steps: where a database is given, `route` returns a result, and a
-- task that starts a call, runs alone to the call of the server, hears the answer that the server gives to
-- the request of `route`, whatever others have made of the cache by then, and runs alone to its end, has
-- that result and leaves that cache. Running alone, a task takes the steps of its loops only.
pub route-TakesSteps :
    (X : Type 0) (h : Arrangement (Str × ℕ)) (r : RouterImpl) (tables : List Str) (ctx : RpcContext)
    (answer : RouteRequest → Result X RouteResponse) (meanwhile : Cache → Cache) (database : Str)
    (answered : List Route)
    → ctx.database ≡ some database
    → (result : Result X Targets) × (after : Cache) × ((route h r tables ctx answer meanwhile
          ≡ some (result, record r { cache = after }))
        × TakesSteps X r.default_endpoint tables r.cache
            (meanwhile r.cache)
            answered
            (answer (route_request h r tables database))
            result
            after)
route-TakesSteps X h r tables ctx answer meanwhile database answered e =
    let a = answer (route_request h r tables database) in
    let d = r.default_endpoint in
    let pass = first_pass r tables in
    let before : Shared = record { cache = r.cache; answered = answered } in
    let between : Shared = record { cache = meanwhile r.cache; answered = answered } in
    (
      (finish r pass (meanwhile r.cache) a).0,
      (finish r pass (meanwhile r.cache) a).1.cache,
      (
        route-finish X h r tables ctx answer meanwhile database e
            ∙ ap (λ x. some ((finish r pass (meanwhile r.cache) a).0, x))
                (finish-router X r pass (meanwhile r.cache) a),
        record {
          targets = pass.0;
          misses = pass.1;
          calls = call tables;
          asks = finding-Runs X d before tables tables 0 (replicate (length tables) (some d)) [];
          hears = told X d between tables pass.0 pass.1 a;
          answers = heard-Runs X d between r.cache tables pass.0 pass.1 a;
        },
      ),
    )

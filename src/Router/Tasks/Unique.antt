-- ===== src/Router/Tasks/Unique.antt =====
-- What a task does in its loops is determined.
use mathlib.Core.Path.{ap₂}
use horaedb_client_rs.Prelude.{
  ℕ, suc, ap, ◌≡◌, refl, sym, subst, ◌∙◌, true, Option, some, none, false, str_eq, List, [], ◌∷◌,
  Str, set,
}
use mathlib.Core.Bool.{false≢true}
use horaedb_client_rs.Endpoint.{Endpoint, EndpointPb, of_pb}
use horaedb_client_rs.Errors.{Error, Result}
use horaedb_client_rs.HashMap
use horaedb_client_rs.HashMap.{Arrangement}
use horaedb_client_rs.Rpc.{Route, RouteRequest, RouteResponse, RpcContext}
use horaedb_client_rs.Router.{
  Cache, Targets, Misses, RouterImpl, route, route_request, unknown_table,
}
use horaedb_client_rs.Router.Tasks.{Shared, Pc, Move}
use horaedb_client_rs.Router.Tasks.Move.{
  call, hit, miss, ask, fail, hear, skip, unknown, store, done, evict, remove, evicted, leave,
}
use horaedb_client_rs.Router.Tasks.Alone.{
  works, Runs, rests, moves, heard_shared, heard_state, TakesSteps, route-TakesSteps,
}

module _ (X : Type 0) (d : Endpoint) where
  abbrev State : Type 0
  State = Shared × Pc X

  -- The state after the next step in a loop.
  abbrev filled :
      List Str
      → Route
      → List Route
      → Targets
      → Misses
      → Shared
      → Option EndpointPb
      → Option ℕ
      → State
  filled tables reply routes targets misses m none place =
      (m, Pc.filling tables routes targets misses)
  filled tables reply routes targets misses m (some pb) none =
      (m, Pc.returned tables (Result.err (Error.unknown (unknown_table reply.table))))
  filled tables reply routes targets misses m (some pb) (some idx) = (
    record m { cache = HashMap.insert reply.table (of_pb pb) m.cache },
    Pc.filling tables routes (set targets idx (some (of_pb pb))) misses,
  )

  abbrev found : List Str → ℕ → Str → List Str → Targets → Misses → Shared → Option Endpoint → State
  found tables idx t left targets misses m none =
      (m, Pc.finding tables (suc idx) left targets (HashMap.insert t idx misses))
  found tables idx t left targets misses m (some e) =
      (m, Pc.finding tables (suc idx) left (set targets idx (some e)) misses)

  abbrev next : Shared → Pc X → State
  next m (Pc.finding tables idx [] targets misses) = (m, Pc.waiting tables targets misses)
  next m (Pc.finding tables idx (t ∷ left) targets misses) =
      found tables idx t left targets misses m (HashMap.get m.cache t)
  next m (Pc.filling tables [] targets misses) = (m, Pc.returned tables (Result.ok targets))
  next m (Pc.filling tables (reply ∷ routes) targets misses) =
      filled tables reply routes targets misses m reply.endpoint (HashMap.get misses reply.table)
  next m (Pc.evicting []) = (m, Pc.idle)
  next m (Pc.evicting (t ∷ tables)) =
      (record m { cache = HashMap.remove t m.cache }, Pc.evicting tables)
  next m p = (m, p)

  Move-next :
      (m n : Shared) (p q : Pc X)
      → works p ≡ true
      → Move X d m p n q
      → ◌≡◌ {A = State} (next m p) (n, q)
  Move-next m n p q w (hit {tables} {left} {idx} {t} {targets} {misses} e c) =
      ap (found tables idx t left targets misses m) c
  Move-next m n p q w (miss {tables} {left} {idx} {t} {targets} {misses} c) =
      ap (found tables idx t left targets misses m) c
  Move-next m n p q w ask = refl
  Move-next m n p q w (skip {tables} {route} {routes} {targets} {misses} a) =
      ap (λ o. filled tables route routes targets misses m o (HashMap.get misses route.table)) a
  Move-next m n p q w (unknown {tables} {route} {routes} {targets} {misses} pb a c) =
      ap₂ (filled tables route routes targets misses m) a c
  Move-next m n p q w (store {tables} {route} {routes} {targets} {misses} pb idx a c) =
      ap₂ (filled tables route routes targets misses m) a c
  Move-next m n p q w done = refl
  Move-next m n p q w remove = refl
  Move-next m n p q w evicted = refl
  Move-next m n p q w (call tables) = absurd (false≢true w)
  Move-next m n p q w (fail e) = absurd (false≢true w)
  Move-next m n p q w (hear resp) = absurd (false≢true w)
  Move-next m n p q w (evict tables) = absurd (false≢true w)
  Move-next m n p q w (leave result) = absurd (false≢true w)

  -- So are a run to a task that is outside its loops, and what it leaves.
  pub Runs-unique :
      (m n o : Shared) (p q r : Pc X)
      → works q ≡ false
      → works r ≡ false
      → Runs X d m p n q
      → Runs X d m p o r
      → (n ≡ o) × (q ≡ r)
  Runs-unique m n o p q r a b (rests x y) (rests u v) = (refl, refl)
  Runs-unique m n o p q r a b (rests x y) (moves w move rest) = absurd (false≢true (sym a ∙ w))
  Runs-unique m n o p q r a b (moves w move rest) (rests u v) = absurd (false≢true (sym b ∙ w))
  Runs-unique m n o p q r a b (moves {n = n1} {q = q1} w move rest)
        (moves {n = n2} {q = q2} w' move' rest') =
      Runs-unique n1 n o q1 q r a b rest (
        subst (λ (s : State). Runs X d s.0 s.1 o r)
          (sym (Move-next m n2 p q2 w' move') ∙ Move-next m n1 p q1 w move) rest')

-- Where the answer leads a task that waits.
abbrev after_hearing : {X : Type 0} → Result X RouteResponse → Pc X → Pc X
after_hearing answer (Pc.waiting tables targets misses) = heard_state tables targets misses answer
after_hearing answer p = p

returned-inj :
    {X : Type 0} (tables : List Str) (a b : Result X Targets)
    → Pc.returned tables a ≡ Pc.returned tables b
    → a ≡ b
returned-inj tables a b e = cc

TakesSteps-unique :
    (X : Type 0) (d : Endpoint) (tables : List Str) (before between : Cache) (answered : List Route)
    (answer : Result X RouteResponse) (a b : Result X Targets) (c e : Cache)
    → TakesSteps X d tables before between answered answer a c
    → TakesSteps X d tables before between answered answer b e
    → (a ≡ b) × (c ≡ e)
TakesSteps-unique X d tables before between answered answer a b c e s t =
    let start : Shared = record { cache = before; answered = answered } in
    let told_shared = heard_shared (record { cache = between; answered = answered }) answer in
    let waits = (Runs-unique X d start start start _ _ _ refl refl s.asks t.asks).1 in
    let same =
      Runs-unique X d told_shared _ _ (heard_state tables s.targets s.misses answer)
        (Pc.returned tables a) (Pc.returned tables b) refl refl s.answers
        (subst
          (λ p. Runs X d told_shared p (record told_shared { cache = e }) (Pc.returned tables b))
          (sym (ap (after_hearing answer) waits)) t.answers) in
    (returned-inj tables a b same.1, ap (λ (m : Shared). m.cache) same.0)

-- What a task does in steps, `route` computes: where a database is given, and a task that starts a call, runs
-- alone to the call of the server, hears the answer that the server gives to the request of `route`,
-- whatever others have made of the cache by then, and runs alone to its end, has some result and leaves some
-- cache, `route` returns that result and leaves that cache. Running alone, a task takes the steps of its
-- loops only.
pub TakesSteps-route :
    (X : Type 0) (h : Arrangement (Str × ℕ)) (r : RouterImpl) (tables : List Str) (ctx : RpcContext)
    (answer : RouteRequest → Result X RouteResponse) (meanwhile : Cache → Cache) (database : Str)
    (answered : List Route) (result : Result X Targets) (after : Cache)
    → ctx.database ≡ some database
    → TakesSteps X r.default_endpoint tables r.cache
        (meanwhile r.cache)
        answered
        (answer (route_request h r tables database))
        result
        after
    → route h r tables ctx answer meanwhile ≡ some (result, record r { cache = after })
TakesSteps-route X h r tables ctx answer meanwhile database answered result after d s =
    let (a, c, (returns, t)) =
      route-TakesSteps X h r tables ctx answer meanwhile database answered d in
    let (same, left) =
      TakesSteps-unique X r.default_endpoint tables r.cache (meanwhile r.cache) answered
        (answer (route_request h r tables database)) a result c after t s in
    returns ∙ ap₂ (λ x y. some (x, record r { cache = y })) same left

-- ===== src/Rpc/Mock/Laws.antt =====
-- A router over the mock client finds the endpoints of the table of routes.
use mathlib.Core.List.{mem-cons_self, mem-cons, not-mem-nil}
use mathlib.Core.Logic.Or
use mathlib.Core.Path.{ap₂}
use horaedb_client_rs.Errors.{Result}
use horaedb_client_rs.Router.Laws.{route-exact}
use mathlib.Core.Bool.{false≢true}
use mathlib.Core.Option.{get_or}
use horaedb_client_rs.Prelude.{
  bool_set, ℕ, ◌≡◌, refl, ap, sym, ◌∙◌, ◌↔◌, Bool, true, false, ◌||◌, Option, none, some, List, [],
  ◌∷◌, Mem, Str, str_eq, ◌==◌, str_eqb_iff, if◌then◌else◌, Bool-cases, Option-cases, inl, inr,
  arith,
}
use horaedb_client_rs.Endpoint.{Endpoint, of_pb}
use horaedb_client_rs.HashMap
use horaedb_client_rs.HashMap.{HashMap, Arrangement}
use horaedb_client_rs.Router.{RouterImpl, Cache, Targets, route, route_request}
use horaedb_client_rs.Router.Asks.{route_request-asks}
use horaedb_client_rs.Router.Expected.{expects, only_expected, endpoint_for, endpoints_for}
use horaedb_client_rs.Router.Fill.{last_route}
use horaedb_client_rs.Router.Places.{occurs}
use horaedb_client_rs.Rpc.{RpcContext}
use horaedb_client_rs.Rpc.Mock.{MockRpcClient, to_endpoint_pb, mock_routes, mock_route}

of_pb-to_endpoint_pb : (e : Endpoint) → of_pb (to_endpoint_pb e) ≡ e
unfolding of_pb to_endpoint_pb
of_pb-to_endpoint_pb e = refl

-- The last route of a table is the one of the table of routes, if it is asked for and has one.
last_route-mock_routes :
    (route_table : HashMap Str Endpoint) (tables : List Str) (t : Str) (o : Option Endpoint)
    → last_route t o (mock_routes route_table tables) ≡ (
        if occurs t tables
        then (elim (HashMap.get route_table t) [ none ↦ o | some e ↦ some e ])
        else o)
unfolding mock_routes of_pb to_endpoint_pb
last_route-mock_routes route_table [] t o = refl
last_route-mock_routes route_table (u ∷ tables) t o =
    elim (Option-cases (HashMap.get route_table u)) [
      | inl absent ↦
          ground (arith, last_route-mock_routes route_table tables t o, str_eqb_iff u t, absent)
      | inr (e, present) ↦ ground (
        arith,
        last_route-mock_routes route_table tables t (if u == t then some e else o),
        str_eqb_iff u t,
        present,
      )
    ]

Mem-occurs : (t : Str) (us : List Str) → (occurs t us ≡ true) ↔ Mem t us
Mem-occurs t [] = ((λ e. absurd (false≢true e)), λ m. absurd (not-mem-nil m))
Mem-occurs t (u ∷ us) = let rest = Mem-occurs t us in (there (λ e. rest.0 e), back (λ m. rest.1 m))
  where
    there : (occurs t us ≡ true → Mem t us) → ((u == t) || occurs t us) ≡ true → Mem t (u ∷ us)
    there rest e = elim (Bool-cases (u == t)) [
      | inl same ↦ mem-cons.1 (Or.inl (sym ((str_eqb_iff u t).0 same)))
      | inr other ↦ mem-cons.1 (Or.inr (rest (rw other at e)))
    ]

    back : (Mem t us → occurs t us ≡ true) → Mem t (u ∷ us) → ((u == t) || occurs t us) ≡ true
    back rest m = elim (Bool-cases (u == t)) [
      | inl same ↦ rw same refl
      | inr other ↦
          Or.elim (bool_set _ _) (mem-cons.0 m)
            (λ e. absurd (false≢true (sym other ∙ (str_eqb_iff u t).1 (sym e))))
            (λ n. rw other (rest n))
    ]

only_expected-mock_routes :
    (r : RouterImpl) (tables : List Str) (route_table : HashMap Str Endpoint) (asked : List Str)
    → ((t : Str) → Mem t asked → expects r tables t ≡ true)
    → only_expected r tables (mock_routes route_table asked) ≡ true
unfolding mock_routes
only_expected-mock_routes r tables route_table [] h = refl
only_expected-mock_routes r tables route_table (u ∷ us) h =
    let rest =
      only_expected-mock_routes r tables route_table us (λ t m. h t (mem-cons.1 (Or.inr m))) in
    elim (Option-cases (HashMap.get route_table u)) [
      | inl absent ↦ ground (arith, absent, rest)
      | inr (e, present) ↦ ground (arith, present, rest, h u mem-cons_self)
    ]

-- The endpoint of a table: the cached one, or else the one of the table of routes, or else the default.
abbrev pub mock_endpoint : RouterImpl → HashMap Str Endpoint → Str → Bool → Option Endpoint
mock_endpoint r route_table t again = elim (HashMap.get r.cache t) [
  | some ep ↦ some ep
  | none ↦
      if again
      then some r.default_endpoint
      else some (get_or (HashMap.get route_table t) r.default_endpoint)
]

abbrev pub mock_endpoints : RouterImpl → HashMap Str Endpoint → List Str → Targets
mock_endpoints r route_table [] = []
mock_endpoints r route_table (t ∷ ts) =
    mock_endpoint r route_table t (occurs t ts) ∷ mock_endpoints r route_table ts

endpoint_for-mock :
    (r : RouterImpl) (tables : List Str) (route_table : HashMap Str Endpoint) (asked : List Str)
    (t : Str) (again : Bool)
    → occurs t asked ≡ expects r tables t
    → occurs t tables ≡ true
    → endpoint_for r (mock_routes route_table asked) t again ≡ mock_endpoint r route_table t again
endpoint_for-mock r tables route_table asked t again asks here =
    ground (arith, last_route-mock_routes route_table asked t (some r.default_endpoint), asks, here)

endpoints_for-mock :
    (r : RouterImpl) (tables : List Str) (route_table : HashMap Str Endpoint) (asked ts : List Str)
    → ((t : Str) → occurs t asked ≡ expects r tables t)
    → ((t : Str) → Mem t ts → occurs t tables ≡ true)
    → endpoints_for r (mock_routes route_table asked) ts ≡ mock_endpoints r route_table ts
endpoints_for-mock r tables route_table asked [] asks here = refl
endpoints_for-mock r tables route_table asked (t ∷ ts) asks here =
    ap₂ (λ a l. a ∷ l)
      (endpoint_for-mock r tables route_table asked t (occurs t ts) (asks t) (here t mem-cons_self))
      (endpoints_for-mock r tables route_table asked ts asks
        (λ u m. here u (mem-cons.1 (Or.inr m))))

same_truth : (a b : Bool) → (a ≡ true) ↔ (b ≡ true) → a ≡ b
same_truth true b h = sym (h.0 refl)
same_truth false true h = h.1 refl
same_truth false false h = refl

-- What the cache has of a table after a call: what it had, or else the route of a table that was given.
abbrev pub mock_cached : RouterImpl → HashMap Str Endpoint → List Str → Str → Option Endpoint
mock_cached r route_table tables t = elim (HashMap.get r.cache t) [
  | some ep ↦ some ep
  | none ↦ if occurs t tables then HashMap.get route_table t else none
]

cached-mock :
    (r : RouterImpl) (tables : List Str) (route_table : HashMap Str Endpoint) (asked : List Str)
    (t : Str)
    → occurs t asked ≡ expects r tables t
    → last_route t (HashMap.get r.cache t) (mock_routes route_table asked)
      ≡ mock_cached r route_table tables t
cached-mock r tables route_table asked t asks =
    ground (arith, last_route-mock_routes route_table asked t (HashMap.get r.cache t), asks)

-- A router whose server is the mock client gives each table its cached endpoint, or else the one of
-- the mock's table of routes, or else the default; the default also for an earlier occurrence of a
-- table that occurs again. It never fails, and if no other task changes the cache meanwhile, the
-- given tables that were not cached are cached afterwards exactly if the mock has routes of them.
pub route-mock_route :
    (X : Type 0) (h : Arrangement (Str × ℕ)) (r : RouterImpl) (tables : List Str) (ctx : RpcContext)
    (c : MockRpcClient) (meanwhile : Cache → Cache) (database : Str)
    → ctx.database ≡ some database
    → (after : Cache) × ((route {X = X} h r tables ctx
            (λ req. Result.ok (mock_route c req))
            meanwhile
          ≡ some (Result.ok (mock_endpoints r c.route_table tables), record r { cache = after }))
        × (meanwhile r.cache ≡ r.cache
            → (t : Str) → HashMap.get after t ≡ mock_cached r c.route_table tables t))
unfolding mock_route
route-mock_route X h r tables ctx c meanwhile database d =
    let asked : List Str = (route_request h r tables database).tables in
    let asks = route_request-asks h r tables database in
    let asked_exactly : (t : Str) → occurs t asked ≡ expects r tables t = λ t.
      same_truth (occurs t asked) (expects r tables t) (
        (λ e. (asks t).0 ((Mem-occurs t asked).0 e)),
        λ e. (Mem-occurs t asked).1 ((asks t).1 e),
      ) in
    let (after, (routed, cached)) =
      route-exact X h r tables ctx (λ req. Result.ok (mock_route c req)) meanwhile database
        (mock_route c (route_request h r tables database)) d refl
        (only_expected-mock_routes r tables c.route_table asked (λ t m. (asks t).0 m)) in
    (
      after,
      (
        routed
            ∙ ap (λ eps. some (Result.ok eps, record r { cache = after }))
                (endpoints_for-mock r tables c.route_table asked tables asked_exactly
                  (λ t m. (Mem-occurs t tables).1 m)),
        λ same t.
            cached t
            ∙ ap (λ cache. last_route t (HashMap.get cache t) (mock_routes c.route_table asked))
                same
            ∙ cached-mock r tables c.route_table asked t (asked_exactly t),
      ),
    )

-- ===== src/Rpc/Mock/Flow/Asserts.antt =====
-- The assertions of `test_basic_flow` of src/router.rs, for any tables and endpoints.
use horaedb_client_rs.Prelude.{
  ◌≢◌, ℕ, ◌≡◌, refl, ap, sym, ◌∙◌, false, Option, none, some, List, [], ◌∷◌, Str, str_eq, ◌==◌,
  str_eqb_iff, if◌then◌else◌, arith,
}
use mathlib.Core.Path.{ap₂}
use horaedb_client_rs.Endpoint.{Endpoint}
use horaedb_client_rs.HashMap
use horaedb_client_rs.HashMap.{HashMap, Arrangement}
use horaedb_client_rs.HashMap.Laws.{get-insert}
use horaedb_client_rs.Router
use horaedb_client_rs.Router.{RouterImpl, Targets, Cache, evict}
use horaedb_client_rs.Router.Laws.{get-evict}
use horaedb_client_rs.Router.Places.{occurs}
use horaedb_client_rs.Rpc.Mock.Flow.{db_context, call, basic_flow}
use horaedb_client_rs.Rpc.Mock.Laws.{route-mock_route, mock_endpoint, mock_endpoints, mock_cached}

call-mock :
    (h : Arrangement (Str × ℕ)) (route_table : HashMap Str Endpoint) (r : RouterImpl)
    (tables : List Str)
    → (after : Cache) × ((call h route_table r tables
          ≡ some (mock_endpoints r route_table tables, record r { cache = after }))
        × ((t : Str) → HashMap.get after t ≡ mock_cached r route_table tables t))
unfolding call
call-mock h route_table r tables =
    let (after, (routed, cached)) =
      route-mock_route Unit h r tables db_context (record { route_table = route_table })
        (λ cache. cache) _ refl in
    (after, (rw routed refl, cached refl))

differs : (t u : Str) → t ≢ u → (t == u) ≡ false
differs t u other = ground (arith, str_eqb_iff t u, other)

-- A call changes what is cached of the given tables only.
others_kept :
    (r : RouterImpl) (route_table : HashMap Str Endpoint) (t u q : Str)
    → t ≢ q
    → u ≢ q
    → mock_cached r route_table (t ∷ u ∷ []) q ≡ HashMap.get r.cache q
others_kept r route_table t u q n m = ground (arith, differs t q n, differs u q m)

two_targets :
    (r : RouterImpl) (route_table : HashMap Str Endpoint) (t u : Str) (after : RouterImpl)
    (a b : Option Endpoint)
    → mock_endpoint r route_table t (occurs t (u ∷ [])) ≡ a
    → mock_endpoint r route_table u false ≡ b
    → ◌≡◌ {A = Option (Targets × RouterImpl)}
        (some (mock_endpoints r route_table (t ∷ u ∷ []), after))
        (some (a ∷ b ∷ [], after))
two_targets r route_table t u after a b p q =
    ap₂ {C = Option (Targets × RouterImpl)} (λ x y. some (x ∷ y ∷ [], after)) p q

-- Two tables that are not cached get their routes, which are cached.
call_fresh :
    (h : Arrangement (Str × ℕ)) (route_table : HashMap Str Endpoint) (r : RouterImpl) (t u : Str)
    (a b : Endpoint)
    → t ≢ u
    → HashMap.get r.cache t ≡ none
    → HashMap.get r.cache u ≡ none
    → HashMap.get route_table t ≡ some a
    → HashMap.get route_table u ≡ some b
    → (after : Cache) × ((call h route_table r (t ∷ u ∷ [])
          ≡ some (some a ∷ some b ∷ [], record r { cache = after }))
        × (HashMap.get after t ≡ some a)
        × (HashMap.get after u ≡ some b)
        × ((q : Str) → t ≢ q → u ≢ q → HashMap.get after q ≡ HashMap.get r.cache q))
call_fresh h route_table r t u a b n ft fu kt ku =
    let (after, (called, cached)) = call-mock h route_table r (t ∷ u ∷ []) in
    (
      after,
      (
        called
            ∙ two_targets r route_table t u (record r { cache = after }) (some a) (some b)
                (ground (arith, ft, kt, differs u t (λ e. n (sym e)))) (ground (arith, fu, ku)),
        cached t ∙ ground (arith, ft, kt, str_eqb_iff t t),
        cached u ∙ ground (arith, fu, ku, str_eqb_iff u u),
        λ q m o. cached q ∙ others_kept r route_table t u q m o,
      ),
    )

-- Two cached tables get what is cached.
call_cached :
    (h : Arrangement (Str × ℕ)) (route_table : HashMap Str Endpoint) (r : RouterImpl) (t u : Str)
    (a b : Endpoint)
    → HashMap.get r.cache t ≡ some a
    → HashMap.get r.cache u ≡ some b
    → (after : Cache) × ((call h route_table r (t ∷ u ∷ [])
          ≡ some (some a ∷ some b ∷ [], record r { cache = after }))
        × ((q : Str) → t ≢ q → u ≢ q → HashMap.get after q ≡ HashMap.get r.cache q))
call_cached h route_table r t u a b kt ku =
    let (after, (called, cached)) = call-mock h route_table r (t ∷ u ∷ []) in
    (
      after,
      (
        called
            ∙ two_targets r route_table t u (record r { cache = after }) (some a) (some b)
                (ground (arith, kt)) (ground (arith, ku)),
        λ q m o. cached q ∙ others_kept r route_table t u q m o,
      ),
    )

-- Two tables that are neither cached nor routed get the default.
call_unknown :
    (h : Arrangement (Str × ℕ)) (route_table : HashMap Str Endpoint) (r : RouterImpl) (t u : Str)
    → HashMap.get r.cache t ≡ none
    → HashMap.get r.cache u ≡ none
    → HashMap.get route_table t ≡ none
    → HashMap.get route_table u ≡ none
    → (after : Cache) × (call h route_table r (t ∷ u ∷ [])
        ≡ some (some r.default_endpoint ∷ some r.default_endpoint ∷ [], record r { cache = after }))
call_unknown h route_table r t u ft fu nt nu =
    let (after, (called, cached)) = call-mock h route_table r (t ∷ u ∷ []) in
    (
      after,
      called
          ∙ two_targets r route_table t u (record r { cache = after }) (some r.default_endpoint)
              (some r.default_endpoint) (ground (arith, ft, nt)) (ground (arith, fu, nu)),
    )

get-two :
    (m : HashMap Str Endpoint) (t u q : Str) (a b : Endpoint)
    → HashMap.get (HashMap.insert u b (HashMap.insert t a m)) q
      ≡ (if u == q then some b else if t == q then some a else HashMap.get m q)
get-two m t u q a b =
    get-insert (HashMap.insert t a m) u q b
    ∙ ap (λ (o : Option Endpoint). if u == q then some b else o) (get-insert m t q a)

get-first :
    (m : HashMap Str Endpoint) (t u : Str) (a b : Endpoint)
    → t ≢ u
    → HashMap.get (HashMap.insert u b (HashMap.insert t a m)) t ≡ some a
get-first m t u a b n =
    get-two m t u t a b ∙ ground (arith, differs u t (λ e. n (sym e)), str_eqb_iff t t)

get-second :
    (m : HashMap Str Endpoint) (t u : Str) (a b : Endpoint)
    → HashMap.get (HashMap.insert u b (HashMap.insert t a m)) u ≡ some b
get-second m t u a b = get-two m t u u a b ∙ ground (arith, str_eqb_iff u u)

-- The last assertions hold of every pair of tables that are neither the first nor the second.
get-other :
    (t u q : Str) (a b c d : Endpoint)
    → t ≢ q
    → u ≢ q
    → HashMap.get
        (HashMap.insert u d (HashMap.insert t c (HashMap.insert u b (HashMap.insert t a []))))
        q
      ≡ none
unfolding HashMap.get
get-other t u q a b c d n m =
    get-two (HashMap.insert u b (HashMap.insert t a [])) t u q c d
    ∙ ground (arith, get-two [] t u q a b, differs t q n, differs u q m)

-- The unit test passes for any tables and endpoints: the second call still gives the first
-- endpoints, the third, after `evict`, the new ones, and the last the default, provided that the
-- first two tables differ, and that neither is one of the last two.
pub basic_flow-asserts :
    (h : Arrangement (Str × ℕ)) (t1 t2 t3 t4 : Str) (e1 e2 e3 e4 d : Endpoint)
    → t1 ≢ t2
    → t1 ≢ t3
    → t2 ≢ t3
    → t1 ≢ t4
    → t2 ≢ t4
    → basic_flow h t1 t2 t3 t4 e1 e2 e3 e4 d
      ≡ some (
          (some e1 ∷ some e2 ∷ [])
          ∷ (some e1 ∷ some e2 ∷ [])
          ∷ (some e3 ∷ some e4 ∷ [])
          ∷ (some d ∷ some d ∷ [])
          ∷ [])
unfolding basic_flow HashMap.get Router.new evict
basic_flow-asserts h t1 t2 t3 t4 e1 e2 e3 e4 d n12 n13 n23 n14 n24 =
    let (c1, (k1, g1, g2, o1)) =
      call_fresh h before (Router.new d) t1 t2 e1 e2 n12 refl refl (get-first [] t1 t2 e1 e2 n12)
        (get-second [] t1 t2 e1 e2) in
    let r1 : RouterImpl = record { default_endpoint = d; cache = c1 } in
    let (c2, (k2, o2)) = call_cached h after r1 t1 t2 e1 e2 g1 g2 in
    let r2 : RouterImpl = record r1 { cache = c2 } in
    let (c3, (k3, h1, h2, o3)) =
      call_fresh h after (evict r2 (t1 ∷ t2 ∷ [])) t1 t2 e3 e4 n12
        (get-evict r2 (t1 ∷ t2 ∷ []) t1 ∙ ground (arith, str_eqb_iff t1 t1))
        (get-evict r2 (t1 ∷ t2 ∷ []) t2 ∙ ground (arith, str_eqb_iff t2 t2))
        (get-first before t1 t2 e3 e4 n12) (get-second before t1 t2 e3 e4) in
    let r3 : RouterImpl = record (evict r2 (t1 ∷ t2 ∷ [])) { cache = c3 } in
    let kept : (q : Str) → t1 ≢ q → t2 ≢ q → HashMap.get c3 q ≡ none = λ q m o.
      o3 q m o
      ∙ (get-evict r2 (t1 ∷ t2 ∷ []) q ∙ ground (arith, differs t1 q m, differs t2 q o))
      ∙ o2 q m o
      ∙ o1 q m o in
    let (c4, k4) =
      call_unknown h after r3 t3 t4 (kept t3 n13 n23) (kept t4 n14 n24)
        (get-other t1 t2 t3 e1 e2 e3 e4 n13 n23) (get-other t1 t2 t4 e1 e2 e3 e4 n14 n24) in
    rw (k1, k2, k3, k4) refl
  where
    before : HashMap Str Endpoint
    before = HashMap.insert t2 e2 (HashMap.insert t1 e1 [])

    after : HashMap Str Endpoint
    after = HashMap.insert t2 e4 (HashMap.insert t1 e3 before)

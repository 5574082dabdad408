-- ===== src/DbClient/RouteBased/Partition/Routed.antt =====
-- A routed request is split whole: the router gives each table an endpoint.
use mathlib.Core.List.{mem-cons_self, mem-cons, not-mem-nil}
use mathlib.Core.List.Perm
use mathlib.Core.Logic.Or
use horaedb_client_rs.Prelude.{
  bool_set, ◌≡◌, refl, ap, sym, ◌∙◌, Bool, true, Option, none, some, List, [], ◌∷◌, map, Mem, Str,
  str_eq, ◌==◌, str_eqb_iff, if◌then◌else◌, is_some, Option-cases, inl, inr, Bool-cases,
}
use horaedb_client_rs.Endpoint.{Endpoint, of_pb, endpoint_eq}
use horaedb_client_rs.HashMap
use horaedb_client_rs.Router.{RouterImpl}
use horaedb_client_rs.Router.Fill.{last_route}
use horaedb_client_rs.Router.Places.{occurs}
use horaedb_client_rs.Router.Expected.{endpoint_for, endpoints_for}
use horaedb_client_rs.Rpc.{Route}
use horaedb_client_rs.Write.Point.{Point}
use horaedb_client_rs.DbClient.RouteBased.Partition.{Groups, Parts, partition}
use horaedb_client_rs.DbClient.RouteBased.Partition.Laws.{
  group_in, assigned, unassigned, all_present, partition-conserves,
}
use horaedb_client_rs.DbClient.RouteBased.Write.{WriteOrders, keys}

last_route-some :
    (t : Str) (ep : Endpoint) (routes : List Route)
    → (e : Endpoint) × (last_route t (some ep) routes ≡ some e)
last_route-some t ep [] = (ep, refl)
last_route-some t ep (r ∷ rs) = elim (Option-cases r.endpoint) [
  | inl skip ↦ rw (skip, last_route) (last_route-some t ep rs)
  | inr (pb, given) ↦ elim (Bool-cases (r.table == t)) [
    | inl same ↦ rw (given, last_route) (rw same (last_route-some t (of_pb pb) rs))
    | inr other ↦ rw (given, last_route) (rw other (last_route-some t ep rs))
  ]
]

pub endpoint_for-some :
    (r : RouterImpl) (routes : List Route) (t : Str) (again : Bool)
    → (e : Endpoint) × (endpoint_for r routes t again ≡ some e)
endpoint_for-some r routes t again = elim (Option-cases (HashMap.get r.cache t)) [
  | inr (ep, cached) ↦ (ep, rw (cached, endpoint_for) refl)
  | inl absent ↦ elim (Bool-cases again) [
    | inl later ↦ (r.default_endpoint, rw (absent, endpoint_for) (rw later refl))
    | inr first ↦
        let (e, is) = last_route-some t r.default_endpoint routes in
        (e, rw (absent, endpoint_for) (rw first is))
  ]
]

none_unassigned :
    (r : RouterImpl) (routes : List Route) (tables : List Str)
    → unassigned (endpoints_for r routes tables) tables ≡ []
none_unassigned r routes [] = refl
none_unassigned r routes (t ∷ ts) =
    let (e, is) = endpoint_for-some r routes t (occurs t ts) in rw is (none_unassigned r routes ts)

get-Mem :
    (groups : Groups) (t : Str) (points : List Point)
    → Mem (t, points) groups
    → is_some (HashMap.get groups t) ≡ true
unfolding HashMap.get
get-Mem [] t points m = absurd (not-mem-nil m)
get-Mem ((u, ps) ∷ groups) t points m =
    Or.elim (bool_set _ _) (mem-cons.0 m) (λ e. here (ap (λ (g : Str × List Point). g.0) e))
      (λ later. there (get-Mem groups t points later))
  where
    here : t ≡ u → is_some (if u == t then some ps else HashMap.get groups t) ≡ true
    here e = rw ((str_eqb_iff u t).1 (sym e)) refl

    there :
        is_some (HashMap.get groups t) ≡ true
        → is_some (if u == t then some ps else HashMap.get groups t) ≡ true
    there h = elim (Bool-cases (u == t)) [ inl same ↦ rw same refl | inr other ↦ rw other h ]

all_present-entries :
    (groups entries : Groups) (eps : List (Option Endpoint))
    → ((e : Str × List Point) → Mem e entries → Mem e groups)
    → all_present groups eps (map (λ (g : Str × List Point). g.0) entries) ≡ true
all_present-entries groups [] [] h = refl
all_present-entries groups [] (ep ∷ eps) h = refl
all_present-entries groups (e ∷ es) [] h = refl
all_present-entries groups (e ∷ es) (none ∷ eps) h =
    all_present-entries groups es eps (λ x m. h x (mem-cons.1 (Or.inr m)))
all_present-entries groups ((t, points) ∷ es) (some ep ∷ eps) h =
    rw (get-Mem groups t points (h (t, points) mem-cons_self))
      (all_present-entries groups es eps (λ x m. h x (mem-cons.1 (Or.inr m))))

-- With the endpoints that the router gives, a request is split without a panic and no table is left
-- over: the part of an endpoint has a table exactly if the router gives the table that endpoint, with
-- its whole group of points.
pub partition-routed :
    (h : WriteOrders) (groups : Groups) (r : RouterImpl) (routes : List Route)
    → (parts : Parts) × ((partition groups
            (endpoints_for r routes (keys h groups))
            (keys h groups)
            []
            []
          ≡ some (parts, []))
        × ((e : Endpoint) (t : Str)
            → group_in parts e t ≡ (
                if assigned (endpoints_for r routes (keys h groups)) (keys h groups) e t
                then HashMap.get groups t
                else none)))
partition-routed h groups r routes =
    let (parts, (is, law)) =
      partition-conserves groups (endpoints_for r routes (keys h groups)) (keys h groups) (
        all_present-entries groups (h.requests.tables.arrange groups)
          (endpoints_for r routes (keys h groups))
          (λ e m. (Perm.mem_iff (h.requests.tables.arrange-perm groups)).0 m)) in
    (parts, (is ∙ ap (λ l. some (parts, l)) (none_unassigned r routes (keys h groups)), law))

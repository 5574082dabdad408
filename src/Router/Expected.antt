-- ===== src/Router/Expected.antt =====
-- What `route` returns, table by table: its two loops together.
use horaedb_client_rs.Prelude.{
  get_elem?-replicate, get_elem?-lt, ℕ, zero, suc, ◌<◌, ◌≡◌, refl, ap, sym, ◌∙◌, Bool, true, false,
  not, ◌&&◌, Option, none, some, List, [], ◌∷◌, arith, Str, str_eq, get_elem?, is_some,
  if◌then◌else◌, Option-cases, inl, inr, some_inj, length, replicate, length-replicate,
  ext_get_elem?, get_elem?_total,
}
use horaedb_client_rs.HashMap
use horaedb_client_rs.HashMap.{Arrangement}
use horaedb_client_rs.Endpoint.{Endpoint}
use horaedb_client_rs.Errors.{Result}
use horaedb_client_rs.Rpc.{Route}
use horaedb_client_rs.Router.{Cache, Targets, RouterImpl, first_pass, fill, route}
use horaedb_client_rs.Router.Lookup.{or_slot, targets-find_cached, length-find_cached}
use horaedb_client_rs.Router.Fill.{owns, last_route, all_asked, targets-fill, length-fill}
use horaedb_client_rs.Router.Places.{
  occurs, recurs, owns-last_place, is_some-last_place, get-first_pass, misses_sound,
}

-- What a response may route: tables that were given and are not cached.
abbrev pub expects : RouterImpl → List Str → Str → Bool
expects r tables t = not (is_some (HashMap.get r.cache t)) && occurs t tables

abbrev pub only_expected : RouterImpl → List Str → List Route → Bool
only_expected r tables [] = true
only_expected r tables (route ∷ routes) = elim route.endpoint [
  | none ↦ only_expected r tables routes
  | some pb ↦ expects r tables route.table && only_expected r tables routes
]

-- The endpoint of a table: the cached one, else the last one that the response gives it, else the default.
abbrev pub endpoint_for : RouterImpl → List Route → Str → Bool → Option Endpoint
endpoint_for r routes t again = elim (HashMap.get r.cache t) [
  | some ep ↦ some ep
  | none ↦ if again then some r.default_endpoint else last_route t (some r.default_endpoint) routes
]

-- The endpoints of a list of tables, where an earlier occurrence of a table that is not cached gets the default.
abbrev pub endpoints_for : RouterImpl → List Route → List Str → Targets
endpoints_for r routes [] = []
endpoints_for r routes (t ∷ ts) = endpoint_for r routes t (occurs t ts) ∷ endpoints_for r routes ts

length-endpoints_for :
    (r : RouterImpl) (routes : List Route) (ts : List Str)
    → length (endpoints_for r routes ts) ≡ length ts
length-endpoints_for r routes [] = refl
length-endpoints_for r routes (t ∷ ts) = ap suc (length-endpoints_for r routes ts)

get_elem?-endpoints_for :
    (r : RouterImpl) (routes : List Route) (ts : List Str) (j : ℕ) (t : Str)
    → get_elem? ts j ≡ some t
    → get_elem? (endpoints_for r routes ts) j ≡ some (endpoint_for r routes t (recurs t ts j))
get_elem?-endpoints_for r routes [] j t e = cc
get_elem?-endpoints_for r routes (u ∷ ts) zero t e =
    ap (λ v. some (endpoint_for r routes v (occurs v ts))) (some_inj e)
get_elem?-endpoints_for r routes (u ∷ ts) (suc j) t e = get_elem?-endpoints_for r routes ts j t e

pub is_some-first_pass :
    (r : RouterImpl) (tables : List Str) (t : Str)
    → is_some (HashMap.get (first_pass r tables).1 t) ≡ expects r tables t
is_some-first_pass r tables t =
    ap is_some (get-first_pass r tables t) ∙ ground (arith, is_some-last_place t 0 none tables)

pub all_asked-expected :
    (r : RouterImpl) (tables : List Str) (routes : List Route)
    → all_asked (first_pass r tables).1 routes ≡ only_expected r tables routes
all_asked-expected r tables [] = refl
all_asked-expected r tables (x ∷ routes) =
    ground (arith, is_some-first_pass r tables x.table, all_asked-expected r tables routes)

-- Each target after the first pass: the cached endpoint, or else the default.
abbrev cached_or_default : RouterImpl → Option Endpoint → Option Endpoint
cached_or_default r (some ep) = some ep
cached_or_default r none = some r.default_endpoint

get_elem?-first_pass :
    (r : RouterImpl) (tables : List Str) (j : ℕ) (t : Str)
    → get_elem? tables j ≡ some t
    → get_elem? (first_pass r tables).0 j ≡ some (cached_or_default r (HashMap.get r.cache t))
get_elem?-first_pass r tables j t e =
    targets-find_cached r.cache 0 tables defaults [] j j t e (omega arith)
      (omega (arith, within, length-replicate (length tables) (some r.default_endpoint)))
    ∙ ap (or_slot (HashMap.get r.cache t))
        (get_elem?-replicate (length tables) j (some r.default_endpoint) within)
    ∙ by_cases (HashMap.get r.cache t)
  where
    defaults : Targets
    defaults = replicate (length tables) (some r.default_endpoint)

    within : j < length tables
    within = get_elem?-lt tables j t e

    by_cases :
        (o : Option Endpoint)
        → or_slot o (some (some r.default_endpoint)) ≡ some (cached_or_default r o)
    by_cases (some ep) = refl
    by_cases none = refl

-- What is in a slot after both loops.
slot-agrees :
    (r : RouterImpl) (tables : List Str) (routes : List Route) (j : ℕ) (t : Str)
    → get_elem? tables j ≡ some t
    → (if owns (HashMap.get (first_pass r tables).1 t) j
        then last_route t (cached_or_default r (HashMap.get r.cache t)) routes
        else cached_or_default r (HashMap.get r.cache t))
      ≡ endpoint_for r routes t (recurs t tables j)
slot-agrees r tables routes j t e = elim (Option-cases (HashMap.get r.cache t)) [
  | inl absent ↦
      rw (get-first_pass r tables t, absent)
        (rw (owns-last_place t 0 none tables j j e (omega arith))
          (by_cases (recurs t tables j) ∙ sym (uncached absent)))
  | inr (ep, cached) ↦ rw (get-first_pass r tables t, cached) (sym (found ep cached))
]
  where
    uncached :
        HashMap.get r.cache t ≡ none
        → endpoint_for r routes t (recurs t tables j) ≡ (
            if recurs t tables j
            then some r.default_endpoint
            else last_route t (some r.default_endpoint) routes)
    uncached q = rw (q, endpoint_for) refl

    found :
        (ep : Endpoint)
        → HashMap.get r.cache t ≡ some ep
        → endpoint_for r routes t (recurs t tables j) ≡ some ep
    found ep q = rw (q, endpoint_for) refl

    by_cases :
        (again : Bool)
        → (if not again
            then last_route t (some r.default_endpoint) routes
            else some r.default_endpoint)
          ≡ (if again
              then some r.default_endpoint
              else last_route t (some r.default_endpoint) routes)
    by_cases true = refl
    by_cases false = refl

pub fill-exact :
    (X : Type 0) (r : RouterImpl) (tables : List Str) (routes : List Route) (cache : Cache)
    (result : Targets)
    → (fill {X = X} (first_pass r tables).1 routes (first_pass r tables).0 cache).0
      ≡ Result.ok result
    → result ≡ endpoints_for r routes tables
fill-exact X r tables routes cache result h =
    ext_get_elem? result (endpoints_for r routes tables)
      (same_length ∙ sym (length-endpoints_for r routes tables)) at_place
  where
    same_length : length result ≡ length tables
    same_length =
        length-fill X (first_pass r tables).1 routes (first_pass r tables).0 result cache h
        ∙ length-find_cached r.cache 0 tables (replicate (length tables) (some r.default_endpoint))
            []
        ∙ length-replicate (length tables) (some r.default_endpoint)

    at_place :
        (j : ℕ)
        → j < length (endpoints_for r routes tables)
        → get_elem? result j ≡ get_elem? (endpoints_for r routes tables) j
    at_place j lt =
        let (t, e) =
          get_elem?_total tables j (omega (arith, length-endpoints_for r routes tables)) in
        targets-fill X (first_pass r tables).1 tables (misses_sound r tables) routes
          (first_pass r tables).0 result cache j t (cached_or_default r (HashMap.get r.cache t)) h e
          (get_elem?-first_pass r tables j t e)
        ∙ ap some (slot-agrees r tables routes j t e)
        ∙ sym (get_elem?-endpoints_for r routes tables j t e)

-- ===== src/Router/Tasks.antt =====
-- `RouterImpl::route` and `RouterImpl::evict` of src/router.rs as tasks that share the cache: each access
-- of the `DashMap` is one step, and the steps of tasks interleave in any order. The server answers as it
-- likes.
pub mod Heard
pub mod Kept
pub mod Invariant
pub mod Alone
pub mod Unique
pub mod Rest
mod Tests
use horaedb_client_rs.Prelude.{
  ℕ, suc, ◌≡◌, Bool, true, false, ◌&&◌, ◌||◌, Option, none, some, List, [], ◌∷◌, ◌++◌, Str, str_eq,
  ◌==◌, eqb, set, replicate, length, if◌then◌else◌,
}
use horaedb_client_rs.Endpoint.{Endpoint, EndpointPb, of_pb}
use horaedb_client_rs.Errors.{Error, Result}
use horaedb_client_rs.HashMap
use horaedb_client_rs.Rpc.{Route, RouteResponse}
use horaedb_client_rs.Router.{Cache, Targets, Misses, unknown_table}

-- The cache, and all routes that the server has answered so far.
pub record Shared : Type 0 where
  pub cache : Cache
  pub answered : List Route

-- Where a task stands, with the variables of the call that are live there: in the first loop of `route`
-- before the table at `idx`, at the call of the server, in the second loop, with its result, or in the
-- loop of `evict`.
pub data Pc (X : Type 0) : Type 0 where
  idle : Pc X
  finding :
      (tables : List Str) (idx : ℕ) (left : List Str) (targets : Targets) (misses : Misses) → Pc X
  waiting : (tables : List Str) (targets : Targets) (misses : Misses) → Pc X
  filling : (tables : List Str) (routes : List Route) (targets : Targets) (misses : Misses) → Pc X
  returned : (tables : List Str) (result : Result X Targets) → Pc X
  evicting : (tables : List Str) → Pc X

-- One step of one task of a router with this default endpoint.
pub data Move (X : Type 0) (d : Endpoint) (m : Shared) : Pc X → Shared → Pc X → Type 0 where
  call :
      (tables : List Str)
      → Move X d m idle m (finding tables 0 tables (replicate (length tables) (some d)) [])
  hit :
      {tables left : List Str} {idx : ℕ} {t : Str} {targets : Targets} {misses : Misses}
      (e : Endpoint)
      → HashMap.get m.cache t ≡ some e
      → Move X d m
          (finding tables idx (t ∷ left) targets misses)
          m
          (finding tables (suc idx) left (set targets idx (some e)) misses)
  miss :
      {tables left : List Str} {idx : ℕ} {t : Str} {targets : Targets} {misses : Misses}
      → HashMap.get m.cache t ≡ none
      → Move X d m
          (finding tables idx (t ∷ left) targets misses)
          m
          (finding tables (suc idx) left targets (HashMap.insert t idx misses))
  ask :
      {tables : List Str} {idx : ℕ} {targets : Targets} {misses : Misses}
      → Move X d m (finding tables idx [] targets misses) m (waiting tables targets misses)
  fail :
      {tables : List Str} {targets : Targets} {misses : Misses} (e : Error X)
      → Move X d m (waiting tables targets misses) m (returned tables (Result.err e))
  hear :
      {tables : List Str} {targets : Targets} {misses : Misses} (resp : RouteResponse)
      → Move X d m
          (waiting tables targets misses)
          (record m { answered = resp.routes ++ m.answered })
          (filling tables resp.routes targets misses)
  skip :
      {tables : List Str} {route : Route} {routes : List Route} {targets : Targets}
      {misses : Misses}
      → route.endpoint ≡ none
      → Move X d m
          (filling tables (route ∷ routes) targets misses)
          m
          (filling tables routes targets misses)
  unknown :
      {tables : List Str} {route : Route} {routes : List Route} {targets : Targets}
      {misses : Misses} (pb : EndpointPb)
      → route.endpoint ≡ some pb
      → HashMap.get misses route.table ≡ none
      → Move X d m
          (filling tables (route ∷ routes) targets misses)
          m
          (returned tables (Result.err (Error.unknown (unknown_table route.table))))
  store :
      {tables : List Str} {route : Route} {routes : List Route} {targets : Targets}
      {misses : Misses} (pb : EndpointPb) (idx : ℕ)
      → route.endpoint ≡ some pb
      → HashMap.get misses route.table ≡ some idx
      → Move X d m
          (filling tables (route ∷ routes) targets misses)
          (record m { cache = HashMap.insert route.table (of_pb pb) m.cache })
          (filling tables routes (set targets idx (some (of_pb pb))) misses)
  done :
      {tables : List Str} {targets : Targets} {misses : Misses}
      → Move X d m (filling tables [] targets misses) m (returned tables (Result.ok targets))
  evict : (tables : List Str) → Move X d m idle m (evicting tables)
  remove :
      {t : Str} {tables : List Str}
      → Move X d m
          (evicting (t ∷ tables))
          (record m { cache = HashMap.remove t m.cache })
          (evicting tables)
  evicted : Move X d m (evicting []) m idle
  leave :
      {tables : List Str} (result : Result X Targets) → Move X d m (returned tables result) m idle

-- Any number of tasks.
pub record System (X : Type 0) : Type 0 where
  pub shared : Shared
  pub pc : ℕ → Pc X

abbrev pub update : {X : Type 0} → (ℕ → Pc X) → ℕ → Pc X → ℕ → Pc X
update f i p j = if eqb i j then p else f j

pub data Step (X : Type 0) (d : Endpoint) (s : System X) : System X → Type 0 where
  pick :
      (i : ℕ) {m : Shared} {p : Pc X}
      → Move X d s.shared (s.pc i) m p
      → Step X d s (record { shared = m; pc = update s.pc i p })

-- A new router, with no call running.
abbrev pub init : {X : Type 0} → System X
init = record { shared = record { cache = []; answered = [] }; pc = λ i. Pc.idle }

pub data Reach (X : Type 0) (d : Endpoint) : System X → Type 0 where
  start : Reach X d init
  later : {s t : System X} → Reach X d s → Step X d s t → Reach X d t

-- ===== src/Router/Fill.antt =====
-- The second loop of `route`: what the routes of a response put into the slots and into the cache.
use mathlib.Core.Bool.{false≢true}
use horaedb_client_rs.Prelude.{
  ℕ, ◌≡◌, ◌≢◌, refl, ap, sym, ◌∙◌, Bool, true, false, ◌&&◌, Option, none, some, List, [], ◌∷◌,
  arith, Str, ◌==◌, str_eq, str_eqb_iff, set, length, get_elem?, get_elem?-set_self,
  get_elem?-set_ne, get_elem?-lt, length-set, if◌then◌else◌, Option-cases, Bool-cases, inl, inr,
  is_some, eqb, eqb_iff,
}
use horaedb_client_rs.HashMap
use horaedb_client_rs.HashMap.Laws.{get-insert}
use horaedb_client_rs.Endpoint.{Endpoint, EndpointPb, of_pb}
use horaedb_client_rs.Errors.{Error, Result}
use horaedb_client_rs.Rpc.{Route}
use horaedb_client_rs.Router.{Cache, Targets, Misses, fill, unknown_table}

-- The endpoint of the last route of a table that has one, or else `o`.
abbrev pub last_route : Str → Option Endpoint → List Route → Option Endpoint
last_route t o [] = o
last_route t o (r ∷ rs) =
    last_route t
      (elim r.endpoint [ none ↦ o | some pb ↦ if r.table == t then some (of_pb pb) else o ]) rs

-- Every route with an endpoint is of a table that was asked for.
abbrev pub all_asked : Misses → List Route → Bool
all_asked misses [] = true
all_asked misses (r ∷ rs) = elim r.endpoint [
  | none ↦ all_asked misses rs
  | some pb ↦ is_some (HashMap.get misses r.table) && all_asked misses rs
]

abbrev pub is_ok : {X A : Type 0} → Result X A → Bool
is_ok (Result.ok a) = true
is_ok (Result.err e) = false

abbrev ok_or : {X A : Type 0} → A → Result X A → A
ok_or d (Result.ok a) = a
ok_or d (Result.err e) = d

pub ok_inj : {X A : Type 0} {a b : A} → ◌≡◌ {A = Result X A} (Result.ok a) (Result.ok b) → a ≡ b
ok_inj {a = a} q = ap (ok_or a) q

pub not_ok :
    {X A : Type 0} {e : Error X} {a : A} → ◌≢◌ {A = Result X A} (Result.err e) (Result.ok a)
not_ok q = false≢true (ap is_ok q)

pub ok_of_is_ok : {X A : Type 0} (x : Result X A) → is_ok x ≡ true → (a : A) × (x ≡ Result.ok a)
ok_of_is_ok (Result.ok a) h = (a, refl)
ok_of_is_ok (Result.err e) h = cc

-- Whether a table's miss is under this place.
abbrev pub owns : Option ℕ → ℕ → Bool
owns none j = false
owns (some i) j = eqb i j

module _ (X : Type 0) (misses : Misses) where
  fill_nil :
      (targets : Targets) (cache : Cache)
      → fill {X = X} misses [] targets cache ≡ (Result.ok targets, cache)
  unfolding fill
  fill_nil targets cache = refl

  fill_skip :
      (r : Route) (rs : List Route) (targets : Targets) (cache : Cache)
      → r.endpoint ≡ none
      → fill {X = X} misses (r ∷ rs) targets cache ≡ fill misses rs targets cache
  unfolding fill
  fill_skip r rs targets cache e = rw (e, fill)

  fill_unknown :
      (r : Route) (rs : List Route) (targets : Targets) (cache : Cache) (pb : EndpointPb)
      → r.endpoint ≡ some pb
      → HashMap.get misses r.table ≡ none
      → fill {X = X} misses (r ∷ rs) targets cache
        ≡ (Result.err (Error.unknown (unknown_table r.table)), cache)
  unfolding fill
  fill_unknown r rs targets cache pb e m = rw (e, fill) (rw (m, fill))

  fill_known :
      (r : Route) (rs : List Route) (targets : Targets) (cache : Cache) (pb : EndpointPb) (idx : ℕ)
      → r.endpoint ≡ some pb
      → HashMap.get misses r.table ≡ some idx
      → fill {X = X} misses (r ∷ rs) targets cache
        ≡ fill misses rs
            (set targets idx (some (of_pb pb)))
            (HashMap.insert r.table (of_pb pb) cache)
  unfolding fill
  fill_known r rs targets cache pb idx e m = rw (e, fill) (rw (m, fill))

  -- Filling succeeds exactly if every route with an endpoint is of a table that was asked for.
  pub is_ok-fill :
      (rs : List Route) (targets : Targets) (cache : Cache)
      → is_ok (fill {X = X} misses rs targets cache).0 ≡ all_asked misses rs
  is_ok-fill [] targets cache = unfold fill in refl
  is_ok-fill (r ∷ rs) targets cache = elim (Option-cases r.endpoint) [
    | inl skip ↦
        rw (fill_skip r rs targets cache skip) (rw (skip, all_asked) (is_ok-fill rs targets cache))
    | inr (pb, given) ↦ elim (Option-cases (HashMap.get misses r.table)) [
      | inl unasked ↦
          rw (fill_unknown r rs targets cache pb given unasked) (rw (given, all_asked) (rw unasked))
      | inr (idx, asked) ↦
          rw (fill_known r rs targets cache pb idx given asked)
            (rw (given, all_asked) (rw asked (is_ok-fill rs _ _)))
    ]
  ]

  -- The cache after a success: each table has the last endpoint that the response gives it.
  pub cache-fill :
      (rs : List Route) (targets : Targets) (cache : Cache) (t : Str)
      → is_ok (fill {X = X} misses rs targets cache).0 ≡ true
      → HashMap.get (fill {X = X} misses rs targets cache).1 t
        ≡ last_route t (HashMap.get cache t) rs
  cache-fill [] targets cache t h = unfold fill in refl
  cache-fill (r ∷ rs) targets cache t h = elim (Option-cases r.endpoint) [
    | inl skip ↦
        let e = fill_skip r rs targets cache skip in
        rw e (rw (skip, last_route) (cache-fill rs targets cache t (rw e at h)))
    | inr (pb, given) ↦ elim (Option-cases (HashMap.get misses r.table)) [
      | inl unasked ↦
          absurd (false≢true (rw (fill_unknown r rs targets cache pb given unasked) at h))
      | inr (idx, asked) ↦
          let e = fill_known r rs targets cache pb idx given asked in
          rw e (
            rw (given, last_route)
              (cache-fill rs _ _ t (rw e at h)
                ∙ ap (λ o. last_route t o rs) (get-insert cache r.table t (of_pb pb))))
    ]
  ]

  -- A slot after a success: that of a miss has the last endpoint that the response gives its
  -- table, and any other is as it was.
  pub targets-fill :
      (tables : List Str)
      → ((t : Str) (i : ℕ) → HashMap.get misses t ≡ some i → get_elem? tables i ≡ some t)
      → (rs : List Route) (targets result : Targets) (cache : Cache) (j : ℕ) (t : Str)
        (slot : Option Endpoint)
      → (fill {X = X} misses rs targets cache).0 ≡ Result.ok result
      → get_elem? tables j ≡ some t
      → get_elem? targets j ≡ some slot
      → get_elem? result j
        ≡ some (if owns (HashMap.get misses t) j then last_route t slot rs else slot)
  targets-fill tables sound [] targets result cache j t slot h e s =
      nil_case (HashMap.get misses t) (rw (fill_nil targets cache) at h)
    where
      nil_case :
          (own : Option ℕ)
          → ◌≡◌ {A = Result X Targets} (Result.ok targets) (Result.ok result)
          → get_elem? result j ≡ some (if owns own j then slot else slot)
      nil_case own q = ground (arith, ok_inj q, s)
  targets-fill tables sound (r ∷ rs) targets result cache j t slot h e s =
      elim (Option-cases r.endpoint) [
        | inl skip ↦
            rw (skip, last_route)
              (targets-fill tables sound rs targets result cache j t slot
                (rw (fill_skip r rs targets cache skip) at h) e s)
        | inr (pb, given) ↦ elim (Option-cases (HashMap.get misses r.table)) [
          | inl unasked ↦
              absurd (not_ok (rw (fill_unknown r rs targets cache pb given unasked) at h))
          | inr (idx, asked) ↦
              let next : Option Endpoint = if eqb idx j then some (of_pb pb) else slot in
              rw (given, last_route)
                (targets-fill tables sound rs (set targets idx (some (of_pb pb))) result
                    (HashMap.insert r.table (of_pb pb) cache) j t next
                    (rw (fill_known r rs targets cache pb idx given asked) at h) e
                    (next_slot idx pb)
                  ∙ ap some (same_slot pb idx asked))
        ]
      ]
    where
      next_slot :
          (idx : ℕ) (pb : EndpointPb)
          → get_elem? (set targets idx (some (of_pb pb))) j
            ≡ some (if eqb idx j then some (of_pb pb) else slot)
      next_slot idx pb = elim (Bool-cases (eqb idx j)) [
        | inl same ↦
            let q : idx ≡ j = (eqb_iff idx j).0 same in
            rw same (
              ap (get_elem? (set targets idx (some (of_pb pb)))) (sym q)
              ∙ get_elem?-set_self targets idx (some (of_pb pb))
                  (omega (arith, get_elem?-lt targets j slot s)))
        | inr other ↦
            rw other
              (get_elem?-set_ne targets idx j (some (of_pb pb)) (ground (arith, eqb_iff idx j)) ∙ s)
      ]

      same_slot :
          (pb : EndpointPb) (idx : ℕ)
          → HashMap.get misses r.table ≡ some idx
          → (if owns (HashMap.get misses t) j
              then last_route t (if eqb idx j then some (of_pb pb) else slot) rs
              else (if eqb idx j then some (of_pb pb) else slot))
            ≡ (if owns (HashMap.get misses t) j
                then last_route t (if r.table == t then some (of_pb pb) else slot) rs
                else slot)
      same_slot pb idx asked =
          ground (arith, eqb_iff idx j, str_eqb_iff r.table t, sound r.table idx asked)

  pub length-fill :
      (rs : List Route) (targets result : Targets) (cache : Cache)
      → (fill {X = X} misses rs targets cache).0 ≡ Result.ok result
      → length result ≡ length targets
  length-fill [] targets result cache h =
      ap length (sym (ok_inj (rw (fill_nil targets cache) at h)))
  length-fill (r ∷ rs) targets result cache h = elim (Option-cases r.endpoint) [
    | inl skip ↦ length-fill rs targets result cache (rw (fill_skip r rs targets cache skip) at h)
    | inr (pb, given) ↦ elim (Option-cases (HashMap.get misses r.table)) [
      | inl unasked ↦ absurd (not_ok (rw (fill_unknown r rs targets cache pb given unasked) at h))
      | inr (idx, asked) ↦
          length-fill rs (set targets idx (some (of_pb pb))) result
            (HashMap.insert r.table (of_pb pb) cache)
            (rw (fill_known r rs targets cache pb idx given asked) at h)
          ∙ length-set targets idx (some (of_pb pb))
    ]
  ]

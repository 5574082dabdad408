-- ===== src/Router/Lookup.antt =====
-- The first loop of `route`: which slots it fills from the cache, and which tables miss.
use horaedb_client_rs.Prelude.{
  ℕ, zero, suc, ◌+◌, ◌<◌, ◌≡◌, refl, ap, sym, ◌∙◌, Option, none, some, List, [], ◌∷◌, arith, Str,
  ◌==◌, str_eq, str_eqb_iff, set, length, get_elem?, get_elem?-set_self, get_elem?-set_ne,
  length-set, if◌then◌else◌, Option-cases, inl, inr, some_inj,
}
use horaedb_client_rs.HashMap
use horaedb_client_rs.HashMap.Laws.{get-insert}
use horaedb_client_rs.Endpoint.{Endpoint}
use horaedb_client_rs.Router.{Cache, Targets, Misses, find_cached}

-- The place of the last occurrence of a table, counting from `idx`.
abbrev pub last_place : Str → ℕ → Option ℕ → List Str → Option ℕ
last_place t idx o [] = o
last_place t idx o (u ∷ us) = last_place t (suc idx) (if u == t then some idx else o) us

-- A table misses under the place of its last occurrence, if it is not cached.
pub misses-find_cached :
    (cache : Cache) (idx : ℕ) (tables : List Str) (targets : Targets) (misses : Misses) (t : Str)
    → HashMap.get (find_cached cache idx tables targets misses).1 t ≡ elim (HashMap.get cache t) [
      | some ep ↦ HashMap.get misses t
      | none ↦ last_place t idx (HashMap.get misses t) tables
    ]
unfolding find_cached
misses-find_cached cache idx [] targets misses t = ground arith
misses-find_cached cache idx (u ∷ us) targets misses t = elim (Option-cases (HashMap.get cache u)) [
  | inl absent ↦ ground (
    arith,
    misses-find_cached cache (suc idx) us targets (HashMap.insert u idx misses) t,
    get-insert misses u t idx,
    str_eqb_iff u t,
  )
  | inr (ep, cached) ↦ ground (
    arith,
    misses-find_cached cache (suc idx) us (set targets idx (some ep)) misses t,
    str_eqb_iff u t,
  )
]

-- A cached endpoint, or what is in the slot.
abbrev pub or_slot : Option Endpoint → Option (Option Endpoint) → Option (Option Endpoint)
or_slot (some ep) slot = some (some ep)
or_slot none slot = slot

-- Earlier slots stay as they are.
earlier-find_cached :
    (cache : Cache) (idx : ℕ) (tables : List Str) (targets : Targets) (misses : Misses) (k : ℕ)
    → k < idx
    → get_elem? (find_cached cache idx tables targets misses).0 k ≡ get_elem? targets k
unfolding find_cached
earlier-find_cached cache idx [] targets misses k h = refl
earlier-find_cached cache idx (u ∷ us) targets misses k h =
    elim (Option-cases (HashMap.get cache u)) [
      | inl absent ↦
          rw (absent, find_cached)
            (earlier-find_cached cache (suc idx) us targets (HashMap.insert u idx misses) k
              (omega arith))
      | inr (ep, cached) ↦
          rw (cached, find_cached)
            (earlier-find_cached cache (suc idx) us (set targets idx (some ep)) misses k
                (omega arith)
              ∙ get_elem?-set_ne targets idx k (some ep) (omega arith))
    ]

pub length-find_cached :
    (cache : Cache) (idx : ℕ) (tables : List Str) (targets : Targets) (misses : Misses)
    → length (find_cached cache idx tables targets misses).0 ≡ length targets
unfolding find_cached
length-find_cached cache idx [] targets misses = refl
length-find_cached cache idx (u ∷ us) targets misses = elim (Option-cases (HashMap.get cache u)) [
  | inl absent ↦
      rw (absent, find_cached)
        (length-find_cached cache (suc idx) us targets (HashMap.insert u idx misses))
  | inr (ep, cached) ↦
      rw (cached, find_cached)
        (length-find_cached cache (suc idx) us (set targets idx (some ep)) misses
          ∙ length-set targets idx (some ep))
]

-- The slots: a table that is cached has its endpoint there, and any other slot is as it was.
pub targets-find_cached :
    (cache : Cache) (idx : ℕ) (tables : List Str) (targets : Targets) (misses : Misses) (j k : ℕ)
    (t : Str)
    → get_elem? tables j ≡ some t
    → k ≡ idx + j
    → k < length targets
    → get_elem? (find_cached cache idx tables targets misses).0 k
      ≡ or_slot (HashMap.get cache t) (get_elem? targets k)
unfolding find_cached
targets-find_cached cache idx [] targets misses j k t e p h = cc
targets-find_cached cache idx (u ∷ us) targets misses zero k t e p h =
    let here : k ≡ idx = omega arith in
    elim (Option-cases (HashMap.get cache u)) [
      | inl absent ↦
          rw (absent, find_cached)
            (earlier-find_cached cache (suc idx) us targets (HashMap.insert u idx misses) k
                (omega arith)
              ∙ sym (kept u absent (some_inj e)))
      | inr (ep, cached) ↦
          rw (cached, find_cached)
            (earlier-find_cached cache (suc idx) us (set targets idx (some ep)) misses k
                (omega arith)
              ∙ ap (get_elem? (set targets idx (some ep))) here
              ∙ get_elem?-set_self targets idx (some ep) (omega arith)
              ∙ sym (filled u ep cached (some_inj e)))
    ]
  where
    kept :
        (v : Str)
        → HashMap.get cache v ≡ none
        → v ≡ t
        → or_slot (HashMap.get cache t) (get_elem? targets k) ≡ get_elem? targets k
    kept v a q = ground arith

    filled :
        (v : Str) (ep : Endpoint)
        → HashMap.get cache v ≡ some ep
        → v ≡ t
        → or_slot (HashMap.get cache t) (get_elem? targets k) ≡ some (some ep)
    filled v ep a q = ground arith
targets-find_cached cache idx (u ∷ us) targets misses (suc j) k t e p h =
    elim (Option-cases (HashMap.get cache u)) [
      | inl absent ↦
          rw (absent, find_cached)
            (targets-find_cached cache (suc idx) us targets (HashMap.insert u idx misses) j k t e
              (omega arith) h)
      | inr (ep, cached) ↦
          rw (cached, find_cached)
            (targets-find_cached cache (suc idx) us (set targets idx (some ep)) misses j k t e
                (omega arith) (omega (arith, length-set targets idx (some ep)))
              ∙ ap (or_slot (HashMap.get cache t))
                  (get_elem?-set_ne targets idx k (some ep) (omega arith)))
    ]

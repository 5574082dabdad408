-- ===== src/Router/Places.antt =====
-- The misses of `route`: a table that is not cached misses once, under the place of its last occurrence.
use horaedb_client_rs.Prelude.{
  replicate, length, ℕ, zero, suc, ◌+◌, ◌<◌, ◌≡◌, ◌≢◌, refl, ap, ◌∙◌, Bool, true, false, not, ◌||◌,
  Option, none, some, List, [], ◌∷◌, arith, Str, ◌==◌, str_eq, str_eqb_iff, get_elem?, eqb_iff,
  is_some, if◌then◌else◌, Bool-cases, inl, inr, some_inj, ◌⊎◌,
}
use horaedb_client_rs.HashMap
use horaedb_client_rs.Endpoint.{Endpoint}
use horaedb_client_rs.Router.{RouterImpl, first_pass}
use horaedb_client_rs.Router.Lookup.{last_place, misses-find_cached}
use horaedb_client_rs.Router.Fill.{owns}

abbrev pub occurs : Str → List Str → Bool
occurs t [] = false
occurs t (u ∷ us) = (u == t) || occurs t us

-- Whether the table at place `j` occurs again later.
abbrev pub recurs : Str → List Str → ℕ → Bool
recurs t [] j = false
recurs t (u ∷ us) zero = occurs t us
recurs t (u ∷ us) (suc j) = recurs t us j

later_place :
    (t : Str) (idx i k : ℕ) (us : List Str)
    → k < i
    → i < idx
    → owns (last_place t idx (some i) us) k ≡ false
later_place t idx i k [] h l = ground (arith, eqb_iff i k)
later_place t idx i k (u ∷ us) h l = elim (Bool-cases (u == t)) [
  | inl same ↦ rw same (later_place t (suc idx) idx k us (omega arith) (omega arith))
  | inr other ↦ rw other (later_place t (suc idx) i k us h (omega arith))
]

kept_place :
    (t : Str) (idx i : ℕ) (us : List Str)
    → i < idx
    → owns (last_place t idx (some i) us) i ≡ not (occurs t us)
kept_place t idx i [] l = ground (arith, eqb_iff i i)
kept_place t idx i (u ∷ us) l = elim (Bool-cases (u == t)) [
  | inl same ↦ rw same (later_place t (suc idx) idx i us l (omega arith))
  | inr other ↦ rw other (kept_place t (suc idx) i us (omega arith))
]

-- The last place of a table is this one, if the table does not occur again later.
pub owns-last_place :
    (t : Str) (idx : ℕ) (o : Option ℕ) (us : List Str) (j k : ℕ)
    → get_elem? us j ≡ some t
    → k ≡ idx + j
    → owns (last_place t idx o us) k ≡ not (recurs t us j)
owns-last_place t idx o [] j k e p = cc
owns-last_place t idx o (u ∷ us) zero k e p =
    let same : (u == t) ≡ true = (str_eqb_iff u t).1 (some_inj e) in
    let here : k ≡ idx = omega arith in
    rw (same, here) (kept_place t (suc idx) idx us (omega arith))
owns-last_place t idx o (u ∷ us) (suc j) k e p =
    owns-last_place t (suc idx) (if u == t then some idx else o) us j k e (omega arith)

pub is_some-last_place :
    (t : Str) (idx : ℕ) (o : Option ℕ) (us : List Str)
    → is_some (last_place t idx o us) ≡ (is_some o || occurs t us)
is_some-last_place t idx o [] = ground arith
is_some-last_place t idx o (u ∷ us) =
    ground (arith, is_some-last_place t (suc idx) (if u == t then some idx else o) us)

last_place_sound :
    (t : Str) (idx : ℕ) (o : Option ℕ) (us : List Str) (i : ℕ)
    → last_place t idx o us ≡ some i
    → (o ≡ some i) ⊎ ((j : ℕ) × ((i ≡ idx + j) × (get_elem? us j ≡ some t)))
last_place_sound t idx o [] i e = inl e
last_place_sound t idx o (u ∷ us) i e =
    elim (last_place_sound t (suc idx) (if u == t then some idx else o) us i e) [
      | inr (j, (p, q)) ↦ inr (suc j, (omega arith, q))
      | inl q ↦ elim (Bool-cases (u == t)) [
        | inl same ↦
            inr (0, (omega (arith, some_inj (rw same at q)), ap some ((str_eqb_iff u t).0 same)))
        | inr other ↦ inl (rw other at q)
      ]
    ]

-- A table that is not cached misses under its last place.
pub get-first_pass :
    (r : RouterImpl) (tables : List Str) (t : Str)
    → HashMap.get (first_pass r tables).1 t
      ≡ (if is_some (HashMap.get r.cache t) then none else last_place t 0 none tables)
unfolding HashMap.get
get-first_pass r tables t =
    misses-find_cached r.cache 0 tables (replicate (length tables) (some r.default_endpoint)) [] t
    ∙ no_miss (HashMap.get r.cache t)
  where
    no_miss :
        (o : Option Endpoint)
        → (elim o [ some ep ↦ HashMap.get [] t | none ↦ last_place t 0 (HashMap.get [] t) tables ])
          ≡ (if is_some o then none else last_place t 0 none tables)
    no_miss (some ep) = refl
    no_miss none = refl

-- A miss is under a place of its table.
pub misses_sound :
    (r : RouterImpl) (tables : List Str) (t : Str) (i : ℕ)
    → HashMap.get (first_pass r tables).1 t ≡ some i
    → get_elem? tables i ≡ some t
misses_sound r tables t i e = elim (Bool-cases (is_some (HashMap.get r.cache t))) [
  | inl cached ↦ absurd (miss_not_cached (rw (get-first_pass r tables t, cached) at e))
  | inr absent ↦
      elim (last_place_sound t 0 none tables i (rw (get-first_pass r tables t, absent) at e)) [
        | inl q ↦ cc
        | inr (j, (p, q)) ↦ ap (get_elem? tables) (omega arith) ∙ q
      ]
]
  where
    miss_not_cached : none ≢ some i
    miss_not_cached q = cc

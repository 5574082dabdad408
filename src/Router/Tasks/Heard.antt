-- ===== src/Router/Tasks/Heard.antt =====
-- What the server has answered, and the places of a call that hold no more than that.
use horaedb_client_rs.Prelude.{
  ℕ, ◌≡◌, refl, ap, sym, ◌∙◌, subst, Bool, true, false, ◌&&◌, ◌||◌, Option, none, some, List, [],
  ◌∷◌, ◌++◌, Str, str_eq, ◌==◌, arith, set, replicate, length, get_elem?, get_elem?-set_self,
  get_elem?-set_ne, get_elem?-lt, get_elem?-replicate, length-set, length-replicate, some_inj, eqb,
  Bool-cases, inl, inr,
}
use horaedb_client_rs.Endpoint.{Endpoint, EndpointPb, of_pb, endpoint_eq, endpoint_eqb_iff}
use horaedb_client_rs.HashMap
use horaedb_client_rs.HashMap.Laws.{get-insert}
use horaedb_client_rs.Rpc.{Route}
use horaedb_client_rs.Router.{Targets, Misses}

-- One of the routes gives the table this endpoint.
abbrev pub gives : Option EndpointPb → Endpoint → Bool
gives none e = false
gives (some pb) e = of_pb pb == e

abbrev pub is_heard : Str → Endpoint → List Route → Bool
is_heard t e [] = false
is_heard t e (route ∷ routes) = (route.table == t && gives route.endpoint e) || is_heard t e routes

or_right : (a b : Bool) → b ≡ true → (a || b) ≡ true
or_right true b h = refl
or_right false b h = h

pub is_heard-append_right :
    (t : Str) (e : Endpoint) (rs l : List Route)
    → is_heard t e l ≡ true
    → is_heard t e (rs ++ l) ≡ true
is_heard-append_right t e [] l h = h
is_heard-append_right t e (r ∷ rs) l h =
    or_right (r.table == t && gives r.endpoint e) (is_heard t e (rs ++ l))
      (is_heard-append_right t e rs l h)

pub is_heard-append_left :
    (t : Str) (e : Endpoint) (rs l : List Route)
    → is_heard t e rs ≡ true
    → is_heard t e (rs ++ l) ≡ true
is_heard-append_left t e [] l h = cc
is_heard-append_left t e (r ∷ rs) l h = ground (arith, is_heard-append_left t e rs l)

-- Of routes, all are among the answers.
abbrev pub AllHeard : List Route → List Route → Type 0
AllHeard rs l = (t : Str) (e : Endpoint) → is_heard t e rs ≡ true → is_heard t e l ≡ true

-- The places of a call: one for each table, with the default endpoint or one that the server has given
-- the table.
pub record SlotsOk (d : Endpoint) (l : List Route) (tables : List Str) (targets : Targets)
    : Type 0 where
  pub size : length targets ≡ length tables
  pub slots :
      (j : ℕ) (t : Str)
      → get_elem? tables j ≡ some t
      → (e : Endpoint) × ((get_elem? targets j ≡ some (some e))
          × ((e == d || is_heard t e l) ≡ true))

pub SlotsOk-replicate :
    (d : Endpoint) (l : List Route) (tables : List Str)
    → SlotsOk d l tables (replicate (length tables) (some d))
SlotsOk-replicate d l tables = record {
  size = length-replicate (length tables) (some d);
  slots = λ j t h. (
    d,
    (
      get_elem?-replicate (length tables) j (some d) (get_elem?-lt tables j t h),
      rw ((endpoint_eqb_iff d d).1 refl) refl,
    ),
  );
}

pub SlotsOk-wider :
    (d : Endpoint) (l k : List Route) (tables : List Str) (targets : Targets)
    → AllHeard l k
    → SlotsOk d l tables targets
    → SlotsOk d k tables targets
SlotsOk-wider d l k tables targets w s = record {
  size = s.size;
  slots = λ j t h. let (e, (here, ok)) = s.slots j t h in (e, (here, wider (e == d) t e ok));
}
  where
    wider :
        (b : Bool) (t : Str) (e : Endpoint)
        → (b || is_heard t e l) ≡ true
        → (b || is_heard t e k) ≡ true
    wider true t e h = refl
    wider false t e h = w t e h

pub SlotsOk-set :
    (d : Endpoint) (l : List Route) (tables : List Str) (targets : Targets) (i : ℕ) (u : Str)
    (f : Endpoint)
    → get_elem? tables i ≡ some u
    → is_heard u f l ≡ true
    → SlotsOk d l tables targets
    → SlotsOk d l tables (set targets i (some f))
SlotsOk-set d l tables targets i u f place heard s = record {
  size = length-set targets i (some f) ∙ s.size;
  slots = λ j t h. elim (Bool-cases (eqb i j)) [
    | inl same ↦ at_place j t (ground arith) h
    | inr other ↦
        let (e, (here, ok)) = s.slots j t h in
        (e, (get_elem?-set_ne targets i j (some f) (ground arith) ∙ here, ok))
  ];
}
  where
    at_place :
        (j : ℕ) (t : Str)
        → i ≡ j
        → get_elem? tables j ≡ some t
        → (e : Endpoint) × ((get_elem? (set targets i (some f)) j ≡ some (some e))
            × ((e == d || is_heard t e l) ≡ true))
    at_place j t same h = (
      f,
      (
        subst (λ k. get_elem? (set targets i (some f)) k ≡ some (some f)) same
            (get_elem?-set_self targets i (some f)
              (omega (arith, s.size, get_elem?-lt tables i u place))),
        or_right (f == d) (is_heard t f l) (
            subst (λ x. is_heard x f l ≡ true)
              (some_inj (sym place ∙ ap (get_elem? tables) same ∙ h)) heard),
      ),
    )

-- Each miss knows a place of its table.
abbrev pub MissesOk : List Str → Misses → Type 0
MissesOk tables misses =
    (t : Str) (i : ℕ) → HashMap.get misses t ≡ some i → get_elem? tables i ≡ some t

pub MissesOk-insert :
    (tables : List Str) (misses : Misses) (t : Str) (i : ℕ)
    → get_elem? tables i ≡ some t
    → MissesOk tables misses
    → MissesOk tables (HashMap.insert t i misses)
MissesOk-insert tables misses t i place ok u j h = elim (Bool-cases (t == u)) [
  | inl same ↦ ground (arith, get-insert misses t u i, str_eq.same_iff t u)
  | inr other ↦ ok u j (rw (get-insert misses t u i, other) at h)
]

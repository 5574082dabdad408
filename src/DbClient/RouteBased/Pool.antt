-- ===== src/DbClient/RouteBased/Pool.antt =====
-- The pool of src/db_client/route_based.rs: the client under an endpoint is the one of that endpoint.
use horaedb_client_rs.Prelude.{
  ◌>>=◌, ◌≡◌, refl, ap, sym, ◌∙◌, Option, none, some, List, [], ◌∷◌, ◌==◌, Option-cases, Bool-cases,
  if◌then◌else◌, inl, inr, some_inj,
}
use mathlib.Core.Option.{get_or}
use horaedb_client_rs.DbClient.Inner
use horaedb_client_rs.DbClient.Inner.{InnerClient, write_internal}
use horaedb_client_rs.DbClient.Inner.Laws.{Keeps, write_internal-endpoint}
use horaedb_client_rs.DbClient.RouteBased.{DirectClientPool, get_or_create}
use horaedb_client_rs.DbClient.RouteBased.Write.{WriteOrders, Sending, prepare, send_all}
use horaedb_client_rs.Endpoint.{Endpoint, endpoint_eq, endpoint_eqb_iff, to_string}
use horaedb_client_rs.Errors.{WriteResponse, Result}
use horaedb_client_rs.HashMap
use horaedb_client_rs.HashMap.Laws.{get-insert}
use horaedb_client_rs.Rpc.{RpcContext}
use horaedb_client_rs.Rpc.Client.{RpcClientFactory}
use horaedb_client_rs.Write.Request.{Request}

-- Each client has the text of the endpoint that it is under.
abbrev pub IsNamed : {X : Type 0} → DirectClientPool X → Type 0
IsNamed {X} pool =
    (ep : Endpoint) (client : InnerClient X)
    → HashMap.get pool ep ≡ some client
    → client.endpoint ≡ to_string ep

module _ (X : Type 0) where
  pub insert-IsNamed :
      (pool : DirectClientPool X) (ep : Endpoint) (client : InnerClient X)
      → client.endpoint ≡ to_string ep
      → IsNamed pool
      → IsNamed (HashMap.insert ep client pool)
  insert-IsNamed pool ep client e h q c is = elim (Bool-cases (ep == q)) [
    | inl same ↦
        ap (λ (i : InnerClient X). i.endpoint)
          (sym (some_inj (rw (get-insert pool ep q client, same) at is)))
        ∙ e
        ∙ ap to_string ((endpoint_eqb_iff ep q).0 same)
    | inr other ↦ h q c (rw (get-insert pool ep q client, other) at is)
  ]

  pub get_or_create_absent :
      (pool : DirectClientPool X) (ep : Endpoint)
      → HashMap.get pool ep ≡ none
      → get_or_create pool ep
        ≡ (Inner.new (to_string ep), HashMap.insert ep (Inner.new (to_string ep)) pool)
  unfolding get_or_create
  get_or_create_absent pool ep absent = rw (absent, get_or_create) refl

  pub get_or_create_present :
      (pool : DirectClientPool X) (ep : Endpoint) (client : InnerClient X)
      → HashMap.get pool ep ≡ some client
      → get_or_create pool ep ≡ (client, pool)
  unfolding get_or_create
  get_or_create_present pool ep client present = rw (present, get_or_create) refl

  get_or_create-IsNamed :
      (pool : DirectClientPool X) (ep : Endpoint)
      → IsNamed pool
      → ((get_or_create pool ep).0.endpoint ≡ to_string ep) × IsNamed (get_or_create pool ep).1
  unfolding get_or_create Inner.new
  get_or_create-IsNamed pool ep h = elim (Option-cases (HashMap.get pool ep)) [
    | inl absent ↦
        rw (get_or_create_absent pool ep absent)
          (new_endpoint, insert-IsNamed pool ep (Inner.new (to_string ep)) new_endpoint h)
    | inr (client, present) ↦
        rw (get_or_create_present pool ep client present) (h ep client present, h)
  ]
    where
      new_endpoint : (Inner.new {X = X} (to_string ep)).endpoint ≡ to_string ep
      new_endpoint = refl

  get-get_or_create :
      (pool : DirectClientPool X) (ep q : Endpoint)
      → HashMap.get (get_or_create pool ep).1 q
        ≡ (if ep == q then some (get_or_create pool ep).0 else HashMap.get pool q)
  get-get_or_create pool ep q = elim (Option-cases (HashMap.get pool ep)) [
    | inl absent ↦
        rw (get_or_create_absent pool ep absent) (get-insert pool ep q (Inner.new (to_string ep)))
    | inr (client, present) ↦
        rw (get_or_create_present pool ep client present) (elim (Bool-cases (ep == q)) [
          | inl same ↦
              rw same (ap (HashMap.get pool) (sym ((endpoint_eqb_iff ep q).0 same)) ∙ present)
          | inr other ↦ rw other refl
        ])
  ]

  get_or_create-present :
      (pool : DirectClientPool X) (ep : Endpoint)
      → get_or (HashMap.get pool ep) (get_or_create pool ep).0 ≡ (get_or_create pool ep).0
  get_or_create-present pool ep = elim (Option-cases (HashMap.get pool ep)) [
    | inl absent ↦ ap (λ o. get_or o (get_or_create pool ep).0) absent
    | inr (client, present) ↦ rw (get_or_create_present pool ep client present) (rw present refl)
  ]

  -- The pool gives out a client of the endpoint asked for, the one that it has under it if there is one. It
  -- then has this client under that endpoint, under every other endpoint what it had, and each client is
  -- still one of the endpoint that it is under, if each was.
  pub get_or_create_lem :
      (pool : DirectClientPool X) (ep q : Endpoint)
      → IsNamed pool
      → (((get_or_create pool ep).0.endpoint ≡ to_string ep) × IsNamed (get_or_create pool ep).1)
        × ((get_or (HashMap.get pool ep) (get_or_create pool ep).0 ≡ (get_or_create pool ep).0)
            × (HashMap.get (get_or_create pool ep).1 q
                ≡ (if ep == q then some (get_or_create pool ep).0 else HashMap.get pool q)))
  get_or_create_lem pool ep q h = (
    get_or_create-IsNamed pool ep h,
    (get_or_create-present pool ep, get-get_or_create pool ep q),
  )

  prepare-IsNamed :
      (h : WriteOrders) (pool : DirectClientPool X) (parts : List (Endpoint × Request))
      → IsNamed pool
      → IsNamed (prepare h pool parts).1
  unfolding prepare
  prepare-IsNamed h pool [] n = n
  prepare-IsNamed h pool ((ep, req) ∷ parts) n =
      prepare-IsNamed h (get_or_create pool ep).1 parts (get_or_create-IsNamed pool ep n).1

  abbrev pub EndsNamed : {A : Type 0} → Option (A × DirectClientPool X) → Type 0
  EndsNamed none = Unit
  EndsNamed (some (a, pool)) = IsNamed pool

  EndsNamed-bind :
      {A B : Type 0} (o : Option (A × DirectClientPool X)) (f : A → B)
      → EndsNamed o
      → EndsNamed (o >>= (λ x. some (f x.0, x.1)))
  EndsNamed-bind none f n = tt
  EndsNamed-bind (some (a, pool)) f n = n

  pub send_all-IsNamed :
      (h : WriteOrders) (factory : RpcClientFactory X) (ctx : RpcContext)
      (pool : DirectClientPool X) (sendings : List Sending)
      → IsNamed pool
      → EndsNamed (send_all h factory ctx pool sendings)
  unfolding send_all
  send_all-IsNamed h factory ctx pool [] n = n
  send_all-IsNamed h factory ctx pool (s ∷ sendings) n =
      by_client
        (λ after m.
          send_all-IsNamed h factory ctx (HashMap.insert s.endpoint after pool) sendings m)
        (HashMap.get pool s.endpoint) refl
    where
      Rest : Type 0
      Rest =
          (after : InnerClient X)
          → IsNamed (HashMap.insert s.endpoint after pool)
          → EndsNamed (send_all h factory ctx (HashMap.insert s.endpoint after pool) sendings)

      by_result :
          Rest
          → (client : InnerClient X) (o : Option (Result X WriteResponse × InnerClient X))
          → client.endpoint ≡ to_string s.endpoint
          → Keeps X client o
          → EndsNamed (
              o >>= (λ x.
                send_all h factory ctx (HashMap.insert s.endpoint x.1 pool) sendings
                >>= (λ x'. some ((s.tables, x.0) ∷ x'.0, x'.1))))
      by_result rest client none e k = tt
      by_result rest client (some (result, after)) e k =
          EndsNamed-bind (send_all h factory ctx (HashMap.insert s.endpoint after pool) sendings) _
            (rest after (insert-IsNamed pool s.endpoint after (k ∙ e) n))

      by_client :
          Rest
          → (o : Option (InnerClient X)) → HashMap.get pool s.endpoint ≡ o
          → EndsNamed (
              o >>= (λ client. write_internal h.requests factory client ctx s.request >>= (λ x.
                send_all h factory ctx (HashMap.insert s.endpoint x.1 pool) sendings
                >>= (λ x'. some ((s.tables, x.0) ∷ x'.0, x'.1)))))
      by_client rest none e = tt
      by_client rest (some client) e =
          by_result rest client (write_internal h.requests factory client ctx s.request)
            (n s.endpoint client e)
            (write_internal-endpoint X h.requests factory client ctx s.request)

  -- Whatever a write's parts are, it leaves each client of the pool under its own endpoint.
  pub send_parts-IsNamed :
      (h : WriteOrders) (factory : RpcClientFactory X) (ctx : RpcContext)
      (pool : DirectClientPool X) (parts : List (Endpoint × Request))
      → IsNamed pool
      → EndsNamed (send_all h factory ctx (prepare h pool parts).1 (prepare h pool parts).0)
  send_parts-IsNamed h factory ctx pool parts n =
      send_all-IsNamed h factory ctx (prepare h pool parts).1 (prepare h pool parts).0
        (prepare-IsNamed h pool parts n)

-- ===== src/DbClient/RouteBased/Sent.antt =====
-- Sending the parts of a write does not panic.
use horaedb_client_rs.Prelude.{
  ◌>>=◌, ◌≡◌, refl, true, Option, none, some, List, [], ◌∷◌, All, Str, ◌==◌, is_some, Option-cases,
  Bool-cases, inl, inr,
}
use mathlib.Core.Bool.{false≢true}
use horaedb_client_rs.DbClient.Inner
use horaedb_client_rs.DbClient.Inner.{InnerClient, client_handle, write_answer, write_internal}
use horaedb_client_rs.DbClient.RouteBased.{DirectClientPool, get_or_create}
use horaedb_client_rs.DbClient.RouteBased.Pool.{get_or_create_absent, get_or_create_present}
use horaedb_client_rs.DbClient.RouteBased.Write.{WriteOrders, Sending, prepare, send_all}
use horaedb_client_rs.Endpoint.{Endpoint, endpoint_eq, endpoint_eqb_iff, to_string}
use horaedb_client_rs.Errors.{Result, WriteResponse}
use horaedb_client_rs.HashMap
use horaedb_client_rs.HashMap.Laws.{get-insert}
use horaedb_client_rs.Rpc.{RpcContext}
use horaedb_client_rs.Rpc.Client.{RpcClient, RpcClientFactory}
use horaedb_client_rs.Write.Proto.{HashOrders, build_requests}
use horaedb_client_rs.Write.Request.{Request}

pub some_of {ℓ} : {A : Type ℓ} (o : Option A) → is_some o ≡ true → (a : A) × (o ≡ some a)
some_of none e = absurd (false≢true e)
some_of (some a) e = (a, refl)

module _ (X : Type 0) where
  abbrev IsPresent : DirectClientPool X → Endpoint → Type 0
  IsPresent pool ep = is_some (HashMap.get pool ep) ≡ true

  insert-IsPresent :
      (pool : DirectClientPool X) (k e : Endpoint) (client : InnerClient X)
      → IsPresent pool e
      → IsPresent (HashMap.insert k client pool) e
  insert-IsPresent pool k e client h = elim (Bool-cases (k == e)) [
    | inl same ↦ rw (get-insert pool k e client, same) refl
    | inr other ↦ rw (get-insert pool k e client, other) h
  ]

  get_or_create-IsPresent :
      (pool : DirectClientPool X) (k e : Endpoint)
      → IsPresent pool e
      → IsPresent (get_or_create pool k).1 e
  get_or_create-IsPresent pool k e h = elim (Option-cases (HashMap.get pool k)) [
    | inl absent ↦
        rw (get_or_create_absent X pool k absent)
          (insert-IsPresent pool k e (Inner.new (to_string k)) h)
    | inr (client, present) ↦ rw (get_or_create_present X pool k client present) h
  ]

  created-IsPresent :
      (pool : DirectClientPool X) (k : Endpoint) → IsPresent (get_or_create pool k).1 k
  created-IsPresent pool k = elim (Option-cases (HashMap.get pool k)) [
    | inl absent ↦ rw (get_or_create_absent X pool k absent) (
        rw (get-insert pool k k (Inner.new (to_string k)))
          (rw ((endpoint_eqb_iff k k).1 refl) refl))
    | inr (client, present) ↦ rw (get_or_create_present X pool k client present) (rw present refl)
  ]

  prepare-IsPresent :
      (h : WriteOrders) (pool : DirectClientPool X) (parts : List (Endpoint × Request))
      (e : Endpoint)
      → IsPresent pool e
      → IsPresent (prepare h pool parts).1 e
  unfolding prepare
  prepare-IsPresent h pool [] e p = p
  prepare-IsPresent h pool ((ep, req) ∷ parts) e p =
      prepare-IsPresent h (get_or_create pool ep).1 parts e (get_or_create-IsPresent pool ep e p)

  -- Every part's requests can be built.
  abbrev pub Buildable : HashOrders → List (Endpoint × Request) → Type 0
  Buildable h parts = All (λ part. is_some (build_requests h part.1) ≡ true) parts

  abbrev IsReady : HashOrders → DirectClientPool X → List Sending → Type 0
  IsReady h pool sendings =
      All (λ s. IsPresent pool s.endpoint × (is_some (build_requests h s.request) ≡ true)) sendings

  prepare-IsReady :
      (h : WriteOrders) (pool : DirectClientPool X) (parts : List (Endpoint × Request))
      → Buildable h.requests parts
      → IsReady h.requests (prepare h pool parts).1 (prepare h pool parts).0
  unfolding prepare
  prepare-IsReady h pool [] b = tt
  prepare-IsReady h pool ((ep, req) ∷ parts) b = (
    (prepare-IsPresent h (get_or_create pool ep).1 parts ep (created-IsPresent pool ep), b.0),
    prepare-IsReady h (get_or_create pool ep).1 parts b.1,
  )

  write_internal-some :
      (h : HashOrders) (factory : RpcClientFactory X) (inner : InnerClient X) (ctx : RpcContext)
      (req : Request) (database : Str)
      → ctx.database ≡ some database
      → is_some (build_requests h req) ≡ true
      → is_some (write_internal h factory inner ctx req) ≡ true
  unfolding write_internal
  write_internal-some h factory inner ctx req database d b =
      rw (d, write_internal) (by_handle (client_handle factory inner))
    where
      by_handle :
          (handle : Result X (RpcClient X))
          → is_some {A = Result X WriteResponse × InnerClient X} (elim handle [
            | Result.err e ↦ some (Result.err e, inner)
            | Result.ok client ↦ build_requests h req >>= (λ table_requests. some (
              write_answer (
                  client.write ctx (record {
                    context = record { database = database };
                    table_requests = table_requests;
                  })),
              record inner { inner_client = some client },
            ))
          ])
            ≡ true
      by_handle (Result.err e) = refl
      by_handle (Result.ok client) =
          let (requests, e) = some_of (build_requests h req) b in rw e refl

  insert-IsReady :
      (h : HashOrders) (pool : DirectClientPool X) (k : Endpoint) (client : InnerClient X)
      (sendings : List Sending)
      → IsReady h pool sendings
      → IsReady h (HashMap.insert k client pool) sendings
  insert-IsReady h pool k client [] r = tt
  insert-IsReady h pool k client (s ∷ sendings) ((p, b), r) =
      ((insert-IsPresent pool k s.endpoint client p, b), insert-IsReady h pool k client sendings r)

  send_all-some :
      (h : WriteOrders) (factory : RpcClientFactory X) (ctx : RpcContext) (database : Str)
      (pool : DirectClientPool X) (sendings : List Sending)
      → ctx.database ≡ some database
      → IsReady h.requests pool sendings
      → is_some (send_all h factory ctx pool sendings) ≡ true
  unfolding send_all
  send_all-some h factory ctx database pool [] d r = refl
  send_all-some h factory ctx database pool (s ∷ sendings) d ((p, b), r) =
      let (client, found) = some_of (HashMap.get pool s.endpoint) p in
      let ((result, after), written) =
        some_of (write_internal h.requests factory client ctx s.request)
          (write_internal-some h.requests factory client ctx s.request database d b) in
      let (rest, sent) =
        some_of (send_all h factory ctx (HashMap.insert s.endpoint after pool) sendings) (
          send_all-some h factory ctx database (HashMap.insert s.endpoint after pool) sendings d
            (insert-IsReady h.requests pool s.endpoint after sendings r)) in
      rw found (rw written (rw sent refl))

  -- If the context names a database and the requests of every part can be built, sending the parts of a
  -- write does not panic, whatever the pool has and whatever the servers answer.
  pub send_parts_total :
      (h : WriteOrders) (factory : RpcClientFactory X) (ctx : RpcContext) (database : Str)
      (pool : DirectClientPool X) (parts : List (Endpoint × Request))
      → ctx.database ≡ some database
      → Buildable h.requests parts
      → is_some (send_all h factory ctx (prepare h pool parts).1 (prepare h pool parts).0) ≡ true
  send_parts_total h factory ctx database pool parts d b =
      send_all-some h factory ctx database (prepare h pool parts).1 (prepare h pool parts).0 d
        (prepare-IsReady h pool parts b)

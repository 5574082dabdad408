-- ===== src/DbClient/RouteBased/Answered.antt =====
-- What the parts of a write come to: the answers of their servers.
use mathlib.Core.Option.{get_or}
use horaedb_client_rs.Prelude.{
  ◌>>=◌, ◌≡◌, refl, ap, sym, ◌∙◌, Option, none, some, List, [], ◌∷◌, Str, ◌==◌, if◌then◌else◌,
  Option-cases, Bool-cases, inl, inr,
}
use horaedb_client_rs.DbClient.Inner
use horaedb_client_rs.DbClient.Inner.{InnerClient, client_handle, write_answer, write_internal}
use horaedb_client_rs.DbClient.RouteBased.{DirectClientPool, get_or_create}
use horaedb_client_rs.DbClient.RouteBased.Pool.{get_or_create_absent, get_or_create_present}
use horaedb_client_rs.DbClient.RouteBased.Write.{WriteOrders, Results, keys}
use horaedb_client_rs.Endpoint.{Endpoint, endpoint_eq, endpoint_eqb_iff, to_string}
use horaedb_client_rs.Errors.{Result, WriteResponse}
use horaedb_client_rs.HashMap
use horaedb_client_rs.HashMap.Laws.{get-insert}
use horaedb_client_rs.Rpc.{RpcContext}
use horaedb_client_rs.Rpc.Client.{RpcClient, RpcClientFactory}
use horaedb_client_rs.Write.Proto.{HashOrders, WriteTableRequestPb, build_requests}
use horaedb_client_rs.Write.Request.{Request}

module _ (X : Type 0) where
  -- What a client answers to the messages of a write: its server's answer, or why it cannot connect.
  abbrev pub reply :
      RpcClientFactory X
      → RpcContext
      → Str
      → InnerClient X
      → List WriteTableRequestPb
      → Result X WriteResponse
  reply factory ctx database inner requests = elim (client_handle factory inner) [
    | Result.err e ↦ Result.err e
    | Result.ok client ↦ write_answer (
        client.write ctx
          (record { context = record { database = database }; table_requests = requests }))
  ]

  -- The parts with the answers of their servers: each is sent its messages, by the client that the pool
  -- has or makes for its endpoint.
  abbrev pub replies :
      WriteOrders
      → RpcClientFactory X
      → RpcContext
      → Str
      → DirectClientPool X
      → List (Endpoint × Request)
      → Results X
  replies h factory ctx database pool [] = []
  replies h factory ctx database pool ((ep, req) ∷ parts) =
      (
        keys h req.point_groups,
        reply factory ctx database (get_or_create pool ep).0
            (get_or (build_requests h.requests req) []),
      )
      ∷ replies h factory ctx database pool parts

  pub write_internal-reply :
      (h : HashOrders) (factory : RpcClientFactory X) (inner : InnerClient X) (ctx : RpcContext)
      (req : Request) (database : Str) (requests : List WriteTableRequestPb)
      → ctx.database ≡ some database
      → build_requests h req ≡ some requests
      → (after : InnerClient X) × (write_internal h factory inner ctx req
          ≡ some (reply factory ctx database inner requests, after))
  unfolding write_internal
  write_internal-reply h factory inner ctx req database requests d b =
      let (after, e) = by_handle (client_handle factory inner) in (after, ap with_database d ∙ e)
    where
      with_handle : Str → Result X (RpcClient X) → Option (Result X WriteResponse × InnerClient X)
      with_handle db handle = elim handle [
        | Result.err e ↦ some (Result.err e, inner)
        | Result.ok client ↦ build_requests h req >>= (λ table_requests. some (
          write_answer (
              client.write ctx
                (record { context = record { database = db }; table_requests = table_requests })),
          record inner { inner_client = some client },
        ))
      ]

      with_database : Option Str → Option (Result X WriteResponse × InnerClient X)
      with_database o = elim o [
        | none ↦ none
        | some db ↦ with_handle db (client_handle factory inner)
      ]

      by_handle :
          (handle : Result X (RpcClient X))
          → (after : InnerClient X) × (with_handle database handle ≡ (
              some (
                elim handle [
                  | Result.err e ↦ Result.err e
                  | Result.ok client ↦ write_answer (
                      client.write ctx (record {
                        context = record { database = database };
                        table_requests = requests;
                      }))
                ],
                after,
              )))
      by_handle (Result.err e) = (inner, refl)
      by_handle (Result.ok client) = (record inner { inner_client = some client }, rw b refl)

  -- A client in the pool is the one that the pool gives out.
  pub get-get_or_create :
      (pool : DirectClientPool X) (k e : Endpoint)
      → HashMap.get (get_or_create pool k).1 e
        ≡ (if k == e then some (get_or_create pool k).0 else HashMap.get pool e)
  get-get_or_create pool k e = elim (Option-cases (HashMap.get pool k)) [
    | inl absent ↦
        rw (get_or_create_absent X pool k absent) (get-insert pool k e (Inner.new (to_string k)))
    | inr (client, present) ↦
        rw (get_or_create_present X pool k client present) (elim (Bool-cases (k == e)) [
          | inl same ↦ rw same (rw (sym ((endpoint_eqb_iff k e).0 same)) present)
          | inr other ↦ rw other refl
        ])
  ]

  pub client-of_get :
      (pool : DirectClientPool X) (e : Endpoint) (o : Option (InnerClient X))
      → HashMap.get pool e ≡ o
      → (get_or_create pool e).0 ≡ get_or o (Inner.new (to_string e))
  client-of_get pool e none h = ap (λ x. x.0) (get_or_create_absent X pool e h)
  client-of_get pool e (some client) h = ap (λ x. x.0) (get_or_create_present X pool e client h)

  -- Making a client for one endpoint does not change which client another is given.
  pub client-get_or_create :
      (pool : DirectClientPool X) (k e : Endpoint)
      → (get_or_create (get_or_create pool k).1 e).0 ≡ (get_or_create pool e).0
  client-get_or_create pool k e = elim (Bool-cases (k == e)) [
    | inl same ↦
        client-of_get (get_or_create pool k).1 e (some (get_or_create pool k).0)
          (get-get_or_create pool k e ∙ rw same refl)
        ∙ ap (λ x. (get_or_create pool x).0) ((endpoint_eqb_iff k e).0 same)
    | inr other ↦
        client-of_get (get_or_create pool k).1 e (HashMap.get pool e)
          (get-get_or_create pool k e ∙ rw other refl)
        ∙ sym (client-of_get pool e (HashMap.get pool e) refl)
  ]

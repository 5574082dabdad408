-- ===== src/DbClient/RouteBased/Replies.antt =====
-- The parts of a write, sent one after the other, get the answers of their servers.
use horaedb_client_rs.Prelude.{
  ◌≡◌, refl, ap, ◌∙◌, false, some, List, [], ◌∷◌, map, All, Str, ◌==◌, Bool-cases, inl, inr,
}
use horaedb_client_rs.DbClient.Inner.{InnerClient}
use horaedb_client_rs.DbClient.RouteBased.{DirectClientPool, get_or_create}
use horaedb_client_rs.DbClient.RouteBased.Answered.{
  replies, write_internal-reply, get-get_or_create, client-of_get, client-get_or_create,
}
use horaedb_client_rs.DbClient.RouteBased.Sent.{Buildable, some_of}
use horaedb_client_rs.DbClient.RouteBased.Write.{WriteOrders, Sending, keys, prepare, send_all}
use horaedb_client_rs.Endpoint.{Endpoint, endpoint_eq, endpoint_eqb_iff}
use horaedb_client_rs.HashMap
use horaedb_client_rs.HashMap.Entries.{IsDistinct, same_flip}
use horaedb_client_rs.HashMap.Laws.{get-insert}
use horaedb_client_rs.Rpc.{RpcContext}
use horaedb_client_rs.Rpc.Client.{RpcClientFactory}
use horaedb_client_rs.Write.Proto.{build_requests}
use horaedb_client_rs.Write.Request.{Request}

module _ (X : Type 0) where
  abbrev to_sending : WriteOrders → Endpoint × Request → Sending
  to_sending h (ep, req) = record { endpoint = ep; request = req; tables = keys h req.point_groups }

  prepare-to_sending :
      (h : WriteOrders) (pool : DirectClientPool X) (parts : List (Endpoint × Request))
      → (prepare h pool parts).0 ≡ map (to_sending h) parts
  unfolding prepare
  prepare-to_sending h pool [] = refl
  prepare-to_sending h pool ((ep, req) ∷ parts) =
      ap (λ l. to_sending h (ep, req) ∷ l) (prepare-to_sending h (get_or_create pool ep).1 parts)

  -- A pool with the clients that another gives out for the parts.
  abbrev HasClients : DirectClientPool X → DirectClientPool X → List (Endpoint × Request) → Type 0
  HasClients pool now parts =
      All (λ part. HashMap.get now part.0 ≡ some (get_or_create pool part.0).0) parts

  keep :
      (pool : DirectClientPool X) (k e : Endpoint) (client : InnerClient X)
      → HashMap.get pool e ≡ some client
      → HashMap.get (get_or_create pool k).1 e ≡ some client
  keep pool k e client h = elim (Bool-cases (k == e)) [
    | inl same ↦
        get-get_or_create X pool k e
        ∙ rw same (
            ap some (
              ap (λ x. (get_or_create pool x).0) ((endpoint_eqb_iff k e).0 same)
              ∙ client-of_get X pool e (some client) h))
    | inr other ↦ get-get_or_create X pool k e ∙ rw other h
  ]

  prepare-keep :
      (h : WriteOrders) (pool : DirectClientPool X) (parts : List (Endpoint × Request))
      (e : Endpoint) (client : InnerClient X)
      → HashMap.get pool e ≡ some client
      → HashMap.get (prepare h pool parts).1 e ≡ some client
  unfolding prepare
  prepare-keep h pool [] e client p = p
  prepare-keep h pool ((ep, req) ∷ parts) e client p =
      prepare-keep h (get_or_create pool ep).1 parts e client (keep pool ep e client p)

  HasClients-get_or_create :
      (pool now : DirectClientPool X) (k : Endpoint) (parts : List (Endpoint × Request))
      → HasClients (get_or_create pool k).1 now parts
      → HasClients pool now parts
  HasClients-get_or_create pool now k [] c = tt
  HasClients-get_or_create pool now k ((ep, req) ∷ parts) c = (
    c.0 ∙ ap some (client-get_or_create X pool k ep),
    HasClients-get_or_create pool now k parts c.1,
  )

  prepare-HasClients :
      (h : WriteOrders) (pool : DirectClientPool X) (parts : List (Endpoint × Request))
      → HasClients pool (prepare h pool parts).1 parts
  unfolding prepare
  prepare-HasClients h pool [] = tt
  prepare-HasClients h pool ((ep, req) ∷ parts) = (
    prepare-keep h (get_or_create pool ep).1 parts ep (get_or_create pool ep).0
        (get-get_or_create X pool ep ep ∙ rw ((endpoint_eqb_iff ep ep).1 refl) refl),
    HasClients-get_or_create pool (prepare h (get_or_create pool ep).1 parts).1 ep parts
        (prepare-HasClients h (get_or_create pool ep).1 parts),
  )

  insert-HasClients :
      (pool now : DirectClientPool X) (k : Endpoint) (client : InnerClient X)
      (parts : List (Endpoint × Request))
      → All (λ part. (part.0 == k) ≡ false) parts
      → HasClients pool now parts
      → HasClients pool (HashMap.insert k client now) parts
  insert-HasClients pool now k client [] d c = tt
  insert-HasClients pool now k client ((ep, req) ∷ parts) d c = (
    get-insert now k ep client ∙ rw (same_flip ep k d.0) c.0,
    insert-HasClients pool now k client parts d.1 c.1,
  )

  send_all-replies :
      (h : WriteOrders) (factory : RpcClientFactory X) (ctx : RpcContext) (database : Str)
      (pool now : DirectClientPool X) (parts : List (Endpoint × Request))
      → ctx.database ≡ some database
      → Buildable X h.requests parts
      → IsDistinct parts
      → HasClients pool now parts
      → (after : DirectClientPool X) × (send_all h factory ctx now (map (to_sending h) parts)
          ≡ some (replies X h factory ctx database pool parts, after))
  unfolding send_all
  send_all-replies h factory ctx database pool now [] d b distinct c = (now, refl)
  send_all-replies h factory ctx database pool now ((ep, req) ∷ parts) d b distinct c =
      let (requests, built) = some_of (build_requests h.requests req) b.0 in
      let inner = (get_or_create pool ep).0 in
      let (client, written) =
        write_internal-reply X h.requests factory inner ctx req database requests d built in
      let (after, rest) =
        send_all-replies h factory ctx database pool (HashMap.insert ep client now) parts d b.1
          distinct.1 (insert-HasClients pool now ep client parts distinct.0 c.1) in
      (after, rw c.0 (rw written (rw rest (rw built refl))))

  -- The parts of a write, of distinct endpoints, whose requests can be built: each gets what the server of
  -- its endpoint answers to its messages, whatever the pool has.
  pub send_parts-replies :
      (h : WriteOrders) (factory : RpcClientFactory X) (ctx : RpcContext) (database : Str)
      (pool : DirectClientPool X) (parts : List (Endpoint × Request))
      → ctx.database ≡ some database
      → Buildable X h.requests parts
      → IsDistinct parts
      → (after : DirectClientPool X) × (send_all h factory ctx
            (prepare h pool parts).1
            (prepare h pool parts).0
          ≡ some (replies X h factory ctx database pool parts, after))
  send_parts-replies h factory ctx database pool parts d b distinct =
      let (after, sent) =
        send_all-replies h factory ctx database pool (prepare h pool parts).1 parts d b distinct
          (prepare-HasClients h pool parts) in
      (
        after,
        ap (send_all h factory ctx (prepare h pool parts).1) (prepare-to_sending h pool parts)
            ∙ sent,
      )

-- ===== src/Rpc/Client/Laws.antt =====
-- When a call of the client succeeds, whatever the call.
use mathlib.Core.Option.{get_or}
use horaedb_client_rs.Prelude.{
  ℕ, ◌≡◌, refl, Bool, true, false, not, Option, none, some, ◌⊎◌, inl, inr, if◌then◌else◌, eqb, ap,
  ◌∙◌,
}
use horaedb_client_rs.Errors.{ServerError, Error, Result}
use horaedb_client_rs.Rpc.{RpcContext, ResponseHeader, RouteRequest, RouteResponse}
use horaedb_client_rs.SqlQuery.Messages.{
  SqlQueryRequest, SqlQueryResponse, WriteRequest, WriteResponsePb,
}
use horaedb_client_rs.Rpc.Client
use horaedb_client_rs.Rpc.Client.{RpcClientImpl, GrpcRequest, check_status, checked, make_request}
use horaedb_client_rs.Util.{is_ok, as_u32}

abbrev pub refusal : ResponseHeader → ServerError
refusal header = record { code = header.code; msg = header.error }

-- What an answer of the transport is to the caller: its error, the server's error if there is a header
-- with another code than 200, or else the message without its header.
abbrev pub accepted : {X A : Type 0} → (A → Option ResponseHeader) → (A → A) → A ⊎ X → Result X A
accepted header_of strip (inr e) = Result.err (Error.rpc e)
accepted header_of strip (inl resp) = elim (header_of resp) [
  | none ↦ Result.ok (strip resp)
  | some header ↦
      if eqb header.code 200
      then Result.ok (strip resp)
      else Result.err (Error.server (refusal header))
]

check_status-accepts :
    (h : ResponseHeader) → check_status h ≡ (if eqb h.code 200 then none else some (refusal h))
unfolding check_status is_ok as_u32
check_status-accepts h = not_swap (eqb h.code 200)
  where
    not_swap :
        (b : Bool)
        → (if not b then some (refusal h) else none) ≡ (if b then none else some (refusal h))
    not_swap true = refl
    not_swap false = refl

checked-accepted :
    {X A : Type 0} (header : Option ResponseHeader) (resp : A)
    → checked {X = X} header resp ≡ elim header [
      | none ↦ Result.ok resp
      | some h ↦ if eqb h.code 200 then Result.ok resp else Result.err (Error.server (refusal h))
    ]
checked-accepted none resp = refl
checked-accepted {X} {A} (some h) resp =
    ap
      (λ (o : Option ServerError). elim o [
        | some e ↦ Result.err (Error.server e)
        | none ↦ Result.ok resp
      ])
      (check_status-accepts h)
    ∙ by_code (eqb h.code 200)
  where
    by_code :
        (b : Bool)
        → ◌≡◌ {A = Result X A}
            (elim (if b then none else some (refusal h)) [
              | some e ↦ Result.err (Error.server e)
              | none ↦ Result.ok resp
            ])
            (if b then Result.ok resp else Result.err (Error.server (refusal h)))
    by_code true = refl
    by_code false = refl

-- The request that a call sends.
abbrev pub sent : {X T : Type 0} → RpcClientImpl X → RpcContext → T → ℕ → GrpcRequest T
sent c ctx req d = record {
  message = req;
  timeout = get_or ctx.timeout d;
  authorization = c.metadata;
}

-- What a call returns, by what the transport answers to the message with the timeout of the context or
-- else the default one, which is the read timeout for a query and the write timeout for a write and a
-- route, and with the credentials of the client: the transport's error, or the server's code and message if
-- the answer has a header with another code than 200, or else the message without its header.
pub calls-accepted :
    (X : Type 0) (c : RpcClientImpl X) (ctx : RpcContext) (q : SqlQueryRequest) (w : WriteRequest)
    (r : RouteRequest)
    → (Client.sql_query c ctx q
        ≡ accepted
            (λ a. a.header)
            (λ a. record a { header = none })
            (c.channel.call_sql_query (sent c ctx q c.default_read_timeout)))
      × ((Client.write c ctx w
            ≡ accepted
                (λ a. a.header)
                (λ a. record a { header = none })
                (c.channel.call_write (sent c ctx w c.default_write_timeout)))
          × (Client.route c ctx r
              ≡ accepted
                  (λ a. a.header)
                  (λ a. record a { header = none })
                  (c.channel.call_route (sent c ctx r c.default_write_timeout))))
unfolding Client.sql_query Client.write Client.route Client.make_query_request
    Client.make_write_request Client.make_request
calls-accepted X c ctx q w r = (
  (by_query (c.channel.call_sql_query (sent c ctx q c.default_read_timeout))),
  (
    (by_write (c.channel.call_write (sent c ctx w c.default_write_timeout))),
    (by_route (c.channel.call_route (sent c ctx r c.default_write_timeout))),
  ),
)
  where
    by_query :
        (a : SqlQueryResponse ⊎ X)
        → (elim a [
          | inr e ↦ Result.err (Error.rpc e)
          | inl resp ↦ checked resp.header (record resp { header = none })
        ])
          ≡ accepted (λ a. a.header) (λ a. record a { header = none }) a
    by_query (inr e) = refl
    by_query (inl a) = checked-accepted a.header (record a { header = none })

    by_write :
        (a : WriteResponsePb ⊎ X)
        → (elim a [
          | inr e ↦ Result.err (Error.rpc e)
          | inl resp ↦ checked resp.header (record resp { header = none })
        ])
          ≡ accepted (λ a. a.header) (λ a. record a { header = none }) a
    by_write (inr e) = refl
    by_write (inl a) = checked-accepted a.header (record a { header = none })

    by_route :
        (a : RouteResponse ⊎ X)
        → (elim a [
          | inr e ↦ Result.err (Error.rpc e)
          | inl resp ↦ checked resp.header (record resp { header = none })
        ])
          ≡ accepted (λ a. a.header) (λ a. record a { header = none }) a
    by_route (inr e) = refl
    by_route (inl a) = checked-accepted a.header (record a { header = none })

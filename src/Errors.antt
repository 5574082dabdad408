-- ===== src/Errors.antt =====
-- src/errors.rs and src/model/write/response.rs: the errors of the client, and the merge of the results of a write
-- that was split over several servers.
pub mod Merge
mod Tests
use horaedb_client_rs.Prelude.{ℕ, List, Str}

pub record ServerError : Type 0 where
  pub code : ℕ
  pub msg : Str

pub data AuthCode : Type 0 where
  ok invalid_tenant_meta invalid_token_meta : AuthCode

pub record AuthFailStatus : Type 0 where
  pub code : AuthCode
  pub msg : Str

-- `Response` of a write: how many rows were written, and how many were not.
pub record WriteResponse : Type 0 where
  pub success : ℕ
  pub failed : ℕ

-- `X` is the type of the errors of other crates: `tonic::Status`, the boxed errors and
-- `anyhow::Error`, which the client only passes on.
mutual
  pub data Error (X : Type 0) : Type 0 where
    server : ServerError → Error X
    rpc : X → Error X
    connect : Str → X → Error X
    client : Str → Error X
    auth_fail : AuthFailStatus → Error X
    route_based : RouteBasedWriteError X → Error X
    unknown : Str → Error X
    build_rows : Str → Error X
    decode_arrow_payload : X → Error X
    no_database : Error X
    other : X → Error X

  -- The tables written with the merged response, and the tables that failed, each with its error.
  pub data RouteBasedWriteError (X : Type 0) : Type 0 where
    write_error : List Str → WriteResponse → Errors X → RouteBasedWriteError X

  pub data Errors (X : Type 0) : Type 0 where
    no_errors : Errors X
    also : List Str → Error X → Errors X → Errors X

-- Rust's `Result` with this error.
pub data Result (X : Type 0) (A : Type 0) : Type 0 where
  ok : A → Result X A
  err : Error X → Result X A

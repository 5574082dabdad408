-- ===== src/SqlQuery/Messages.antt =====
-- The request of src/model/sql_query/request.rs, and the messages of the crate horaedbproto for queries
-- and writes, with the fields that the client sets and reads.
use horaedb_client_rs.Prelude.{ℕ, Option, List, Str}
use horaedb_client_rs.Rpc.{RequestContext, ResponseHeader}
use horaedb_client_rs.Write.Proto.{WriteTableRequestPb}

pub record Request : Type 0 where
  pub tables : List Str
  pub sql : Str

pub data Compression : Type 0 where
  none zstd : Compression

pub record ArrowPayload : Type 0 where
  pub record_batches : List (List ℕ)
  pub compression : Compression

pub data OutputPb : Type 0 where
  affected_rows : ℕ → OutputPb
  arrow : ArrowPayload → OutputPb

pub record SqlQueryRequest : Type 0 where
  pub context : RequestContext
  pub tables : List Str
  pub sql : Str

pub record SqlQueryResponse : Type 0 where
  pub header : Option ResponseHeader
  pub output : Option OutputPb

pub record WriteRequest : Type 0 where
  pub context : RequestContext
  pub table_requests : List WriteTableRequestPb

pub record WriteResponsePb : Type 0 where
  pub header : Option ResponseHeader
  pub success : ℕ
  pub failed : ℕ

-- ===== src/SqlQuery/Response.antt =====
-- src/model/sql_query/response.rs: the answer to a query. `none` is a panic.
pub mod Laws
use horaedb_client_rs.Prelude.{
  ◌>>=◌, ℕ, Option, none, some, List, [], ◌∷◌, ◌++◌, map, Str, bytes, ◌⊎◌, inl, inr,
}
use horaedb_client_rs.Errors.{Error, Result}
use horaedb_client_rs.SqlQuery.Arrow.{Arrow}
use horaedb_client_rs.SqlQuery.Messages.{Compression, ArrowPayload, OutputPb}
use horaedb_client_rs.SqlQuery.Row
use horaedb_client_rs.SqlQuery.Row.{Row}

pub record Response : Type 0 where
  pub affected_rows : ℕ
  pub rows : List Row

unfoldable pub default : Response
default = record { affected_rows = 0; rows = [] }

-- `Output`
pub data Output : Type 0 where
  affected_rows : ℕ → Output
  rows : List Row → Output

-- `collect` of results: the first error, or all values.
abbrev pub collect : {X A : Type 0} → List (Result X A) → Result X (List A)
collect [] = Result.ok []
collect (Result.err e ∷ rest) = Result.err e
collect (Result.ok a ∷ rest) = elim (collect rest) [
  | Result.err e ↦ Result.err e
  | Result.ok l ↦ Result.ok (a ∷ l)
]

abbrev pub flatten {ℓ} : {A : Type ℓ} → List (List A) → List A
flatten [] = []
flatten (xs ∷ xss) = xs ++ flatten xss

module _ {X : Type 0} (arrow : Arrow X) where
  abbrev pub decode_error : {A : Type 0} → A ⊎ X → Result X A
  decode_error (inl a) = Result.ok a
  decode_error (inr e) = Result.err (Error.decode_arrow_payload e)

  abbrev pub unzip : Compression → List ℕ → Result X (List ℕ)
  unzip Compression.none batch = Result.ok batch
  unzip Compression.zstd batch = decode_error (arrow.decode_all batch)

  abbrev pub decode_stream : List ℕ → Result X (List arrow.RecordBatch)
  decode_stream batch = elim (decode_error (arrow.try_new batch)) [
    | Result.err e ↦ Result.err e
    | Result.ok reader ↦ collect (map decode_error reader)
  ]

  unfoldable pub decode_arrow_payload : ArrowPayload → Result X (List arrow.RecordBatch)
  decode_arrow_payload payload =
      elim (collect (map (unzip payload.compression) payload.record_batches)) [
        | Result.err e ↦ Result.err e
        | Result.ok batches ↦ elim (collect (map decode_stream batches)) [
          | Result.err e ↦ Result.err e
          | Result.ok groups ↦ Result.ok (flatten groups)
        ]
      ]

  -- The rows of each batch, up to the first error.
  unfoldable pub rows_of_batches : List arrow.RecordBatch → Option (Result X (List (List Row)))
  rows_of_batches [] = some (Result.ok [])
  rows_of_batches (batch ∷ batches) = do
    builder ← Row.with_arrow_record_batch arrow batch
    let rest = rows_of_batches batches
    elim builder [
      | Result.err e ↦ some (Result.err e)
      | Result.ok b ↦ do
        built ← Row.build b
        group ← rest
        elim group [
          | Result.err e ↦ some (Result.err e)
          | Result.ok groups ↦ some (Result.ok (built ∷ groups))
        ]
    ]

  -- `TryFrom<OutputPb> for Output`
  unfoldable pub output_try_from : OutputPb → Option (Result X Output)
  output_try_from (OutputPb.affected_rows n) = some (Result.ok (Output.affected_rows n))
  output_try_from (OutputPb.arrow payload) = elim (decode_arrow_payload payload) [
    | Result.err e ↦ some (Result.err e)
    | Result.ok batches ↦ do
      groups ← rows_of_batches batches
      elim groups [
        | Result.err e ↦ some (Result.err e)
        | Result.ok gs ↦ some (Result.ok (Output.rows (flatten gs)))
      ]
  ]

  abbrev pub response_of : Result X Output → Result X Response
  response_of (Result.err e) = Result.err e
  response_of (Result.ok (Output.affected_rows n)) =
      Result.ok (record default { affected_rows = n })
  response_of (Result.ok (Output.rows rs)) = Result.ok (record default { rows = rs })

  -- `TryFrom<SqlQueryResponse> for Response`
  unfoldable pub try_from : Option OutputPb → Option (Result X Response)
  try_from none = some (Result.err (Error.unknown (bytes "output is empty in sql query response")))
  try_from (some pb) = do output ← output_try_from pb; some (response_of output)

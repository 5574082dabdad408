-- ===== src/SqlQuery/Response/Laws.antt =====
-- What a query answers with.
use horaedb_client_rs.Prelude.{ℕ, ◌≡◌, refl, some, List, [], ◌∷◌, length}
use horaedb_client_rs.Errors.{Result}
use horaedb_client_rs.Value.{Value}
use horaedb_client_rs.SqlQuery.Arrow.{Arrow}
use horaedb_client_rs.SqlQuery.Messages.{ArrowPayload, OutputPb}
use horaedb_client_rs.SqlQuery.Row.{Row}
use horaedb_client_rs.SqlQuery.Row.Laws.{
  BatchHolds, with_arrow_record_batch-reads, build-reads, rows_of_batch,
}
use horaedb_client_rs.SqlQuery.Response.{
  default, flatten, decode_arrow_payload, rows_of_batches, output_try_from, try_from,
}

module _ (X : Type 0) (arrow : Arrow X) where
  -- Batches with the cells of their columns, as many columns as names.
  abbrev pub Contents : List arrow.RecordBatch → List (List (ℕ → Value)) → Type 0
  Contents [] [] = Unit
  Contents [] (fs ∷ fss) = ⊥
  Contents (b ∷ bs) [] = ⊥
  Contents (b ∷ bs) (fs ∷ fss) =
      ((arrow.num_columns b ≡ length fs)
        × ((length (arrow.field_names b) ≡ length fs)
            × BatchHolds X arrow b (arrow.num_rows b) 0 fs))
      × Contents bs fss

  abbrev pub all_rows : List arrow.RecordBatch → List (List (ℕ → Value)) → List (List Row)
  all_rows [] fss = []
  all_rows (b ∷ bs) [] = []
  all_rows (b ∷ bs) (fs ∷ fss) = rows_of_batch X arrow b fs ∷ all_rows bs fss

  rows_of_batches-reads :
      (bs : List arrow.RecordBatch) (fss : List (List (ℕ → Value)))
      → Contents bs fss
      → rows_of_batches arrow bs ≡ some (Result.ok (all_rows bs fss))
  unfolding rows_of_batches
  rows_of_batches-reads [] [] h = refl
  rows_of_batches-reads [] (fs ∷ fss) h = elim h [ ]
  rows_of_batches-reads (b ∷ bs) [] h = elim h [ ]
  rows_of_batches-reads (b ∷ bs) (fs ∷ fss) ((c, (n, h)), rest) =
      rw (with_arrow_record_batch-reads X arrow b fs c h)
        (rw (build-reads X arrow b fs n) (rw (rows_of_batches-reads bs fss rest) refl))

  -- Where the payload decodes to batches whose columns hold these cells, each column as arrow's data type
  -- for it says, the answer has the rows of all batches in order, each cell under the name of its column, and no affected rows.
  pub try_from-reads :
      (payload : ArrowPayload) (bs : List arrow.RecordBatch) (fss : List (List (ℕ → Value)))
      → decode_arrow_payload arrow payload ≡ Result.ok bs
      → Contents bs fss
      → try_from arrow (some (OutputPb.arrow payload))
        ≡ some (Result.ok (record { affected_rows = 0; rows = flatten (all_rows bs fss) }))
  unfolding try_from output_try_from default
  try_from-reads payload bs fss d h =
      rw (d, output_try_from) (rw (rows_of_batches-reads bs fss h) refl)

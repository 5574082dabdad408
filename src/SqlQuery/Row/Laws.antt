-- ===== src/SqlQuery/Row/Laws.antt =====
-- The rows that are built from a record batch.
use mathlib.Core.List.{append-nil, append_assoc}
use horaedb_client_rs.Prelude.{
  ◌>>=◌, ℕ, zero, suc, ◌≡◌, refl, ap, sym, ◌∙◌, subst, Option, some, List, [], ◌∷◌, ◌++◌, Str,
  arith, replicate, length, length-map, length-append,
}
use horaedb_client_rs.Errors.{Result}
use horaedb_client_rs.Value.{Value}
use horaedb_client_rs.SqlQuery.Arrow.{Arrow, ArrowType, ArrayKind, Elem}
use horaedb_client_rs.SqlQuery.Row.Types.{IsReadAs, arm_of-IsReadAs, wrap-IsReadAs}
use horaedb_client_rs.SqlQuery.Row.{
  fill_arm, Column, Row, name_columns, build_rows, build, wrap, Arm, arm_of,
  fill_column_in_row_batch, fill_columns, with_arrow_record_batch,
}
use horaedb_client_rs.SqlQuery.Row.Cells.{
  tabulate, tabulate-ext, replicate-tabulate, row_at, row_at-snoc, get_elem?-middle, Holds,
  fill_from-tabulate,
}

module _ (X : Type 0) (arrow : Arrow X) where
  abbrev ArmHolds : arrow.ArrayRef → ℕ → (ℕ → Value) → Arm → Type 0
  ArmHolds array n f Arm.nothing = (i : ℕ) → f i ≡ Value.null
  ArmHolds array n f Arm.unsupported = ⊥
  ArmHolds array n f (Arm.cast k) =
      (value : ℕ → Option (Elem k)) × ((arrow.downcast k array ≡ some value)
        × Holds value (wrap k) 0 n f)

  -- What the client relies on of a column: an array of nulls holds nulls, and any other array is of the
  -- kind that its data type is read as, with an element at each row that stands for the value.
  pub data ColumnHolds (array : arrow.ArrayRef) (n : ℕ) (f : ℕ → Value) : Type 0 where
    nulls :
        arrow.array_type array ≡ ArrowType.null
        → ((i : ℕ) → f i ≡ Value.null)
        → ColumnHolds array n f
    elements :
        (k : ArrayKind) (w : Elem k → Value) (value : ℕ → Option (Elem k))
        → IsReadAs (arrow.array_type array) k w
        → arrow.downcast k array ≡ some value
        → Holds value w 0 n f
        → ColumnHolds array n f

  ColumnHolds-ArmHolds :
      (array : arrow.ArrayRef) (n : ℕ) (f : ℕ → Value)
      → ColumnHolds array n f
      → ArmHolds array n f (arm_of (arrow.array_type array))
  unfolding arm_of
  ColumnHolds-ArmHolds array n f (nulls e h) = subst (ArmHolds array n f) (sym (ap arm_of e)) h
  ColumnHolds-ArmHolds array n f (elements k w value r is h) =
      subst (ArmHolds array n f) (sym (arm_of-IsReadAs (arrow.array_type array) k w r)) (
        value,
        (
          is,
          λ i lo hi.
              let (v, (read, holds)) = h i lo hi in
              (v, (read, holds ∙ sym (wrap-IsReadAs (arrow.array_type array) k w r v))),
        ),
      )

  fill_arm-tabulate :
      (arm : Arm) (array : arrow.ArrayRef) (n : ℕ) (done : List (ℕ → Value)) (f : ℕ → Value)
      (post : List Value)
      → ArmHolds array n f arm
      → fill_arm arrow arm
          (tabulate (λ i. row_at done i ++ Value.null ∷ post) 0 n)
          (length done)
          array
        ≡ some (Result.ok (tabulate (λ i. row_at done i ++ f i ∷ post) 0 n))
  fill_arm-tabulate Arm.nothing array n done f post h =
      ap (λ rows. some (Result.ok rows))
        (tabulate-ext _ _ 0 n (λ i. ap (λ v. row_at done i ++ v ∷ post) (sym (h i))))
  fill_arm-tabulate Arm.unsupported array n done f post h = elim h [ ]
  fill_arm-tabulate (Arm.cast k) array n done f post (value, (is, h)) =
      rw is (rw (fill_from-tabulate value (wrap k) done f post 0 n h) refl)

  fill_column-tabulate :
      (array : arrow.ArrayRef) (n : ℕ) (done : List (ℕ → Value)) (f : ℕ → Value) (post : List Value)
      → ColumnHolds array n f
      → fill_column_in_row_batch arrow
          (tabulate (λ i. row_at done i ++ Value.null ∷ post) 0 n)
          (length done)
          array
        ≡ some (Result.ok (tabulate (λ i. row_at done i ++ f i ∷ post) 0 n))
  unfolding fill_column_in_row_batch
  fill_column-tabulate array n done f post h =
      fill_arm-tabulate (arm_of (arrow.array_type array)) array n done f post
        (ColumnHolds-ArmHolds array n f h)

  -- The columns of a batch from `idx` on hold these cells.
  abbrev pub BatchHolds : arrow.RecordBatch → ℕ → ℕ → List (ℕ → Value) → Type 0
  BatchHolds batch n idx [] = Unit
  BatchHolds batch n idx (f ∷ fs) =
      ((array : arrow.ArrayRef) × ((arrow.column batch idx ≡ some array) × ColumnHolds array n f))
      × BatchHolds batch n (suc idx) fs

  fill_columns-tabulate :
      (batch : arrow.RecordBatch) (n : ℕ) (done todo : List (ℕ → Value)) (idx : ℕ)
      → idx ≡ length done
      → BatchHolds batch n idx todo
      → fill_columns arrow batch
          (length todo)
          idx
          (tabulate (λ i. row_at done i ++ replicate (length todo) Value.null) 0 n)
        ≡ some (Result.ok (tabulate (λ i. row_at (done ++ todo) i) 0 n))
  unfolding fill_columns
  fill_columns-tabulate batch n done [] idx p h =
      ap (λ rows. some (Result.ok rows))
        (tabulate-ext _ _ 0 n
          (λ i. append-nil (row_at done i) ∙ ap (λ fs. row_at fs i) (sym (append-nil done))))
  fill_columns-tabulate batch n done (f ∷ fs) idx p ((array, (is, holds)), h) = rw is (
      rw p (
        rw (fill_column-tabulate array n done f (replicate (length fs) Value.null) holds) (
          ap (fill_columns arrow batch (length fs) (suc idx))
            (tabulate-ext _ _ 0 n (λ i. row_at-snoc done f i (replicate (length fs) Value.null)))
          ∙ fill_columns-tabulate batch n (done ++ f ∷ []) fs (suc idx)
              (omega (arith, length-append done (f ∷ []))) h
          ∙ ap (λ gs. some (Result.ok (tabulate (row_at gs) 0 n)))
              (append_assoc done (f ∷ []) fs))))

  -- Where every column holds its cells, the batch is read without a panic and without an error, and the
  -- value of each row and column is the cell of that row in that column.
  pub with_arrow_record_batch-reads :
      (batch : arrow.RecordBatch) (fs : List (ℕ → Value))
      → arrow.num_columns batch ≡ length fs
      → BatchHolds batch (arrow.num_rows batch) 0 fs
      → with_arrow_record_batch arrow batch
        ≡ some (
            Result.ok (record {
              col_idx_to_name = arrow.field_names batch;
              row_values = tabulate (row_at fs) 0 (arrow.num_rows batch);
            }))
  unfolding with_arrow_record_batch
  with_arrow_record_batch-reads batch fs e h = rw e (
      rw (replicate-tabulate (replicate (length fs) Value.null) 0 (arrow.num_rows batch))
        (rw (fill_columns-tabulate batch (arrow.num_rows batch) [] fs 0 refl h) refl))

-- The columns of a row under their names.
abbrev pub named : List Str → List Value → List Column
named [] vs = []
named (n ∷ ns) [] = []
named (n ∷ ns) (v ∷ vs) = record { name = n; value = v } ∷ named ns vs

name_columns-named :
    (before names : List Str) (values : List Value) (idx : ℕ)
    → idx ≡ length before
    → length names ≡ length values
    → name_columns (before ++ names) idx values ≡ some (named names values)
unfolding name_columns
name_columns-named before [] [] idx p e = refl
name_columns-named before [] (v ∷ vs) idx p e = absurd (omega arith)
name_columns-named before (n ∷ ns) [] idx p e = absurd (omega arith)
name_columns-named before (n ∷ ns) (v ∷ vs) idx p e = rw p (
    rw (get_elem?-middle before n ns) (
      rw (sym p) (
        ap (λ l. name_columns l (suc idx) vs >>= (λ cs. some (record { name = n; value = v } ∷ cs)))
          (sym (append_assoc before (n ∷ []) ns))
        ∙ rw
            (name_columns-named (before ++ n ∷ []) ns vs (suc idx)
              (omega (arith, length-append before (n ∷ []))) (omega arith))
            refl)))

build_rows-named :
    (names : List Str) (g : ℕ → List Value) (idx n : ℕ)
    → ((i : ℕ) → length names ≡ length (g i))
    → build_rows names (tabulate g idx n)
      ≡ some (tabulate (λ i. record { columns = named names (g i) }) idx n)
unfolding build_rows
build_rows-named names g idx zero h = refl
build_rows-named names g idx (suc n) h =
    rw (name_columns-named [] names (g idx) 0 refl (h idx), build_rows-named names g (suc idx) n h)
      refl

module _ (X : Type 0) (arrow : Arrow X) where
  -- The rows of a batch: reading and naming its cells.
  abbrev pub rows_of_batch : arrow.RecordBatch → List (ℕ → Value) → List Row
  rows_of_batch batch fs =
      tabulate (λ i. record { columns = named (arrow.field_names batch) (row_at fs i) }) 0
        (arrow.num_rows batch)

  pub build-reads :
      (batch : arrow.RecordBatch) (fs : List (ℕ → Value))
      → length (arrow.field_names batch) ≡ length fs
      → build (record {
        col_idx_to_name = arrow.field_names batch;
        row_values = tabulate (row_at fs) 0 (arrow.num_rows batch);
      })
        ≡ some (rows_of_batch batch fs)
  unfolding build
  build-reads batch fs e =
      build_rows-named (arrow.field_names batch) (row_at fs) 0 (arrow.num_rows batch)
        (λ i. e ∙ sym (length-map (λ (f : ℕ → Value). f i) fs))

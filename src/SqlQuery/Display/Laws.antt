-- ===== src/SqlQuery/Display/Laws.antt =====
-- The csv text, as a reader of csv takes it apart.
use mathlib.Core.List.{append-nil, append_assoc}
use horaedb_client_rs.Prelude.{
  ℕ, ◌≡◌, refl, ap, sym, ◌∙◌, Bool, true, false, not, ◌&&◌, List, [], ◌∷◌, ◌++◌, map, All, Str,
  arith, eqb, if◌then◌else◌,
}
use horaedb_client_rs.Value.{Value}
use horaedb_client_rs.SqlQuery.Row.{Column, Row}
use horaedb_client_rs.SqlQuery.Display.{fmt, fmt_names, fmt_rows, fmt_values}

-- The lines of a text and the cells of each, where every cell ends with a comma and every line with a line
-- break; `cells` is what was read of the line, and `cell` of the cell.
abbrev pub read_csv : Str → List Str → Str → List (List Str)
read_csv [] cells cell = []
read_csv (c ∷ s) cells cell =
    let next_cell = read_csv s (cells ++ cell ∷ []) [] in
    let next_line = cells ∷ read_csv s [] [] in
    let same_cell = read_csv s cells (cell ++ c ∷ []) in
    if eqb c b',' then next_cell else if eqb c b'\n' then next_line else same_cell

-- A text that can stand in a cell.
abbrev pub is_plain : Str → Bool
is_plain [] = true
is_plain (c ∷ s) = (not (eqb c b',') && not (eqb c b'\n')) && is_plain s

plain_parts :
    (c : ℕ) (s : Str)
    → is_plain (c ∷ s) ≡ true
    → (eqb c b',' ≡ false) × ((eqb c b'\n' ≡ false) × (is_plain s ≡ true))
plain_parts c s h = ground arith

read_csv-cell :
    (s rest : Str) (cells : List Str) (cell : Str)
    → is_plain s ≡ true
    → read_csv (s ++ b',' ∷ rest) cells cell ≡ read_csv rest (cells ++ (cell ++ s) ∷ []) []
read_csv-cell [] rest cells cell h =
    ap (λ c. read_csv rest (cells ++ c ∷ []) []) (sym (append-nil cell))
read_csv-cell (c ∷ s) rest cells cell h =
    let (no_comma, (no_break, plain)) = plain_parts c s h in
    rw no_comma (
      rw no_break (
        read_csv-cell s rest cells (cell ++ c ∷ []) plain
        ∙ ap (λ d. read_csv rest (cells ++ d ∷ []) []) (append_assoc cell (c ∷ []) s)))

module _ (debug : Value → Str) where
  abbrev pub names : List Column → List Str
  names cs = map (λ (c : Column). c.name) cs

  abbrev pub values : List Column → List Str
  values cs = map (λ (c : Column). debug c.value) cs

  abbrev pub value_lines : List Row → List (List Str)
  value_lines rows = map (λ (row : Row). values row.columns) rows

  -- The table of a response: the names of the first row, then the Debug texts of each row's values.
  abbrev pub table : List Row → List (List Str)
  table [] = []
  table (row ∷ rows) = names row.columns ∷ value_lines (row ∷ rows)

  abbrev pub PlainValues : List Row → Type 0
  PlainValues rows = All (λ (row : Row). All (λ s. is_plain s ≡ true) (values row.columns)) rows

  abbrev pub PlainNames : List Row → Type 0
  PlainNames [] = Unit
  PlainNames (row ∷ rows) = All (λ s. is_plain s ≡ true) (names row.columns)

  read_csv-fmt_names :
      (cs : List Column) (rest : Str) (cells : List Str)
      → All (λ s. is_plain s ≡ true) (names cs)
      → read_csv (fmt_names debug cs ++ rest) cells [] ≡ (cells ++ names cs) ∷ read_csv rest [] []
  unfolding fmt_names
  read_csv-fmt_names [] rest cells h = ap (λ l. l ∷ read_csv rest [] []) (sym (append-nil cells))
  read_csv-fmt_names (c ∷ cs) rest cells h =
      ap (λ t. read_csv t cells []) (append_assoc c.name (b',' ∷ fmt_names debug cs) rest)
      ∙ read_csv-cell c.name (fmt_names debug cs ++ rest) cells [] h.0
      ∙ read_csv-fmt_names cs rest (cells ++ c.name ∷ []) h.1
      ∙ ap (λ l. l ∷ read_csv rest [] []) (append_assoc cells (c.name ∷ []) (names cs))

  read_csv-fmt_values :
      (cs : List Column) (rest : Str) (cells : List Str)
      → All (λ s. is_plain s ≡ true) (values cs)
      → read_csv (fmt_values debug cs ++ rest) cells [] ≡ (cells ++ values cs) ∷ read_csv rest [] []
  unfolding fmt_values
  read_csv-fmt_values [] rest cells h = ap (λ l. l ∷ read_csv rest [] []) (sym (append-nil cells))
  read_csv-fmt_values (c ∷ cs) rest cells h =
      ap (λ t. read_csv t cells []) (append_assoc (debug c.value) (b',' ∷ fmt_values debug cs) rest)
      ∙ read_csv-cell (debug c.value) (fmt_values debug cs ++ rest) cells [] h.0
      ∙ read_csv-fmt_values cs rest (cells ++ debug c.value ∷ []) h.1
      ∙ ap (λ l. l ∷ read_csv rest [] []) (append_assoc cells (debug c.value ∷ []) (values cs))

  read_csv-fmt_rows :
      (rows : List Row) → PlainValues rows → read_csv (fmt_rows debug rows) [] [] ≡ value_lines rows
  unfolding fmt_rows
  read_csv-fmt_rows [] h = refl
  read_csv-fmt_rows (row ∷ rows) h =
      read_csv-fmt_values row.columns (fmt_rows debug rows) [] h.0
      ∙ ap (λ l. values row.columns ∷ l) (read_csv-fmt_rows rows h.1)

  -- If neither a name of the first row nor the Debug text of a value has a comma or a line break, the csv
  -- text reads back, as lines of cells that end with commas, to nothing if there are no rows, and else to
  -- the names of the first row in order, then for each row in order the Debug texts of its values in order.
  pub read_csv-fmt :
      (rows : List Row)
      → PlainNames rows
      → PlainValues rows
      → read_csv (fmt debug rows) [] [] ≡ table rows
  unfolding fmt
  read_csv-fmt [] n h = refl
  read_csv-fmt (row ∷ rows) n h =
      read_csv-fmt_names row.columns (fmt_rows debug (row ∷ rows)) [] n
      ∙ ap (λ l. names row.columns ∷ l) (read_csv-fmt_rows (row ∷ rows) h)

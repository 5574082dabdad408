-- ===== src/SqlQuery/Display.antt =====
-- src/model/sql_query/display.rs: a response as csv. The Debug text of a value is an argument.
pub mod Laws
use horaedb_client_rs.Prelude.{◌≡◌, refl, List, [], ◌∷◌, ◌++◌, Str, bytes}
use horaedb_client_rs.Value.{Value}
use horaedb_client_rs.SqlQuery.Row.{Column, Row}

module _ (debug : Value → Str) where
  unfoldable pub fmt_names : List Column → Str
  fmt_names [] = bytes "\n"
  fmt_names (c ∷ cs) = c.name ++ (bytes "," ++ fmt_names cs)

  unfoldable pub fmt_values : List Column → Str
  fmt_values [] = bytes "\n"
  fmt_values (c ∷ cs) = debug c.value ++ (bytes "," ++ fmt_values cs)

  unfoldable pub fmt_rows : List Row → Str
  fmt_rows [] = []
  fmt_rows (row ∷ rows) = fmt_values row.columns ++ fmt_rows rows

  unfoldable pub fmt : List Row → Str
  fmt [] = []
  fmt (first ∷ rows) = fmt_names first.columns ++ fmt_rows (first ∷ rows)

test_newline : bytes "\n" ≡ 10 ∷ []
test_newline = refl

-- ===== src/Write/Compare/Tests.antt =====
-- The assertion of the unit test at a request of two tables, of which one point is overwritten.
use mathlib.Core.List.{append_cancel_right}
use horaedb_client_rs.Prelude.{
  ◌≡◌, refl, ap, sym, ◌∙◌, List, [], ◌∷◌, ◌++◌, All, All-Mem, arith, bytes,
}
use horaedb_client_rs.HashMap.{in_order}
use horaedb_client_rs.Value.{string}
use horaedb_client_rs.Write.Point.{Point, Columns}
use horaedb_client_rs.Write.Key.{make_tags_key}
use horaedb_client_rs.Write.Series.Laws.{Columns-set}
use horaedb_client_rs.Write.Whole.Requests.Tests.{orders, sent, sent-PointClean}
use horaedb_client_rs.Write.Compare.Expected.{CmpKeysApart}
use horaedb_client_rs.Write.Compare.Matches.{IsMatched, recovered-IsMatched}

-- Points of the same tags.
one_series-CmpKeysApart :
    (c : Columns) (ps : List Point) → All (λ p. p.tags ≡ c) ps → CmpKeysApart ps
one_series-CmpKeysApart c ps h p q m n e =
    let a = All-Mem (λ x. x.tags ≡ c) p ps (Columns-set _ _) h m in
    let b = All-Mem (λ x. x.tags ≡ c) q ps (Columns-set _ _) h n in
    (
      append_cancel_right p.table q.table (make_tags_key c) (
          ap (λ t. p.table ++ make_tags_key t) (sym a)
          ∙ e
          ∙ ap (λ t. q.table ++ make_tags_key t) b),
      a ∙ sym b,
    )

recovered-IsMatched_example : IsMatched orders in_order sent
recovered-IsMatched_example =
    recovered-IsMatched orders in_order sent sent-PointClean (omega arith) (omega arith) (
      one_series-CmpKeysApart ((bytes "host", string (bytes "a")) ∷ []) sent
        (refl, (refl, (refl, tt))))
